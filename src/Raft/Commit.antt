-- ===== src/Raft/Commit.antt =====
-- The commit index of crates/sigil-cluster/src/raft.rs: which entries a leader commits, and that
-- the index stays in the log.
use sigil_siem.Prelude.{
  ℕ, zero, suc, ◌≤◌, ◌<◌, ◌≡◌, refl, ◌⊎◌, inl, inr, Bool, true, false, Option, none, some, arith,
  leb, ◌==◌, ◌&&◌, length, Assoc, Bool-cases, leb→le, ==_iff,
}
use mathlib.Core.Path.{subst, sym}
use sigil_siem.Raft.Types.{RaftState, RaftNode, follower, candidate, leader}
use sigil_siem.Raft.Node.{
  majority, replicas, term_is, commit_scan, advance_in, advance_commit, last_index,
}

-- The entry at index `i` is of the leader's term and stored on a majority.
abbrev pub qualifies : RaftNode → Assoc ℕ → ℕ → Bool
qualifies n matched i = term_is n.log i n.term && leb (majority n) (replicas matched i)

-- No index above the commit index and up to `top` qualifies, but for those up to `low`.
abbrev pub NoneAbove : RaftNode → Assoc ℕ → ℕ → ℕ → Type 0
NoneAbove n matched low top =
    (i : ℕ) → low < i → i ≤ top → n.commit < i → qualifies n matched i ≡ false

-- What the scan finds from `top` down.
abbrev pub Found : RaftNode → Assoc ℕ → ℕ → Option ℕ → Type 0
Found n matched top none = NoneAbove n matched 0 top
Found n matched top (some i) =
    (n.commit < i) × (i ≤ top) × (qualifies n matched i ≡ true) × NoneAbove n matched i top

NoneAbove-extend :
    (n : RaftNode) (matched : Assoc ℕ) (low top : ℕ)
    → qualifies n matched (suc top) ≡ false
    → NoneAbove n matched low top
    → NoneAbove n matched low (suc top)
NoneAbove-extend n matched low top q h i a b c = elim (Bool-cases (i == suc top)) [
  | inl same ↦ rw ((==_iff i (suc top)).0 same) q
  | inr other ↦ h i a (ground arith) c
]

Found-extend :
    (n : RaftNode) (matched : Assoc ℕ) (top : ℕ) (o : Option ℕ)
    → qualifies n matched (suc top) ≡ false
    → Found n matched top o
    → Found n matched (suc top) o
Found-extend n matched top none q h = NoneAbove-extend n matched 0 top q h
Found-extend n matched top (some i) q h =
    (h.0, omega arith, h.2, NoneAbove-extend n matched i top q h.3)

commit_scan-Found :
    (n : RaftNode) (matched : Assoc ℕ) (top : ℕ) → Found n matched top (commit_scan n matched top)
unfolding commit_scan
commit_scan-Found n matched zero = λ i a b c. absurd (omega arith)
commit_scan-Found n matched (suc top) = elim (Bool-cases (leb (suc top) n.commit)) [
  | inl low ↦ rw low (λ i a b c. absurd (omega (arith, leb→le (suc top) n.commit low)))
  | inr high ↦ elim (Bool-cases (qualifies n matched (suc top))) [
    | inl q ↦ rw (high, q) (ground arith, omega arith, q, λ i a b c. absurd (omega arith))
    | inr q ↦ rw (high, q) (Found-extend n matched top _ q (commit_scan-Found n matched top))
  ]
]

-- What committing does to a leader: the commit index stays and no later entry of the leader's term
-- is on a majority, or it moves up to the last one that is.
abbrev pub Advanced : RaftNode → Assoc ℕ → RaftNode → Type 0
Advanced n matched m =
    ((m ≡ n) × NoneAbove n matched 0 (last_index n))
    ⊎ ((n.commit < m.commit)
        × (m.commit ≤ last_index n)
        × (qualifies n matched m.commit ≡ true)
        × NoneAbove n matched m.commit (last_index n))

Found-Advanced :
    (n : RaftNode) (matched : Assoc ℕ) (o : Option ℕ)
    → Found n matched (last_index n) o
    → Advanced n matched (elim o [ none ↦ n | some i ↦ record n { commit = i } ])
Found-Advanced n matched none h = inl (refl, h)
Found-Advanced n matched (some i) h = inr h

-- A leader commits exactly the highest index above its commit index whose entry is of its own term
-- and is stored on a majority, itself included; if there is none, nothing changes.
pub advance_commit-Advanced :
    (n : RaftNode) (next_index matched : Assoc ℕ)
    → n.state ≡ leader next_index matched
    → Advanced n matched (advance_commit n)
unfolding advance_commit
advance_commit-Advanced n next_index matched s =
    subst (λ t. Advanced n matched (advance_in t n)) (sym s)
      (Found-Advanced n matched _ (commit_scan-Found n matched (last_index n)))

advance_in-commit :
    (s : RaftState) (n : RaftNode)
    → n.commit ≤ length n.log
    → (n.commit ≤ (advance_in s n).commit) × ((advance_in s n).commit ≤ length n.log)
unfolding last_index
advance_in-commit follower n h = omega arith
advance_in-commit (candidate votes) n h = omega arith
advance_in-commit (leader next_index matched) n h =
    elim (Found-Advanced n matched _ (commit_scan-Found n matched (last_index n))) [
      | inl same ↦ rw same.0 (omega arith)
      | inr moved ↦ (omega arith, moved.1)
    ]

pub advance_commit-commit :
    (n : RaftNode)
    → n.commit ≤ length n.log
    → (n.commit ≤ (advance_commit n).commit) × ((advance_commit n).commit ≤ length n.log)
unfolding advance_commit
advance_commit-commit n h = advance_in-commit n.state n h

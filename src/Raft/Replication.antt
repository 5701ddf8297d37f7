-- ===== src/Raft/Replication.antt =====
-- Log replication of crates/sigil-cluster/src/raft.rs: what a follower's log is after a leader's
-- message, and how a leader finds the place from which a follower's log must be repaired.
use sigil_siem.Prelude.{
  ℕ, zero, suc, ◌-◌, ◌≤◌, ◌<◌, ◌≡◌, refl, sym, ◌∙◌, ap, String, true, false, some, List, [], ◌∷◌,
  ◌++◌, arith, take, drop, get_elem?, max, Assoc, lookup, insert, lookup-insert, take-append-drop,
}
use mathlib.Core.Path.{subst}
use text.Mathlib.TextPositions.{eq_refl}
use sigil_siem.Raft.Types.{LogEntry, Envelope, RaftNode, leader}
use sigil_siem.Raft.Node.{prev_term_at, append_message, append_for}
use sigil_siem.Raft.Step.{on_append_entries, on_append_reply, consistent}

get_elem?-take :
    {A : Type 0} (i p : ℕ) (xs : List A) → i < p → get_elem? (take p xs) i ≡ get_elem? xs i
get_elem?-take i zero xs h = absurd (omega arith)
get_elem?-take i (suc p) [] h = refl
get_elem?-take zero (suc p) (x ∷ xs) h = refl
get_elem?-take (suc i) (suc p) (x ∷ xs) h = get_elem?-take i p xs (omega arith)

-- Logs that agree up to the leader's previous index pass the follower's check.
consistent_of_agree :
    (mine theirs : List LogEntry) (prev_index prev_term : ℕ)
    → take prev_index mine ≡ take prev_index theirs
    → prev_term_at prev_index theirs ≡ some prev_term
    → consistent mine prev_index prev_term ≡ true
unfolding consistent prev_term_at
consistent_of_agree mine theirs zero prev_term h e = refl
consistent_of_agree mine theirs (suc i) prev_term h e = ground (
  arith,
  get_elem?-take i (suc i) mine,
  get_elem?-take i (suc i) theirs,
  ap (λ (l : List LogEntry). get_elem? l i) h,
)

-- What a leader sends to a follower that is not in a later term.
abbrev pub receives : RaftNode → RaftNode → ℕ → ℕ → RaftNode × List Envelope
receives l f prev_index prev_term =
    on_append_entries l.term l.id prev_index prev_term (drop prev_index l.log) l.commit f

accepted_log :
    (l f : RaftNode) (prev_index prev_term : ℕ)
    → f.term ≤ l.term
    → consistent f.log prev_index prev_term ≡ true
    → (receives l f prev_index prev_term).0.log ≡ take prev_index f.log ++ drop prev_index l.log
unfolding on_append_entries
accepted_log l f prev_index prev_term t c = ground arith

-- A follower that is not in a later term than the leader, and whose log agrees with the leader's up
-- to the previous index, has the leader's log after the leader's message.
pub receives-log :
    (l f : RaftNode) (prev_index prev_term : ℕ)
    → f.term ≤ l.term
    → take prev_index f.log ≡ take prev_index l.log
    → prev_term_at prev_index l.log ≡ some prev_term
    → (receives l f prev_index prev_term).0.log ≡ l.log
receives-log l f prev_index prev_term t a e =
    accepted_log l f prev_index prev_term t
      (consistent_of_agree f.log l.log prev_index prev_term a e)
    ∙ (rw a (take-append-drop prev_index l.log))

-- `k` failed replies of one peer.
pub backoff : ℕ → String → RaftNode → RaftNode
backoff zero peer n = n
backoff (suc k) peer n = backoff k peer (on_append_reply n.term peer false 0 n)

-- Failed replies change the peer's next index only: it goes down by one each, to 1 at the least.
abbrev pub BackedOff : RaftNode → RaftNode → String → Assoc ℕ → ℕ → Type 0
BackedOff n m peer matched next =
    (m.term ≡ n.term)
    × (m.id ≡ n.id)
    × (m.log ≡ n.log)
    × (m.commit ≡ n.commit)
    × ((next_index : Assoc ℕ) × (m.state ≡ leader next_index matched)
        × (lookup peer next_index ≡ some next))

failed_reply :
    (peer : String) (n : RaftNode) (next_index matched : Assoc ℕ) (next : ℕ)
    → n.state ≡ leader next_index matched
    → lookup peer next_index ≡ some next
    → on_append_reply n.term peer false 0 n
      ≡ record n { state = leader (insert peer (max (next - 1) 1) next_index) matched }
unfolding on_append_reply
failed_reply peer n next_index matched next s e = ground arith

lookup-insert_self : (k : String) (v : ℕ) (m : Assoc ℕ) → lookup k (insert k v m) ≡ some v
lookup-insert_self k v m = simp (lookup-insert, eq_refl)

pub backoff-BackedOff :
    (k : ℕ) (peer : String) (n : RaftNode) (next_index matched : Assoc ℕ) (next : ℕ)
    → n.state ≡ leader next_index matched
    → lookup peer next_index ≡ some next
    → 1 ≤ next
    → BackedOff n (backoff k peer n) peer matched (max (next - k) 1)
unfolding backoff
backoff-BackedOff zero peer n next_index matched next s e pos =
    (refl, refl, refl, refl, (next_index, s, e ∙ ap some (omega arith)))
backoff-BackedOff (suc k) peer n next_index matched next s e pos =
    let back = max (next - 1) 1 in
    let next_index' = insert peer back next_index in
    let n' = record n { state = leader next_index' matched } in
    let (t, i, l, c, found) =
      backoff-BackedOff k peer n' next_index' matched back refl
        (lookup-insert_self peer back next_index) (omega arith) in
    subst (λ m. BackedOff n (backoff k peer m) peer matched (max (next - suc k) 1))
      (sym (failed_reply peer n next_index matched next s e))
      (t, i, l, c, (found.0, found.1, found.2 ∙ ap some (omega arith)))

append_for-first :
    (n : RaftNode) (peer : String) (next_index : Assoc ℕ)
    → lookup peer next_index ≡ some 1
    → append_for n next_index peer ≡ some (append_message n peer 0 0)
unfolding append_for prev_term_at
append_for-first n peer next_index e = ground arith

-- However far a follower's log has gone astray: after as many failed replies as the leader's next
-- index for it, the leader sends its whole log from the first entry, and a follower that is not in
-- a later term has the leader's log after that message.
pub repair :
    (l f : RaftNode) (peer : String) (next_index matched : Assoc ℕ) (next : ℕ)
    → l.state ≡ leader next_index matched
    → lookup peer next_index ≡ some next
    → 1 ≤ next
    → f.term ≤ l.term
    → let l' = backoff next peer l in
      ((next_index' : Assoc ℕ) × (l'.state ≡ leader next_index' matched)
        × (append_for l' next_index' peer ≡ some (append_message l' peer 0 0)))
      × ((receives l' f 0 0).0.log ≡ l.log)
unfolding prev_term_at
repair l f peer next_index matched next s e pos t =
    let (term, id, log, commit, found) =
      backoff-BackedOff next peer l next_index matched next s e pos in
    (
      (
        found.0,
        found.1,
        append_for-first (backoff next peer l) peer found.0 (found.2 ∙ ap some (omega arith)),
      ),
      receives-log (backoff next peer l) f 0 0 (omega arith) refl refl ∙ log,
    )

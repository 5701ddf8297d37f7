-- ===== src/Raft/Bounds.antt =====
-- Where the indices of a leader of crates/sigil-cluster/src/raft.rs point, and its broadcasts.
use sigil_siem.Prelude.{
  get_elem?-total, ℕ, zero, suc, ◌+◌, ◌-◌, ◌≤◌, ◌<◌, ◌^◌, ◌≡◌, refl, String, some, List, [], ◌∷◌,
  arith, Assoc, All, length, lookup, insert, unwrap_or,
}
use sigil_siem.Raft.Types.{
  u64, LogEntry, Envelope, RaftState, RaftNode, follower, candidate, leader,
}
use sigil_siem.Raft.Node.{
  become_leader, broadcast_in, broadcast_appends, append_for, append_message, appends,
  collect_peers, elected, prev_term_at,
}

-- Every value of the map lies between 1 and `top`.
abbrev pub InBounds : ℕ → Assoc ℕ → Type 0
InBounds top = All (λ e. (1 ≤ e.1) × (e.1 ≤ top))

-- A leader's `next_index` points into its log or just behind it.
abbrev pub NextInBounds : RaftState → ℕ → Type 0
NextInBounds (leader next_index matched) size = InBounds (size + 1) next_index
NextInBounds _ size = Unit

abbrev pub IsReady : RaftNode → Type 0
IsReady n = NextInBounds n.state (length n.log)

pub unwrap_or-lookup-InBounds :
    (top : ℕ) (k : String) (m : Assoc ℕ)
    → 1 ≤ top
    → InBounds top m
    → (1 ≤ unwrap_or (lookup k m) 1) × (unwrap_or (lookup k m) 1 ≤ top)
unfolding lookup
unwrap_or-lookup-InBounds top k [] pos h = omega arith
unwrap_or-lookup-InBounds top k ((j, v) ∷ m) pos h =
    ground (arith, unwrap_or-lookup-InBounds top k m pos)

pub insert-InBounds :
    (top : ℕ) (k : String) (v : ℕ) (m : Assoc ℕ)
    → 1 ≤ v
    → v ≤ top
    → InBounds top m
    → InBounds top (insert k v m)
unfolding insert
insert-InBounds top k v [] low high h = ground arith
insert-InBounds top k v ((j, w) ∷ m) low high h = ground (arith, insert-InBounds top k v m)

collect_peers-InBounds :
    (top v : ℕ) (peers : List String) (m : Assoc ℕ)
    → 1 ≤ v
    → v ≤ top
    → InBounds top m
    → InBounds top (collect_peers v peers m)
unfolding collect_peers
collect_peers-InBounds top v [] m low high h = h
collect_peers-InBounds top v (p ∷ ps) m low high h =
    collect_peers-InBounds top v ps (insert p v m) low high (insert-InBounds top p v m low high h)

pub prev_term_at-total :
    (i : ℕ) (log : List LogEntry) → i ≤ length log → (t : ℕ) × (prev_term_at i log ≡ some t)
unfolding prev_term_at
prev_term_at-total zero log h = (0, refl)
prev_term_at-total (suc i) log h = let (e, p) = get_elem?-total log i h in (e.term, ground arith)

append_for-total :
    (n : RaftNode) (next_index : Assoc ℕ) (peer : String)
    → InBounds (length n.log + 1) next_index
    → (env : Envelope) × (append_for n next_index peer ≡ some env)
unfolding append_for
append_for-total n next_index peer h =
    let next = unwrap_or (lookup peer next_index) 1 in
    let bounds = unwrap_or-lookup-InBounds (length n.log + 1) peer next_index (omega arith) h in
    let (t, p) = prev_term_at-total (next - 1) n.log (omega arith) in
    (append_message n peer (next - 1) t, ground arith)

appends-total :
    (n : RaftNode) (next_index : Assoc ℕ) (peers : List String)
    → InBounds (length n.log + 1) next_index
    → (out : List Envelope) × (appends n next_index peers ≡ some out)
unfolding appends
appends-total n next_index [] h = ([], refl)
appends-total n next_index (p ∷ ps) h =
    let (env, a) = append_for-total n next_index p h in
    let (rest, b) = appends-total n next_index ps h in (env ∷ rest, ground arith)

broadcast_in-total :
    (s : RaftState) (n : RaftNode)
    → NextInBounds s (length n.log)
    → (out : List Envelope) × (broadcast_in s n ≡ some out)
broadcast_in-total (leader next_index matched) n h = appends-total n next_index n.peers h
broadcast_in-total follower n h = ([], refl)
broadcast_in-total (candidate votes) n h = ([], refl)

-- A ready node broadcasts without a panic.
pub broadcast_appends-total :
    (n : RaftNode) → IsReady n → (out : List Envelope) × (broadcast_appends n ≡ some out)
unfolding broadcast_appends
broadcast_appends-total n h = broadcast_in-total n.state n h

-- The log is short of 2 ^ 64 entries.
abbrev pub Fits : RaftNode → Type 0
Fits n = length n.log + 1 < 2 ^ 64

pub elected-IsReady : (n : RaftNode) → Fits n → IsReady (elected n)
unfolding elected
elected-IsReady n f =
    let top = length n.log + 1 in
    collect_peers-InBounds top (u64 top) n.peers [] (omega arith) (omega arith) tt

pub become_leader-total :
    (n : RaftNode) → Fits n → (out : List Envelope) × (become_leader n ≡ some (elected n, out))
unfolding become_leader
become_leader-total n f =
    let (out, p) = broadcast_appends-total (elected n) (elected-IsReady n f) in (out, ground arith)

pub InBounds-grow : (m : Assoc ℕ) (top : ℕ) → InBounds (top + 1) m → InBounds (top + 1 + 1) m
InBounds-grow [] top h = tt
InBounds-grow (e ∷ m) top h = ((h.0.0, omega arith), InBounds-grow m top h.1)

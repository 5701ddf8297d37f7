-- ===== src/Raft/Node.antt =====
-- `RaftNode` of crates/sigil-cluster/src/raft.rs: construction, accessors, ticks and proposals.
-- A method that changes the node returns the new one. A slice or an index out of range panics in
-- the source: the result is then `none`.

use sigil_siem.Prelude.{
  ℕ, zero, suc, ◌+◌, ◌-◌, ◌/◌, String, Bool, true, false, ◌&&◌, Option, none, some, List, [], ◌∷◌,
  ◌++◌, length, get_elem?, take, drop, last?, filter, Assoc, lookup, insert, values, leb, ◌==◌,
  if◌then◌else◌, ◌>>=◌, unwrap_or,
}
use sigil_siem.Raft.Types.{
  LogEntry, request_vote, append_entries, Envelope, RaftState, follower, candidate, leader,
  RaftNode, u64, u32,
}

-- A node after a call, with the envelopes to deliver; `none` after a panic.
abbrev pub Outcome : Type 0
Outcome = Option (RaftNode × List Envelope)

-- `matches!(self.state, RaftState::Leader { .. })`
abbrev pub state_is_leader : RaftState → Bool
state_is_leader (leader next matched) = true
state_is_leader _ = false

abbrev pub state_is_follower : RaftState → Bool
state_is_follower follower = true
state_is_follower _ = false

unfoldable pub is_leader : RaftNode → Bool
is_leader n = state_is_leader n.state

unfoldable pub current_leader : RaftNode → Option String
unfolding is_leader
current_leader n = if is_leader n then some n.id else n.leader_hint

unfoldable pub last_index : RaftNode → ℕ
last_index n = length n.log

unfoldable pub last_term : RaftNode → ℕ
last_term n = elim (last? n.log) [ none ↦ 0 | some e ↦ e.term ]

-- `&self.log[..self.commit as usize]`
unfoldable pub committed : RaftNode → Option (List LogEntry)
committed n = if leb n.commit (length n.log) then some (take n.commit n.log) else none

-- `self.peers.len().div_ceil(2) + 1`
unfoldable pub majority : RaftNode → ℕ
majority n = (length n.peers + 1) / 2 + 1

unfoldable pub become_follower : ℕ → RaftNode → RaftNode
become_follower term n = record n {
  term = term;
  state = follower;
  voted_for = none;
  quiet_ticks = 0;
}

-- `self.log[prev_index as usize - 1].term`, and 0 where `prev_index == 0`.
unfoldable pub prev_term_at : ℕ → List LogEntry → Option ℕ
prev_term_at zero log = some 0
prev_term_at (suc i) log = elim (get_elem? log i) [ none ↦ none | some e ↦ some e.term ]

-- The AppendEntries that carries the log from behind `prev_index` on.
unfoldable pub append_message : RaftNode → String → ℕ → ℕ → Envelope
append_message n peer prev_index prev_term = record {
  to = some peer;
  msg = append_entries n.term n.id prev_index prev_term (drop prev_index n.log) n.commit;
}

-- The loop's body for one peer. `next - 1` panics or is out of range at `next == 0`.
unfoldable pub append_for : RaftNode → Assoc ℕ → String → Option Envelope
append_for n next_index peer =
    let next = unwrap_or (lookup peer next_index) 1 in
    if next == 0
    then none
    else if leb (next - 1) (length n.log)
    then (do
      prev_term ← prev_term_at (next - 1) n.log
      some (append_message n peer (next - 1) prev_term))
    else none

-- The loop of `broadcast_appends` over the peers.
unfoldable pub appends : RaftNode → Assoc ℕ → List String → Option (List Envelope)
appends n next_index [] = some []
appends n next_index (peer ∷ peers) = do
  env ← append_for n next_index peer
  rest ← appends n next_index peers
  some (env ∷ rest)

abbrev pub broadcast_in : RaftState → RaftNode → Option (List Envelope)
broadcast_in (leader next_index matched) n = appends n next_index n.peers
broadcast_in _ n = some []

unfoldable pub broadcast_appends : RaftNode → Option (List Envelope)
broadcast_appends n = broadcast_in n.state n

-- `self.peers.iter().map(|p| (p.clone(), v)).collect()`
unfoldable pub collect_peers : ℕ → List String → Assoc ℕ → Assoc ℕ
collect_peers v [] m = m
collect_peers v (p ∷ ps) m = collect_peers v ps (insert p v m)

unfoldable pub elected : RaftNode → RaftNode
unfolding collect_peers last_index
elected n = record n {
  state = leader (collect_peers (u64 (last_index n + 1)) n.peers []) (collect_peers 0 n.peers []);
  leader_hint = none;
  quiet_ticks = 0;
}

unfoldable pub become_leader : RaftNode → Outcome
become_leader n = do out ← broadcast_appends (elected n); some (elected n, out)

-- The node votes for itself in the next term.
unfoldable pub stand : RaftNode → RaftNode
stand n = record n {
  term = u64 (n.term + 1);
  voted_for = some n.id;
  state = candidate 1;
  quiet_ticks = 0;
}

-- With no peers the node is elected at once; otherwise it asks them all.
abbrev pub campaign : List String → RaftNode → Outcome
campaign [] n = become_leader n
campaign (_ ∷ _) n =
    some (n, record { to = none; msg = request_vote n.term n.id (last_index n) (last_term n) } ∷ [])

unfoldable pub start_election : RaftNode → Outcome
unfolding stand
start_election n = let stood = stand n in campaign stood.peers stood

unfoldable pub tick : RaftNode → Outcome
tick n =
    let waited = record n { quiet_ticks = u32 (n.quiet_ticks + 1) } in
    if state_is_leader n.state
    then (if leb n.heartbeat_every waited.quiet_ticks
        then (let rested = record waited { quiet_ticks = 0 } in
            do out ← broadcast_appends rested; some (rested, out))
        else some (waited, []))
    else if leb n.election_after waited.quiet_ticks
    then start_election waited
    else some (waited, [])

-- `match_index.values().filter(|&&m| m >= n).count()`, and the leader itself.
unfoldable pub replicas : Assoc ℕ → ℕ → ℕ
replicas matched i = 1 + length (filter (λ m. leb i m) (values matched))

-- The entry at index `i`, counted from 1, has the term `t`.
unfoldable pub term_is : List LogEntry → ℕ → ℕ → Bool
term_is log zero t = false
term_is log (suc i) t = elim (get_elem? log i) [ none ↦ false | some e ↦ e.term == t ]

-- The loop of `advance_commit`, from index `i` down to `commit + 1`: the index to commit, if any.
unfoldable pub commit_scan : RaftNode → Assoc ℕ → ℕ → Option ℕ
unfolding replicas term_is majority
commit_scan n matched zero = none
commit_scan n matched (suc i) =
    let lower = commit_scan n matched i in
    if leb (suc i) n.commit
    then none
    else if term_is n.log (suc i) n.term && leb (majority n) (replicas matched (suc i))
    then some (suc i)
    else lower

abbrev pub advance_in : RaftState → RaftNode → RaftNode
advance_in (leader next_index matched) n = elim (commit_scan n matched (last_index n)) [
  | none ↦ n
  | some i ↦ record n { commit = i }
]
advance_in _ n = n

unfoldable pub advance_commit : RaftNode → RaftNode
advance_commit n = advance_in n.state n

-- `Err` of `propose` carries a text for the caller; `refused` names the leader that it hints at.
pub data Proposal : Type 0 where
  refused : Option String → Proposal
  accepted : RaftNode → List Envelope → Proposal

unfoldable pub propose : List ℕ → RaftNode → Option Proposal
propose payload n =
    if is_leader n
    then (let grown =
          advance_commit
            (record n { log = n.log ++ record { term = n.term; payload = payload } ∷ [] }) in
        do out ← broadcast_appends grown; some (accepted grown out))
    else some (refused (current_leader n))

-- ===== src/Raft/Step.antt =====
-- `RaftNode::step` of crates/sigil-cluster/src/raft.rs, one function for each message.
use sigil_siem.Prelude.{
  ℕ, zero, suc, ◌+◌, ◌-◌, String, Bool, true, false, not, ◌&&◌, ◌||◌, Option, none, some, List, [],
  ◌∷◌, ◌++◌, length, get_elem?, take, lookup, insert, leb, ltb, ◌==◌, str_eq, min, max,
  if◌then◌else◌, unwrap_or,
}
use sigil_siem.Raft.Types.{
  LogEntry, RaftMsg, request_vote, vote_reply, append_entries, append_reply, Envelope, RaftState,
  candidate, leader, RaftNode, u64,
}
use sigil_siem.Raft.Node.{
  Outcome, state_is_follower, last_index, last_term, majority, become_follower, become_leader,
  advance_commit,
}

-- `if term > self.term { self.become_follower(term) }`
unfoldable pub catch_up : ℕ → RaftNode → RaftNode
catch_up term n = if ltb n.term term then become_follower term n else n

-- The candidate's log is at least as up to date as the node's own.
unfoldable pub up_to_date : RaftNode → ℕ → ℕ → Bool
up_to_date n index term =
    ltb (last_term n) term || (term == last_term n && leb (last_index n) index)

unfoldable pub vote_available : Option String → String → Bool
vote_available none c = true
vote_available (some v) c = str_eq v c

-- The guard of a vote, on the node that has caught up with the term.
unfoldable pub grants : RaftNode → ℕ → String → ℕ → ℕ → Bool
unfolding up_to_date
grants n term c index last =
    term == n.term && up_to_date n index last && vote_available n.voted_for c

unfoldable pub on_request_vote : ℕ → String → ℕ → ℕ → RaftNode → RaftNode × List Envelope
unfolding catch_up become_follower
on_request_vote term c index last n =
    let m = catch_up term n in
    let granted = grants m term c index last in
    (
      if granted then record m { voted_for = some c; quiet_ticks = 0 } else m,
      record { to = some c; msg = vote_reply m.term m.id granted } ∷ [],
    )

-- A counted vote, and the election that it may decide.
abbrev pub count_vote : RaftState → RaftNode → Outcome
count_vote (candidate votes) n =
    let counted = record n { state = candidate (votes + 1) } in
    if leb (majority n) (votes + 1) then become_leader counted else some (counted, [])
count_vote _ n = some (n, [])

unfoldable pub on_vote_reply : ℕ → Bool → RaftNode → Outcome
on_vote_reply term granted n =
    if ltb n.term term
    then some (become_follower term n, [])
    else if term == n.term && granted
    then count_vote n.state n
    else some (n, [])

-- The reply of the follower to the leader.
abbrev pub append_result : RaftNode → String → Bool → ℕ → List Envelope
append_result n to success i =
    record { to = some to; msg = append_reply n.term n.id success i } ∷ []

-- The entry before the new ones is the leader's, or there is none.
unfoldable pub consistent : List LogEntry → ℕ → ℕ → Bool
consistent log zero prev_term = true
consistent log (suc i) prev_term = elim (get_elem? log i) [
  | none ↦ false
  | some e ↦ e.term == prev_term
]

-- The conflicting suffix is cut and the new entries are appended; the commit index follows.
unfoldable pub write_entries : RaftNode → ℕ → List LogEntry → ℕ → RaftNode
write_entries n prev_index entries leader_commit =
    let log = take prev_index n.log ++ entries in
    record n {
      log = log;
      commit = if ltb n.commit leader_commit then min leader_commit (length log) else n.commit;
    }

-- The node yields to a leader of a later term, and of its own term unless it follows already.
unfoldable pub yields : RaftNode → ℕ → Bool
yields n term = ltb n.term term || (term == n.term && not (state_is_follower n.state))

-- The messages of a leader that is not stale.
unfoldable pub accept_entries :
    String → ℕ → ℕ → List LogEntry → ℕ → RaftNode → RaftNode × List Envelope
unfolding write_entries consistent last_index
accept_entries from prev_index prev_term entries leader_commit n =
    let heard = record n { quiet_ticks = 0; leader_hint = some from } in
    let written = write_entries heard prev_index entries leader_commit in
    if consistent n.log prev_index prev_term
    then (written, append_result written from true (last_index written))
    else (heard, append_result heard from false 0)

unfoldable pub on_append_entries :
    ℕ → String → ℕ → ℕ → List LogEntry → ℕ → RaftNode → RaftNode × List Envelope
unfolding accept_entries yields become_follower
on_append_entries term from prev_index prev_term entries leader_commit n =
    let m = if yields n term then become_follower term n else n in
    if ltb term m.term
    then (m, append_result m from false 0)
    else accept_entries from prev_index prev_term entries leader_commit m

-- The bookkeeping of a leader for one peer.
abbrev pub note_reply : RaftState → String → Bool → ℕ → RaftNode → RaftNode
note_reply (leader next_index matched) from true i n =
    advance_commit
      (record n { state = leader (insert from (u64 (i + 1)) next_index) (insert from i matched) })
note_reply (leader next_index matched) from false i n =
    let back = max (unwrap_or (lookup from next_index) 1 - 1) 1 in
    record n { state = leader (insert from back next_index) matched }
note_reply _ from success i n = n

unfoldable pub on_append_reply : ℕ → String → Bool → ℕ → RaftNode → RaftNode
on_append_reply term from success i n =
    if ltb n.term term then become_follower term n else note_reply n.state from success i n

unfoldable pub step : RaftMsg → RaftNode → Outcome
step (request_vote term c index last) n = some (on_request_vote term c index last n)
step (vote_reply term from granted) n = on_vote_reply term granted n
step (append_entries term from prev_index prev_term entries leader_commit) n =
    some (on_append_entries term from prev_index prev_term entries leader_commit n)
step (append_reply term from success i) n = some (on_append_reply term from success i n, [])

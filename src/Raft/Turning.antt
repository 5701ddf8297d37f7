-- ===== src/Raft/Turning.antt =====
-- Every call of a node of crates/sigil-cluster/src/raft.rs is a turn.
mod Rests
mod Votes
mod Appends
mod Ticks
use mathlib.Core.Path.{subst}
use sigil_siem.Prelude.{
  ℕ, ◌+◌, ◌^◌, ◌≤◌, ◌<◌, ◌≡◌, refl, ap, sym, ◌∙◌, eq_iff, ◌⊎◌, inl, inr, String, Bool, true, false,
  Option, none, some, List, [], ◌∷◌, arith, ltb, leb, ◌==◌, Bool-cases,
}
use sigil_siem.Raft.Types.{
  LogEntry, request_vote, vote_reply, append_entries, append_reply, Envelope, RaftState, RaftNode,
  follower, candidate, leader, u32,
}
use sigil_siem.Raft.Node.{
  state_is_leader, state_is_follower, majority, tick, propose, accepted, is_leader, become_follower,
  elected, stand, campaign, start_election, advance_commit,
}
use sigil_siem.Raft.Step.{
  accept_entries, write_entries, yields, step, on_request_vote, on_vote_reply, on_append_entries,
  on_append_reply, note_reply, count_vote, grants, vote_available,
}
use sigil_siem.Raft.Frame.{become_leader-elected}
use sigil_siem.Raft.Turns.{
  Cause, ticks, proposes, receives, Calls, support, GrantsVote, keeps, starts, counts, Turn,
  VotesForSelf,
}
use Votes.{request_vote-Turn, vote_reply-Turn}
use Appends.{append_entries-Turn, append_reply-Turn}
use Ticks.{tick-Turn, propose-Turn}

turned :
    (cause : Cause) (n m : RaftNode) (out : List Envelope) (r : RaftNode × List Envelope)
    → some r ≡ some (m, out)
    → Turn cause n r.0
    → Turn cause n m
turned cause n m out r h t = let same : r.0 ≡ m = ground arith in subst (Turn cause n) same t

-- Every call of a node is a turn.
pub Calls-Turn :
    (cause : Cause) (n m : RaftNode) (out : List Envelope) → Calls cause n m out → Turn cause n m
unfolding step
Calls-Turn ticks n m out h = tick-Turn n m out h.0 h.1
Calls-Turn (proposes payload) n m out h = propose-Turn payload n m out h
Calls-Turn (receives (request_vote term c index last)) n m out h =
    turned (receives (request_vote term c index last)) n m out (on_request_vote term c index last n)
      h (request_vote-Turn (receives (request_vote term c index last)) term c index last n)
Calls-Turn (receives (vote_reply term from granted)) n m out h =
    vote_reply-Turn term from granted n m out h
Calls-Turn (receives (append_entries term from prev_index prev_term entries commit)) n m out h =
    turned (receives (append_entries term from prev_index prev_term entries commit)) n m out
      (on_append_entries term from prev_index prev_term entries commit n) h
      (append_entries-Turn term from prev_index prev_term entries commit n)
Calls-Turn (receives (append_reply term from success i)) n m out h =
    turned (receives (append_reply term from success i)) n m out
      (on_append_reply term from success i n, []) h (append_reply-Turn term from success i n)

-- ===== src/Raft/Turning/Appends.antt =====
-- Messages of leaders and their replies in crates/sigil-cluster/src/raft.rs are turns.

use sigil_siem.Prelude.{
  ℕ, ◌≡◌, refl, inl, inr, String, Bool, true, false, List, arith, ltb, Bool-cases,
}
use sigil_siem.Raft.Types.{
  LogEntry, append_entries, append_reply, RaftState, RaftNode, follower, candidate, leader,
}
use sigil_siem.Raft.Node.{majority, become_follower, advance_commit}
use sigil_siem.Raft.Step.{
  accept_entries, write_entries, yields, on_append_entries, on_append_reply, note_reply,
}
use sigil_siem.Raft.Turns.{receives, starts, Turn}
use sigil_siem.Raft.Turning.Rests.{Rests, Rests-Turn, follower-VotesForSelf, yields-Turn}

pub note_reply-Rests :
    (s : RaftState) (from : String) (success : Bool) (i : ℕ) (n : RaftNode)
    → s ≡ n.state
    → Rests n (note_reply s from success i n)
unfolding majority advance_commit
note_reply-Rests (leader next_index matched) from true i n e = ground arith
note_reply-Rests (leader next_index matched) from false i n e = ground arith
note_reply-Rests follower from success i n e = ground arith
note_reply-Rests (candidate _) from success i n e = ground arith

pub append_reply-Turn :
    (term : ℕ) (from : String) (success : Bool) (i : ℕ) (n : RaftNode)
    → Turn (receives (append_reply term from success i)) n (on_append_reply term from success i n)
unfolding on_append_reply become_follower
append_reply-Turn term from success i n = elim (Bool-cases (ltb n.term term)) [
  | inl later ↦ rw later (
      yields-Turn (receives (append_reply term from success i)) n (become_follower term n) refl refl
        (ground arith) refl)
  | inr same ↦ rw same (
      Rests-Turn (receives (append_reply term from success i)) n
        (note_reply n.state from success i n) (note_reply-Rests n.state from success i n refl))
]

-- What a node does with a message of a leader, apart from its log.
pub accept-Rests :
    (from : String) (prev_index prev_term : ℕ) (entries : List LogEntry) (commit : ℕ) (n : RaftNode)
    → Rests n (accept_entries from prev_index prev_term entries commit n).0
unfolding accept_entries write_entries majority
accept-Rests from prev_index prev_term entries commit n = ground arith

-- Hearing a leader of its own term, a node follows and forgets its vote unless it follows already.
pub append_entries-Turn :
    (term : ℕ) (from : String) (prev_index prev_term : ℕ) (entries : List LogEntry) (commit : ℕ)
    (n : RaftNode)
    → Turn
        (receives (append_entries term from prev_index prev_term entries commit))
        n
        (on_append_entries term from prev_index prev_term entries commit n).0
unfolding on_append_entries yields become_follower majority
append_entries-Turn term from prev_index prev_term entries commit n =
    let cause = receives (append_entries term from prev_index prev_term entries commit) in
    let m = (on_append_entries term from prev_index prev_term entries commit n).0 in
    let rest = accept-Rests from prev_index prev_term entries commit n in
    let yielded = accept-Rests from prev_index prev_term entries commit (become_follower term n) in
    elim (Bool-cases (ltb n.term term)) [
      | inl later ↦
          yields-Turn cause n m (ground arith) (ground arith) (ground arith) (ground arith)
      | inr same ↦ elim (Bool-cases (yields n term)) [
        | inl steps ↦ record {
          id = ground arith;
          peers = ground arith;
          term = ground arith;
          claim = starts (ground arith);
          own_vote = λ _. follower-VotesForSelf m.state m (ground arith);
          leads = λ _ _. inr (ground arith);
          vote = λ c v f e. absurd (ground arith);
        }
        | inr stays ↦ Rests-Turn cause n m (ground arith)
      ]
    ]

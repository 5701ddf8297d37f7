-- ===== src/Raft/Frame.antt =====
-- What the calls of crates/sigil-cluster/src/raft.rs leave alone.
use sigil_siem.Prelude.{
  ℕ, ◌+◌, ◌≤◌, ◌<◌, max, ◌≡◌, ◌⊎◌, String, Bool, true, false, none, some, List, [], ◌∷◌, arith,
}
use sigil_siem.Raft.Types.{
  u32, u64, LogEntry, RaftMsg, request_vote, vote_reply, append_entries, append_reply, Envelope,
  RaftState, RaftNode, follower, candidate, leader,
}
use sigil_siem.Raft.Node.{
  become_follower, become_leader, elected, tick, stand, campaign, start_election, advance_commit,
}
use sigil_siem.Raft.Step.{
  on_append_reply, on_vote_reply, on_request_vote, on_append_entries, step, note_reply, count_vote,
}

-- An election that does not panic makes the node the leader, and nothing else.
pub become_leader-elected :
    (n m : RaftNode) (out : List Envelope) → become_leader n ≡ some (m, out) → m ≡ elected n
unfolding become_leader
become_leader-elected n m out h = ground arith

-- The fields that only an election or a vote writes.
pub record SameVote (n m : RaftNode) : Type 0 where
  pub term : m.term ≡ n.term
  pub voted_for : m.voted_for ≡ n.voted_for

pub advance_commit-SameVote : (n : RaftNode) → SameVote n (advance_commit n)
unfolding advance_commit
advance_commit-SameVote n = ground arith

-- Committing writes the commit index only.
pub record SameLog (n m : RaftNode) : Type 0 where
  pub state : m.state ≡ n.state
  pub log : m.log ≡ n.log
  pub peers : m.peers ≡ n.peers

pub advance_commit-SameLog : (n : RaftNode) → SameLog n (advance_commit n)
unfolding advance_commit
advance_commit-SameLog n = ground arith

pub note_reply-SameVote :
    (s : RaftState) (from : String) (success : Bool) (i : ℕ) (n : RaftNode)
    → SameVote n (note_reply s from success i n)
unfolding advance_commit
note_reply-SameVote (leader next_index matched) from true i n = ground arith
note_reply-SameVote (leader next_index matched) from false i n = ground arith
note_reply-SameVote _ from success i n = ground arith

pub elected-SameVote : (n : RaftNode) → SameVote n (elected n)
unfolding elected
elected-SameVote n = ground arith

pub count_vote-SameVote :
    (s : RaftState) (n m : RaftNode) (out : List Envelope)
    → count_vote s n ≡ some (m, out)
    → SameVote n m
count_vote-SameVote (candidate votes) n m out h = ground (
  arith,
  become_leader-elected (record n { state = candidate (votes + 1) }) m out,
  elected-SameVote (record n { state = candidate (votes + 1) }),
)
count_vote-SameVote follower n m out h = ground arith
count_vote-SameVote (leader next_index matched) n m out h = ground arith

-- Every message either leaves the vote and the term, or starts a later term, but for the vote that
-- a request is given and for the messages of a leader.
pub on_vote_reply-vote :
    (term : ℕ) (granted : Bool) (n m : RaftNode) (out : List Envelope)
    → on_vote_reply term granted n ≡ some (m, out)
    → SameVote n m ⊎ ((n.term < m.term) × (m.term ≡ term) × (m.voted_for ≡ none))
unfolding on_vote_reply become_follower
on_vote_reply-vote term granted n m out h = ground (arith, count_vote-SameVote n.state n m out)

pub on_append_reply-vote :
    (term : ℕ) (from : String) (success : Bool) (i : ℕ) (n : RaftNode)
    → let m = on_append_reply term from success i n in
      SameVote n m ⊎ ((n.term < m.term) × (m.term ≡ term) × (m.voted_for ≡ none))
unfolding on_append_reply become_follower
on_append_reply-vote term from success i n =
    ground (arith, note_reply-SameVote n.state from success i n)

pub on_request_vote-term :
    (term : ℕ) (c : String) (index last : ℕ) (n : RaftNode)
    → let m = (on_request_vote term c index last n).0 in
      (n.term ≤ m.term) × (m.term ≡ max n.term term)
unfolding on_request_vote
on_request_vote-term term c index last n = ground arith

pub on_append_entries-term :
    (term : ℕ) (from : String) (prev_index prev_term : ℕ) (entries : List LogEntry) (commit : ℕ)
    (n : RaftNode)
    → let m = (on_append_entries term from prev_index prev_term entries commit n).0 in
      m.term ≡ max n.term term
unfolding on_append_entries
on_append_entries-term term from prev_index prev_term entries commit n = ground arith

-- The term of a node never falls on a message, whatever the message says.
pub step-term_mono :
    (msg : RaftMsg) (n m : RaftNode) (out : List Envelope)
    → step msg n ≡ some (m, out)
    → n.term ≤ m.term
unfolding step
step-term_mono (request_vote term c index last) n m out h =
    ground (arith, on_request_vote-term term c index last n)
step-term_mono (vote_reply term from granted) n m out h =
    ground (arith, on_vote_reply-vote term granted n m out)
step-term_mono (append_entries term from prev_index prev_term entries commit) n m out h =
    ground (arith, on_append_entries-term term from prev_index prev_term entries commit n)
step-term_mono (append_reply term from success i) n m out h =
    ground (arith, on_append_reply-vote term from success i n)

pub campaign-SameVote :
    (peers : List String) (n m : RaftNode) (out : List Envelope)
    → campaign peers n ≡ some (m, out)
    → SameVote n m
campaign-SameVote [] n m out h = ground (arith, become_leader-elected n m out, elected-SameVote n)
campaign-SameVote (p ∷ ps) n m out h = ground arith

pub start_election-vote :
    (n m : RaftNode) (out : List Envelope)
    → start_election n ≡ some (m, out)
    → (m.term ≡ u64 (n.term + 1)) × (m.voted_for ≡ some n.id)
unfolding start_election
start_election-vote n m out h = ground (arith, campaign-SameVote n.peers (stand n) m out h)

-- A tick leaves the vote and the term, or the node votes for itself in the next term.
pub tick-vote :
    (n m : RaftNode) (out : List Envelope)
    → tick n ≡ some (m, out)
    → SameVote n m ⊎ ((m.term ≡ u64 (n.term + 1)) × (m.voted_for ≡ some n.id))
unfolding tick
tick-vote n m out h =
    ground (arith, start_election-vote (record n { quiet_ticks = u32 (n.quiet_ticks + 1) }) m out)

-- ===== src/Raft/Committed.antt =====
-- The commit index of crates/sigil-cluster/src/raft.rs lies in the log, so that the committed
-- entries can be read, except after a stale AppendEntries.
use sigil_siem.Prelude.{
  ℕ, zero, suc, ◌+◌, ◌≤◌, ◌<◌, ◌≡◌, String, Bool, true, false, none, some, List, [], ◌∷◌, ◌++◌,
  arith, length, take, insert, length-append, length-take,
}
use sigil_siem.Raft.Types.{
  u64, LogEntry, RaftMsg, request_vote, vote_reply, append_entries, append_reply, Envelope,
  RaftState, RaftNode, follower, candidate, leader,
}
use sigil_siem.Raft.Node.{advance_commit, committed, become_follower, elected}
use sigil_siem.Raft.Frame.{become_leader-elected, advance_commit-SameLog}
use sigil_siem.Raft.Commit.{advance_commit-commit}
use sigil_siem.Raft.Step.{
  step, on_append_entries, on_request_vote, on_vote_reply, on_append_reply, note_reply, count_vote,
  consistent,
}

-- The commit index lies in the log, and has not fallen.
pub record Keeps (n m : RaftNode) : Type 0 where
  pub grows : n.commit ≤ m.commit
  pub within : m.commit ≤ length m.log

advance_commit-Keeps : (n : RaftNode) → n.commit ≤ length n.log → Keeps n (advance_commit n)
advance_commit-Keeps n h =
    let bounds = advance_commit-commit n h in
    record { grows = bounds.0; within = rw (advance_commit-SameLog n).log bounds.1 }

note_reply-Keeps :
    (s : RaftState) (from : String) (success : Bool) (i : ℕ) (n : RaftNode)
    → n.commit ≤ length n.log
    → Keeps n (note_reply s from success i n)
note_reply-Keeps (leader next_index matched) from true i n h =
    let noted = record n {
      state = leader (insert from (u64 (i + 1)) next_index) (insert from i matched);
    } in
    let k = advance_commit-Keeps noted h in record { grows = k.grows; within = k.within }
note_reply-Keeps (leader next_index matched) from false i n h = ground arith
note_reply-Keeps follower from success i n h = ground arith
note_reply-Keeps (candidate votes) from success i n h = ground arith

on_append_reply-Keeps :
    (term : ℕ) (from : String) (success : Bool) (i : ℕ) (n : RaftNode)
    → n.commit ≤ length n.log
    → Keeps n (on_append_reply term from success i n)
unfolding on_append_reply become_follower
on_append_reply-Keeps term from success i n h =
    ground (arith, note_reply-Keeps n.state from success i n)

count_vote-Keeps :
    (s : RaftState) (n m : RaftNode) (out : List Envelope)
    → n.commit ≤ length n.log
    → count_vote s n ≡ some (m, out)
    → Keeps n m
unfolding elected
count_vote-Keeps (candidate votes) n m out h e =
    ground (arith, become_leader-elected (record n { state = candidate (votes + 1) }) m out)
count_vote-Keeps follower n m out h e = ground arith
count_vote-Keeps (leader next_index matched) n m out h e = ground arith

on_vote_reply-Keeps :
    (term : ℕ) (granted : Bool) (n m : RaftNode) (out : List Envelope)
    → n.commit ≤ length n.log
    → on_vote_reply term granted n ≡ some (m, out)
    → Keeps n m
unfolding on_vote_reply become_follower
on_vote_reply-Keeps term granted n m out h e = ground (arith, count_vote-Keeps n.state n m out)

on_request_vote-Keeps :
    (term : ℕ) (c : String) (index last : ℕ) (n : RaftNode)
    → n.commit ≤ length n.log
    → Keeps n (on_request_vote term c index last n).0
unfolding on_request_vote
on_request_vote-Keeps term c index last n h = ground arith

-- The entries of the message reach at least as far as the node has committed.
abbrev pub Reaches : RaftMsg → RaftNode → Type 0
Reaches (append_entries term from prev_index prev_term entries commit) n =
    n.commit ≤ prev_index + length entries
Reaches _ n = Unit

consistent-length :
    (log : List LogEntry) (prev_index prev_term : ℕ)
    → consistent log prev_index prev_term ≡ true
    → prev_index ≤ length log
unfolding consistent
consistent-length log zero prev_term h = omega arith
consistent-length [] (suc i) prev_term h = cc
consistent-length (e ∷ log) (suc zero) prev_term h = omega arith
consistent-length (e ∷ log) (suc (suc i)) prev_term h =
    omega (arith, consistent-length log (suc i) prev_term h)

length-write :
    (log entries : List LogEntry) (prev_index : ℕ)
    → prev_index ≤ length log
    → length (take prev_index log ++ entries) ≡ prev_index + length entries
length-write log entries prev_index h =
    omega (arith, length-append (take prev_index log) entries, length-take prev_index log)

on_append_entries-Keeps :
    (term : ℕ) (from : String) (prev_index prev_term : ℕ) (entries : List LogEntry) (commit : ℕ)
    (n : RaftNode)
    → n.commit ≤ length n.log
    → n.commit ≤ prev_index + length entries
    → Keeps n (on_append_entries term from prev_index prev_term entries commit n).0
unfolding on_append_entries
on_append_entries-Keeps term from prev_index prev_term entries commit n h r =
    ground
      (arith, consistent-length n.log prev_index prev_term, length-write n.log entries prev_index)

-- On every message the commit index grows or stays, and lies in the log, if it did before and an
-- AppendEntries reaches at least as far as the node has committed.
pub step-Keeps :
    (msg : RaftMsg) (n m : RaftNode) (out : List Envelope)
    → n.commit ≤ length n.log
    → Reaches msg n
    → step msg n ≡ some (m, out)
    → Keeps n m
unfolding step
step-Keeps (request_vote term c index last) n m out h r e =
    ground (arith, on_request_vote-Keeps term c index last n h)
step-Keeps (vote_reply term from granted) n m out h r e =
    on_vote_reply-Keeps term granted n m out h e
step-Keeps (append_entries term from prev_index prev_term entries commit) n m out h r e =
    ground (arith, on_append_entries-Keeps term from prev_index prev_term entries commit n h r)
step-Keeps (append_reply term from success i) n m out h r e =
    ground (arith, on_append_reply-Keeps term from success i n h)

-- A commit index within the log is what reading the committed entries needs.
pub committed-total :
    (n : RaftNode) → n.commit ≤ length n.log → committed n ≡ some (take n.commit n.log)
unfolding committed
committed-total n h = ground arith

-- An AppendEntries of the follower's own term that matches its log and stops short of its commit
-- index, as an old one that arrives late does, cuts committed entries off: the commit index is left
-- behind the log's end, and reading the committed entries panics.
pub stale_append-committed :
    (n : RaftNode) (from : String) (prev_index prev_term commit : ℕ) (entries : List LogEntry)
    → n.state ≡ follower
    → consistent n.log prev_index prev_term ≡ true
    → prev_index + length entries < n.commit
    → commit ≤ n.commit
    → let m = (on_append_entries n.term from prev_index prev_term entries commit n).0 in
      (m.commit ≡ n.commit) × (length m.log ≡ prev_index + length entries) × (committed m ≡ none)
unfolding on_append_entries committed
stale_append-committed n from prev_index prev_term commit entries s c short old =
    let fits = consistent-length n.log prev_index prev_term c in
    let size = length-write n.log entries prev_index fits in
    (ground arith, ground (arith, size), ground (arith, size))

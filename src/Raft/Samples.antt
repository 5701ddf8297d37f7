-- ===== src/Raft/Samples.antt =====
-- A cluster of three nodes, and the theorems on the Raft core at its states.
use sigil_siem.Prelude.{
  ℕ, ◌≡◌, refl, inl, String, true, none, some, List, [], ◌∷◌, arith, length, Assoc, lookup, insert,
}
use sigil_siem.Raft.Types.{
  LogEntry, RaftMsg, request_vote, vote_reply, append_entries, append_reply, Envelope, RaftNode,
  follower, candidate, leader,
}
use sigil_siem.Raft.Node.{
  become_leader, elected, committed, append_for, append_message, advance_commit, commit_scan,
  majority, prev_term_at, last_index, last_term, start_election, broadcast_appends, appends,
}
use sigil_siem.Raft.Step.{
  step, on_request_vote, on_append_entries, on_vote_reply, consistent, grants, vote_available,
}
use sigil_siem.Raft.Bounds.{IsReady}
use sigil_siem.Raft.Panics.{Safely, step-Safely}
use sigil_siem.Raft.Elections.{repeated_reply-Elects, Elects, deliver}
use sigil_siem.Raft.Commit.{advance_commit-Advanced, Advanced}
use sigil_siem.Raft.Committed.{Keeps, step-Keeps, stale_append-committed}
use sigil_siem.Raft.Replication.{receives, receives-log, repair, backoff}
use sigil_siem.Raft.Run.{here}
use sigil_siem.Raft.Votes.{gives_vote, one_vote_a_term, candidate_votes_again, hears}
use sigil_siem.Raft.Driver.{Codec, send, decode_step, topic_bcast, own_election_ignored}

abbrev entry : ℕ → LogEntry
entry t = record { term = t; payload = 7 ∷ [] }

-- A follower of term 1 with two entries, of which one is committed.
abbrev node_b : RaftNode
node_b = record {
  id = "b";
  peers = "a" ∷ "c" ∷ [];
  state = follower;
  term = 1;
  voted_for = none;
  log = entry 1 ∷ entry 1 ∷ [];
  commit = 2;
  leader_hint = none;
  quiet_ticks = 0;
  election_after = 12;
  heartbeat_every = 3;
}

-- A candidate of term 2 with its own vote.
abbrev node_c : RaftNode
node_c = record node_b {
  id = "c";
  peers = "a" ∷ "b" ∷ [];
  state = candidate 1;
  term = 2;
  voted_for = some "c";
}

-- The leader of term 2, with one more entry than the others.
abbrev node_a : RaftNode
node_a = record node_b {
  id = "a";
  peers = "b" ∷ "c" ∷ [];
  state = leader (("b", 3) ∷ ("c", 2) ∷ []) (("b", 3) ∷ ("c", 0) ∷ []);
  term = 2;
  voted_for = some "a";
  log = entry 1 ∷ entry 1 ∷ entry 2 ∷ [];
}

voted_c : RaftNode
voted_c = (on_request_vote 2 "c" 2 1 node_b).0

node_b_votes : gives_vote 2 "c" 2 1 node_b ≡ true
unfolding on_request_vote grants vote_available last_index last_term
node_b_votes = refl

node_b_votes_again : gives_vote 2 "c" 5 2 (on_request_vote 2 "c" 2 1 node_b).0 ≡ true
unfolding on_request_vote grants vote_available last_index last_term
node_b_votes_again = refl

one_vote_a_term_example : ◌≡◌ {A = String} "c" "c"
one_vote_a_term_example =
    one_vote_a_term 2 "c" "c" 2 1 5 2 node_b (on_request_vote 2 "c" 2 1 node_b).0 node_b_votes here
      node_b_votes_again

candidate_votes_again_example :
    let m = hears node_c "a" 0 0 [] 0 in
    (m.term ≡ 2) × (m.voted_for ≡ none) × (gives_vote 2 "d" 9 9 m ≡ true)
unfolding on_append_entries last_index last_term
candidate_votes_again_example =
    candidate_votes_again node_c 1 "a" "d" 0 0 0 9 9 [] refl (inl (omega arith))

abbrev elected_c : RaftNode
elected_c = record node_c {
  state = leader (("a", 3) ∷ ("b", 3) ∷ []) (("a", 0) ∷ ("b", 0) ∷ []);
  leader_hint = none;
  quiet_ticks = 0;
}

abbrev heartbeats_c : List Envelope
heartbeats_c =
    record { to = some "a"; msg = append_entries 2 "c" 2 1 [] 2 }
    ∷ record { to = some "b"; msg = append_entries 2 "c" 2 1 [] 2 }
    ∷ []

node_c_elected : step (vote_reply 2 "a" true) node_c ≡ some (elected_c, heartbeats_c)
unfolding step on_vote_reply majority become_leader broadcast_appends elected appends append_for
    append_message prev_term_at lookup insert
node_c_elected = refl

-- A candidate of a cluster of five.
abbrev node_e : RaftNode
node_e = record node_c { id = "e"; peers = "a" ∷ "b" ∷ "c" ∷ "d" ∷ []; voted_for = some "e" }

repeated_reply-Elects_example : Elects (deliver 2 (vote_reply 2 "a" true) node_e)
unfolding majority
repeated_reply-Elects_example =
    repeated_reply-Elects 1 1 2 "a" node_e refl refl (omega arith) (omega arith)

advance_commit-Advanced_example : Advanced node_a (("b", 3) ∷ ("c", 0) ∷ []) (advance_commit node_a)
advance_commit-Advanced_example =
    advance_commit-Advanced node_a (("b", 3) ∷ ("c", 2) ∷ []) (("b", 3) ∷ ("c", 0) ∷ []) refl

-- The entry of term 2 is on the leader and on "b", and is committed.
node_a_commits : (advance_commit node_a).commit ≡ 3
unfolding advance_commit commit_scan last_index
node_a_commits = refl

step-Keeps_example : Keeps node_b (on_append_entries 2 "a" 2 1 (entry 2 ∷ []) 3 node_b).0
unfolding step
step-Keeps_example =
    step-Keeps (append_entries 2 "a" 2 1 (entry 2 ∷ []) 3) node_b
      (on_append_entries 2 "a" 2 1 (entry 2 ∷ []) 3 node_b).0
      (on_append_entries 2 "a" 2 1 (entry 2 ∷ []) 3 node_b).1 (omega arith) (omega arith) refl

-- An old message of the leader, sent when its log had one entry.
stale_append-committed_example :
    let m = (on_append_entries 1 "a" 0 0 (entry 1 ∷ []) 1 node_b).0 in
    (m.commit ≡ 2) × (length m.log ≡ 1) × (committed m ≡ none)
unfolding consistent
stale_append-committed_example =
    stale_append-committed node_b "a" 0 0 1 (entry 1 ∷ []) refl refl (omega arith) (omega arith)

receives-log_example : (receives node_a node_b 2 1).0.log ≡ node_a.log
unfolding prev_term_at
receives-log_example = receives-log node_a node_b 2 1 (omega arith) refl refl

-- A follower whose log has nothing of the leader's.
abbrev astray : RaftNode
astray = record node_b { id = "c"; log = entry 9 ∷ []; commit = 0 }

repair_example :
    let l = backoff 2 "c" node_a in
    ((next_index : Assoc ℕ) × (l.state ≡ leader next_index (("b", 3) ∷ ("c", 0) ∷ []))
      × (append_for l next_index "c" ≡ some (append_message l "c" 0 0)))
    × ((receives l astray 0 0).0.log ≡ node_a.log)
unfolding lookup
repair_example =
    repair node_a astray "c" (("b", 3) ∷ ("c", 2) ∷ []) (("b", 3) ∷ ("c", 0) ∷ []) 2 refl refl
      (omega arith) (omega arith)

node_a-IsReady : IsReady node_a
node_a-IsReady = omega arith

step-Safely_example : Safely (step (append_reply 2 "c" true 3) node_a)
step-Safely_example =
    step-Safely (append_reply 2 "c" true 3) node_a (omega arith) (omega arith) node_a-IsReady

-- Messages that stand for themselves.
abbrev plain_codec : Codec
plain_codec = record {
  Payload = RaftMsg;
  encode = λ msg. msg;
  decode = λ payload. some payload;
  decode-encode = λ msg. refl;
}

abbrev election_b : List Envelope
election_b = record { to = none; msg = request_vote 2 "b" 2 1 } ∷ []

abbrev standing_b : RaftNode
standing_b = record node_b { term = 2; voted_for = some "b"; state = candidate 1 }

own_election_ignored_example :
    (payload : RaftMsg) × (send plain_codec "prod" election_b ≡ (topic_bcast "prod", payload) ∷ [])
    × (decode_step plain_codec standing_b (some payload) ≡ some (standing_b, []))
unfolding start_election last_index last_term
own_election_ignored_example =
    own_election_ignored plain_codec node_b standing_b "a" ("c" ∷ []) "prod" election_b refl refl

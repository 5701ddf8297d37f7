-- ===== src/Raft/Types.antt =====
-- The data of crates/sigil-cluster/src/raft.rs: log entries, messages, envelopes, the node's state.
use sigil_siem.Prelude.{ℕ, ◌%◌, ◌^◌, String, Bool, Option, List, Assoc}

-- `data` of the source, a vector of bytes, is `payload`: `data` is reserved here.
pub record LogEntry : Type 0 where
  pub term : ℕ
  pub payload : List ℕ

pub data RaftMsg : Type 0 where
  -- term, candidate, last_log_index, last_log_term
  request_vote : ℕ → String → ℕ → ℕ → RaftMsg
  -- term, from, granted
  vote_reply : ℕ → String → Bool → RaftMsg
  -- term, leader, prev_index, prev_term, entries, leader_commit
  append_entries : ℕ → String → ℕ → ℕ → List LogEntry → ℕ → RaftMsg
  -- term, from, success, match_index
  append_reply : ℕ → String → Bool → ℕ → RaftMsg

-- `to` is `none` for a broadcast.
pub record Envelope : Type 0 where
  pub to : Option String
  pub msg : RaftMsg

pub data RaftState : Type 0 where
  follower : RaftState
  -- votes
  candidate : ℕ → RaftState
  -- next_index, match_index
  leader : Assoc ℕ → Assoc ℕ → RaftState

pub record RaftNode : Type 0 where
  pub id : String
  pub peers : List String
  pub state : RaftState
  pub term : ℕ  -- u64
  pub voted_for : Option String
  pub log : List LogEntry
  pub commit : ℕ  -- u64
  pub leader_hint : Option String
  pub quiet_ticks : ℕ  -- u32
  pub election_after : ℕ  -- u32
  pub heartbeat_every : ℕ  -- u32

-- The release profile sets no overflow checks, so a machine word wraps.
abbrev pub u64 : ℕ → ℕ
u64 n = n % 2 ^ 64

abbrev pub u32 : ℕ → ℕ
u32 n = n % 2 ^ 32

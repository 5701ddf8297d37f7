-- ===== src/Raft/Turns.antt =====
-- One call of a node of crates/sigil-cluster/src/raft.rs: what a tick, a proposal or a message does
-- to the vote and to the leadership, and which messages it sends.
use sigil_siem.Prelude.{ℕ, ◌+◌, ◌^◌, ◌≤◌, ◌<◌, ◌≡◌, ◌⊎◌, String, true, Option, some, List, All}
use sigil_siem.Raft.Types.{
  RaftMsg, vote_reply, append_entries, Envelope, RaftState, RaftNode, follower, candidate, leader,
}
use sigil_siem.Raft.Node.{state_is_leader, state_is_follower, majority, tick, accepted, propose}
use sigil_siem.Raft.Step.{step}

-- What a node is called for.
pub data Cause : Type 0 where
  ticks : Cause
  proposes : List ℕ → Cause
  receives : RaftMsg → Cause

-- The call leads from the first node to the second, with the envelopes. No tick finds the term at
-- the end of its 64 bits.
abbrev pub Calls : Cause → RaftNode → RaftNode → List Envelope → Type 0
Calls ticks n m out = (n.term + 1 < 2 ^ 64) × (tick n ≡ some (m, out))
Calls (proposes payload) n m out = propose payload n ≡ some (accepted m out)
Calls (receives msg) n m out = step msg n ≡ some (m, out)

-- The votes that a node's state stands for.
abbrev pub support_in : RaftState → ℕ → ℕ
support_in follower quorum = 0
support_in (candidate votes) quorum = votes
support_in (leader next_index matched) quorum = quorum

abbrev pub support : RaftNode → ℕ
support n = support_in n.state (majority n)

-- A node that stands or leads has voted for itself.
abbrev pub VotesForSelf : RaftState → RaftNode → Type 0
VotesForSelf follower n = Unit
VotesForSelf _ n = n.voted_for ≡ some n.id

-- A granted vote of the node's own term.
abbrev pub GrantsVote : ℕ → Cause → Type 0
GrantsVote t (receives (vote_reply term from true)) = term ≡ t
GrantsVote t _ = ⊥

-- A message of a leader of the term.
abbrev pub FromLeader : ℕ → Cause → Type 0
FromLeader t (receives (append_entries term _ _ _ _ _)) = term ≡ t
FromLeader t _ = ⊥

-- How the claim to votes may change: it does not grow; it starts anew with one vote; or a vote of
-- the node's term is counted.
pub data Claim (cause : Cause) (n m : RaftNode) : Type 0 where
  keeps : m.term ≡ n.term → support m ≤ support n → Claim cause n m
  starts : support m ≤ 1 → Claim cause n m
  counts : GrantsVote n.term cause → m.term ≡ n.term → support m ≤ support n + 1 → Claim cause n m

pub record Turn (cause : Cause) (n m : RaftNode) : Type 0 where
  pub id : m.id ≡ n.id
  pub peers : m.peers ≡ n.peers
  pub term : n.term ≤ m.term
  pub claim : Claim cause n m
  pub own_vote : VotesForSelf n.state n → VotesForSelf m.state m
  pub leads :
      state_is_leader n.state ≡ true
      → m.term ≡ n.term
      → (state_is_leader m.state ≡ true) ⊎ FromLeader n.term cause
  pub vote :
      (c : String)
      → n.voted_for ≡ some c
      → state_is_follower n.state ≡ true
      → m.term ≡ n.term
      → m.voted_for ≡ some c

-- What a message that a node sends says of the node.
abbrev pub Says : RaftNode → Option String → RaftMsg → Type 0
Says m to (vote_reply term from true) =
    (from ≡ m.id) × (term ≡ m.term) × ((c : String) × (to ≡ some c) × (m.voted_for ≡ some c))
Says m to (append_entries term from _ _ _ _) =
    (from ≡ m.id) × (term ≡ m.term) × (state_is_leader m.state ≡ true)
Says m to _ = Unit

abbrev pub SaysAll : RaftNode → List Envelope → Type 0
SaysAll m = All (λ e. Says m e.to e.msg)

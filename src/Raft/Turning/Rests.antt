-- ===== src/Raft/Turning/Rests.antt =====
-- Calls of a node of crates/sigil-cluster/src/raft.rs that leave the vote, and calls that yield.

use sigil_siem.Prelude.{◌≤◌, ◌<◌, ◌≡◌, inl, some, arith}
use sigil_siem.Raft.Types.{RaftState, RaftNode, follower, candidate, leader}
use sigil_siem.Raft.Node.{state_is_leader, state_is_follower}
use sigil_siem.Raft.Turns.{Cause, support, keeps, starts, Turn, VotesForSelf}

-- A call that leaves the vote, the term and the kind of the state.
pub record Rests (n m : RaftNode) : Type 0 where
  pub id : m.id ≡ n.id
  pub peers : m.peers ≡ n.peers
  pub term : m.term ≡ n.term
  pub voted_for : m.voted_for ≡ n.voted_for
  pub leads : state_is_leader m.state ≡ state_is_leader n.state
  pub follows : state_is_follower m.state ≡ state_is_follower n.state
  pub claim : support m ≤ support n

pub VotesForSelf-Rests :
    (s t : RaftState) (n m : RaftNode)
    → state_is_follower t ≡ state_is_follower s
    → m.id ≡ n.id
    → m.voted_for ≡ n.voted_for
    → VotesForSelf s n
    → VotesForSelf t m
VotesForSelf-Rests s follower n m f i v h = tt
VotesForSelf-Rests follower (candidate _) n m f i v h = absurd (ground arith)
VotesForSelf-Rests follower (leader _ _) n m f i v h = absurd (ground arith)
VotesForSelf-Rests (candidate _) (candidate _) n m f i v h = ground arith
VotesForSelf-Rests (candidate _) (leader _ _) n m f i v h = ground arith
VotesForSelf-Rests (leader _ _) (candidate _) n m f i v h = ground arith
VotesForSelf-Rests (leader _ _) (leader _ _) n m f i v h = ground arith

pub Rests-Turn : (cause : Cause) (n m : RaftNode) → Rests n m → Turn cause n m
Rests-Turn cause n m r = record {
  id = r.id;
  peers = r.peers;
  term = omega (arith, r.term);
  claim = keeps r.term r.claim;
  own_vote = VotesForSelf-Rests n.state m.state n m r.follows r.id r.voted_for;
  leads = λ l e. inl (ground (arith, r.leads));
  vote = λ c v f e. ground (arith, r.voted_for);
}

pub follower-VotesForSelf : (s : RaftState) (m : RaftNode) → s ≡ follower → VotesForSelf s m
follower-VotesForSelf s m e = rw e tt

pub voted-VotesForSelf : (s : RaftState) (m : RaftNode) → m.voted_for ≡ some m.id → VotesForSelf s m
voted-VotesForSelf follower m e = tt
voted-VotesForSelf (candidate votes) m e = e
voted-VotesForSelf (leader next matched) m e = e

-- A node that gives up its state for a later term, with or without a vote.
pub yields-Turn :
    (cause : Cause) (n m : RaftNode)
    → m.id ≡ n.id
    → m.peers ≡ n.peers
    → n.term < m.term
    → m.state ≡ follower
    → Turn cause n m
yields-Turn cause n m i p l s = record {
  id = i;
  peers = p;
  term = omega arith;
  claim = starts (rw s (omega arith));
  own_vote = λ _. rw s tt;
  leads = λ _ e. absurd (omega arith);
  vote = λ _ _ _ e. absurd (omega arith);
}

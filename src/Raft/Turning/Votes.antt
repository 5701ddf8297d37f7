-- ===== src/Raft/Turning/Votes.antt =====
-- Requests for votes and their replies in crates/sigil-cluster/src/raft.rs are turns.

use sigil_siem.Prelude.{
  ℕ, ◌+◌, ◌≤◌, ◌≡◌, refl, ap, sym, eq_iff, ◌⊎◌, inl, inr, String, Bool, true, false, Option, none,
  some, List, arith, ltb, leb, ◌==◌, Bool-cases,
}
use sigil_siem.Raft.Types.{vote_reply, Envelope, RaftState, RaftNode, follower, candidate, leader}
use sigil_siem.Raft.Node.{majority, become_follower, elected}
use sigil_siem.Raft.Step.{on_request_vote, on_vote_reply, count_vote, grants, vote_available}
use sigil_siem.Raft.Frame.{become_leader-elected}
use sigil_siem.Raft.Turns.{Cause, receives, GrantsVote, keeps, counts, Turn, VotesForSelf}
use sigil_siem.Raft.Turning.Rests.{Rests, VotesForSelf-Rests, Rests-Turn, yields-Turn}

same_vote : (o : Option String) (c d : String) → vote_available o c ≡ true → o ≡ some d → c ≡ d
unfolding vote_available
same_vote none c d h e = absurd (ground arith)
same_vote (some v) c d h e = ground (arith, eq_iff v c)

VotesForSelf-vote :
    (s : RaftState) (n : RaftNode) (c : String)
    → vote_available n.voted_for c ≡ true
    → VotesForSelf s n
    → VotesForSelf s (record n { voted_for = some c; quiet_ticks = 0 })
VotesForSelf-vote follower n c h v = tt
VotesForSelf-vote (candidate votes) n c h v = ap some (same_vote n.voted_for c n.id h v)
VotesForSelf-vote (leader next matched) n c h v = ap some (same_vote n.voted_for c n.id h v)

-- A vote that the node was free to give, in its term.
pub vote-Turn :
    (cause : Cause) (n : RaftNode) (c : String)
    → vote_available n.voted_for c ≡ true
    → Turn cause n (record n { voted_for = some c; quiet_ticks = 0 })
unfolding majority
vote-Turn cause n c h = record {
  id = refl;
  peers = refl;
  term = omega arith;
  claim = keeps refl (omega arith);
  own_vote = VotesForSelf-vote n.state n c h;
  leads = λ l _. inl l;
  vote = λ d v _ _. ap some (same_vote n.voted_for c d h v);
}

pub request_vote-Turn :
    (cause : Cause) (term : ℕ) (c : String) (index last : ℕ) (n : RaftNode)
    → Turn cause n (on_request_vote term c index last n).0
unfolding on_request_vote grants become_follower
request_vote-Turn cause term c index last n = elim (Bool-cases (ltb n.term term)) [
  | inl later ↦
      yields-Turn cause n (on_request_vote term c index last n).0 (ground arith) (ground arith)
        (ground arith) (ground arith)
  | inr same ↦ elim (Bool-cases (grants n term c index last)) [
    | inl given ↦ rw (same, given) (vote-Turn cause n c (ground arith))
    | inr kept ↦ rw (same, kept) (Rests-Turn cause n n (ground arith))
  ]
]

-- The election that a counted vote decides, and the vote alone.
pub count-Turn :
    (cause : Cause) (n m : RaftNode) (votes : ℕ)
    → n.state ≡ candidate votes
    → GrantsVote n.term cause
    → Rests (record n { state = candidate (votes + 1) }) m
      ⊎ ((m ≡ elected (record n { state = candidate (votes + 1) })) × (majority n ≤ votes + 1))
    → Turn cause n m
unfolding majority elected
count-Turn cause n m votes s g (inl r) = record {
  id = r.id;
  peers = r.peers;
  term = omega (arith, r.term);
  claim = counts g r.term (ground (arith, r.claim));
  own_vote = VotesForSelf-Rests n.state m.state n m (ground (arith, r.follows)) r.id r.voted_for;
  leads = λ l e. absurd (ground arith);
  vote = λ c v f e. absurd (ground arith);
}
count-Turn cause n m votes s g (inr (e, q)) = record {
  id = ground arith;
  peers = ground arith;
  term = ground arith;
  claim = counts g (ground arith) (ground arith);
  own_vote = VotesForSelf-Rests n.state m.state n m (ground arith) (ground arith) (ground arith);
  leads = λ l e. absurd (ground arith);
  vote = λ c v f e. absurd (ground arith);
}

pub count_vote-Turn :
    (cause : Cause) (s : RaftState) (n m : RaftNode) (out : List Envelope)
    → s ≡ n.state
    → GrantsVote n.term cause
    → count_vote s n ≡ some (m, out)
    → Turn cause n m
unfolding majority
count_vote-Turn cause follower n m out e g h = Rests-Turn cause n m (ground arith)
count_vote-Turn cause (leader next matched) n m out e g h = Rests-Turn cause n m (ground arith)
count_vote-Turn cause (candidate votes) n m out e g h =
    let counted = record n { state = candidate (votes + 1) } in
    elim (Bool-cases (leb (majority n) (votes + 1))) [
      | inl won ↦
          count-Turn cause n m votes (sym e) g
            (inr (become_leader-elected counted m out (ground arith), ground arith))
      | inr more ↦ count-Turn cause n m votes (sym e) g (inl (ground arith))
    ]

pub vote_reply-Turn :
    (term : ℕ) (from : String) (granted : Bool) (n m : RaftNode) (out : List Envelope)
    → on_vote_reply term granted n ≡ some (m, out)
    → Turn (receives (vote_reply term from granted)) n m
unfolding on_vote_reply become_follower majority
vote_reply-Turn term from true n m out h = elim (Bool-cases (ltb n.term term)) [
  | inl later ↦
      yields-Turn (receives (vote_reply term from true)) n m (ground arith) (ground arith)
        (ground arith) (ground arith)
  | inr same ↦ elim (Bool-cases (term == n.term)) [
    | inl own ↦
        count_vote-Turn (receives (vote_reply term from true)) n.state n m out refl (ground arith)
          (ground arith)
    | inr stale ↦ Rests-Turn (receives (vote_reply term from true)) n m (ground arith)
  ]
]
vote_reply-Turn term from false n m out h = elim (Bool-cases (ltb n.term term)) [
  | inl later ↦
      yields-Turn (receives (vote_reply term from false)) n m (ground arith) (ground arith)
        (ground arith) (ground arith)
  | inr same ↦ Rests-Turn (receives (vote_reply term from false)) n m (ground arith)
]

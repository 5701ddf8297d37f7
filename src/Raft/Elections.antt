-- ===== src/Raft/Elections.antt =====
-- Elections of crates/sigil-cluster/src/raft.rs: how many votes make a leader, and whose.
use sigil_siem.Prelude.{
  ℕ, zero, suc, ◌+◌, ◌*◌, ◌-◌, ◌≤◌, ◌<◌, ◌≡◌, refl, inl, inr, String, Bool, true, false, Option,
  none, some, List, arith, leb, ltb, le→leb, ◌==◌, ◌&&◌, length, Bool-cases, ◌>>=◌,
}
use sigil_siem.Raft.Types.{
  RaftMsg, vote_reply, Envelope, RaftState, RaftNode, follower, candidate, leader,
}
use sigil_siem.Raft.Node.{state_is_leader, majority, elected, become_follower}
use sigil_siem.Raft.Bounds.{Fits, become_leader-total}
use sigil_siem.Raft.Step.{on_vote_reply, count_vote, step}

-- A majority is the smallest number of nodes that is more than half of the cluster, the node
-- itself and its peers: two majorities share a node, and a cluster has one.
pub majority-quorum :
    (n : RaftNode)
    → let cluster = length n.peers + 1 in
      (cluster < 2 * majority n) × (2 * (majority n - 1) ≤ cluster) × (majority n ≤ cluster)
unfolding majority
majority-quorum n = omega arith

count_vote-leader :
    (s : RaftState) (n m : RaftNode) (out : List Envelope)
    → state_is_leader s ≡ false
    → s ≡ n.state
    → count_vote s n ≡ some (m, out)
    → state_is_leader m.state ≡ true
    → (votes : ℕ) × (s ≡ candidate votes) × (majority n ≤ votes + 1)
unfolding majority
count_vote-leader follower n m out f e h l = absurd (ground arith)
count_vote-leader (leader next_index matched) n m out f e h l = cc
count_vote-leader (candidate votes) n m out f e h l = (votes, refl, ground arith)

-- A reply makes a node the leader only if it is a candidate of the reply's term, the reply grants
-- the vote, and the votes counted so far with this one reach a majority.
pub vote_reply-leader :
    (term : ℕ) (from : String) (granted : Bool) (n m : RaftNode) (out : List Envelope)
    → step (vote_reply term from granted) n ≡ some (m, out)
    → state_is_leader n.state ≡ false
    → state_is_leader m.state ≡ true
    → (term ≡ n.term)
      × (granted ≡ true)
      × ((votes : ℕ) × (n.state ≡ candidate votes) × (majority n ≤ votes + 1))
unfolding step on_vote_reply become_follower
vote_reply-leader term from granted n m out h f l = elim (Bool-cases (ltb n.term term)) [
  | inl later ↦ absurd (ground arith)
  | inr same ↦ elim (Bool-cases (term == n.term && granted)) [
    | inl counted ↦
        (ground arith, ground arith, count_vote-leader n.state n m out f refl (ground arith) l)
    | inr not_counted ↦ absurd (ground arith)
  ]
]

-- The same message `k` times.
abbrev pub step_node : RaftMsg → RaftNode → Option RaftNode
step_node msg n = elim (step msg n) [ none ↦ none | some r ↦ some r.0 ]

pub deliver : ℕ → RaftMsg → RaftNode → Option RaftNode
deliver zero msg n = some n
deliver (suc k) msg n = step_node msg n >>= deliver k msg

leader-vote_reply :
    (term : ℕ) (from : String) (granted : Bool) (n : RaftNode)
    → term ≡ n.term
    → state_is_leader n.state ≡ true
    → step_node (vote_reply term from granted) n ≡ some n
unfolding step on_vote_reply
leader-vote_reply term from granted n e l = ground arith

candidate-vote_reply :
    (votes term : ℕ) (from : String) (n : RaftNode)
    → n.state ≡ candidate votes
    → term ≡ n.term
    → leb (majority n) (votes + 1) ≡ false
    → step_node (vote_reply term from true) n ≡ some (record n { state = candidate (votes + 1) })
unfolding step on_vote_reply
candidate-vote_reply votes term from n s e q = ground arith

winning-vote_reply :
    (votes term : ℕ) (from : String) (n : RaftNode)
    → n.state ≡ candidate votes
    → term ≡ n.term
    → Fits n
    → leb (majority n) (votes + 1) ≡ true
    → step_node (vote_reply term from true) n
      ≡ some (elected (record n { state = candidate (votes + 1) }))
unfolding step on_vote_reply
winning-vote_reply votes term from n s e f q =
    let (out, p) = become_leader-total (record n { state = candidate (votes + 1) }) f in
    ground arith

deliver-leader :
    (k term : ℕ) (from : String) (granted : Bool) (n : RaftNode)
    → term ≡ n.term
    → state_is_leader n.state ≡ true
    → deliver k (vote_reply term from granted) n ≡ some n
unfolding deliver
deliver-leader zero term from granted n e l = refl
deliver-leader (suc k) term from granted n e l =
    rw (leader-vote_reply term from granted n e l) (deliver-leader k term from granted n e l)

-- The deliveries end with the node as leader.
abbrev pub Elects : Option RaftNode → Type 0
Elects o = (m : RaftNode) × (o ≡ some m) × (state_is_leader m.state ≡ true)

repeated-won :
    (k votes term : ℕ) (from : String) (n : RaftNode)
    → n.state ≡ candidate votes
    → term ≡ n.term
    → Fits n
    → leb (majority n) (votes + 1) ≡ true
    → Elects (deliver (suc k) (vote_reply term from true) n)
unfolding deliver elected
repeated-won k votes term from n s e f won =
    let leads = elected (record n { state = candidate (votes + 1) }) in
    (
      leads,
      rw (winning-vote_reply votes term from n s e f won)
          (deliver-leader k term from true leads e refl),
      refl,
    )

deliver-Elects :
    (k : ℕ) (msg : RaftMsg) (n m : RaftNode)
    → step_node msg n ≡ some m
    → Elects (deliver k msg m)
    → Elects (deliver (suc k) msg n)
unfolding deliver
deliver-Elects k msg n m e r = rw e r

more_votes :
    (votes k : ℕ) (n : RaftNode)
    → majority n ≤ votes + suc (suc k)
    → majority (record n { state = candidate (votes + 1) }) ≤ votes + 1 + suc k
unfolding majority
more_votes votes k n q = omega arith

-- One peer's granted vote, delivered often enough, elects the candidate: the count of the votes
-- does not look at the sender.
pub repeated_reply-Elects :
    (k votes term : ℕ) (from : String) (n : RaftNode)
    → n.state ≡ candidate votes
    → term ≡ n.term
    → Fits n
    → majority n ≤ votes + suc k
    → Elects (deliver (suc k) (vote_reply term from true) n)
repeated_reply-Elects zero votes term from n s e f q =
    repeated-won zero votes term from n s e f (le→leb (majority n) (votes + 1) (omega arith))
repeated_reply-Elects (suc k) votes term from n s e f q =
    let again = record n { state = candidate (votes + 1) } in
    elim (Bool-cases (leb (majority n) (votes + 1))) [
      | inl won ↦ repeated-won (suc k) votes term from n s e f won
      | inr more ↦
          deliver-Elects (suc k) (vote_reply term from true) n again
            (candidate-vote_reply votes term from n s e more)
            (repeated_reply-Elects k (votes + 1) term from again refl e f (more_votes votes k n q))
    ]

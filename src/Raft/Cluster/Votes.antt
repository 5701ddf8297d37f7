-- ===== src/Raft/Cluster/Votes.antt =====
-- The votes in a cluster of the nodes of crates/sigil-cluster/src/raft.rs after a call.
use mathlib.Core.Path.{subst}
use sigil_siem.Prelude.{
  ℕ, ◌≡◌, ◌≢◌, refl, sym, ◌∙◌, ◌⊎◌, inl, inr, String, true, Option, some, List, same_or_not, arith,
}
use sigil_siem.Raft.Types.{vote_reply, Envelope, RaftNode, RaftState, follower, candidate, leader}
use sigil_siem.Raft.Node.{state_is_leader, state_is_follower}
use sigil_siem.Raft.Turns.{Cause, VotesForSelf}
use sigil_siem.Raft.Cluster.System.{Cluster, after}
use sigil_siem.Raft.Cluster.Invariant.{Granted, Voted, put_node-each, after-sent}
use sigil_siem.Raft.Cluster.Called.{Called}

-- A node that has voted for another one follows.
other_vote-follower :
    (s : RaftState) (n : RaftNode) (x : String)
    → VotesForSelf s n
    → n.voted_for ≡ some x
    → n.id ≢ x
    → state_is_follower s ≡ true
other_vote-follower follower n x v e ne = refl
other_vote-follower (candidate votes) n x v e ne = absurd (ne (ground arith))
other_vote-follower (leader next matched) n x v e ne = absurd (ne (ground arith))

pub leader-voted_for :
    (s : RaftState) (n : RaftNode)
    → state_is_leader s ≡ true
    → VotesForSelf s n
    → n.voted_for ≡ some n.id
leader-voted_for follower n l v = absurd (ground arith)
leader-voted_for (candidate votes) n l v = v
leader-voted_for (leader next matched) n l v = v

module _ {members : List String} {c : Cluster} {x : String} {cause : Cause} {m : RaftNode}
    {out : List Envelope} (k : Called members c x cause m out) where
  pub next-named : m.id ≡ x
  next-named = k.turn.id ∙ k.sound.named x

  pub next_self : VotesForSelf m.state m
  next_self = k.turn.own_vote (k.sound.self x)

  -- A vote in the history is old, or the call has given it.
  pub next-Granted :
      (v : String) (t : ℕ) (y : String)
      → Granted (after c x cause m out) v t y
      → Granted c v t y ⊎ ((v ≡ x) × (t ≡ m.term) × (m.voted_for ≡ some y))
  next-Granted v t y h =
      elim (after-sent c x cause m out k.says v (record { to = some y; msg = vote_reply t v true })
        h) [ inl old ↦ inl old | inr (e, said) ↦ inr (e, said.1, said.2.2 ∙ sym said.2.1) ]

  -- The node's vote for another one in its own term stands.
  pub votes-called :
      (t : ℕ) (y : String) → Granted (after c x cause m out) x t y → x ≢ y → Voted t y m
  votes-called t y h ne = elim (next-Granted x t y h) [
    | inr (_, e, v) ↦ (omega arith, λ _. v)
    | inl old ↦
        let (le, voted) = k.sound.votes x t y old ne in
        (
          omega (arith, k.turn.term),
          λ e.
              let same : m.term ≡ (c.nodes x).term = omega (arith, k.turn.term) in
              let own = voted (e ∙ same) in
              k.turn.vote y own
                (other_vote-follower (c.nodes x).state (c.nodes x) y (k.sound.self x) own
                  (λ i. ne (sym (k.sound.named x) ∙ i)))
                same,
        )
  ]

  pub next-votes :
      (v : String) (t : ℕ) (y : String)
      → Granted (after c x cause m out) v t y
      → v ≢ y
      → Voted t y ((after c x cause m out).nodes v)
  next-votes v t y =
      put_node-each (λ v n. Granted (after c x cause m out) v t y → v ≢ y → Voted t y n) x m c.nodes
        (λ v other h ne. elim (next-Granted v t y h) [
          | inl old ↦ k.sound.votes v t y old ne
          | inr new ↦ absurd (other new.0)
        ])
        (votes-called t y) v

  pub next-one :
      (v : String) (t : ℕ) (y z : String)
      → Granted (after c x cause m out) v t y
      → Granted (after c x cause m out) v t z
      → v ≢ y
      → v ≢ z
      → y ≡ z
  next-one v t y z g h ne nf = elim (same_or_not v x) [
    | inr other ↦ elim (next-Granted v t y g) [
      | inr new ↦ absurd (other new.0)
      | inl old ↦ elim (next-Granted v t z h) [
        | inr new ↦ absurd (other new.0)
        | inl before ↦ k.sound.one v t y z old before ne nf
      ]
    ]
    | inl same ↦
        called (subst (λ w. Granted (after c x cause m out) w t y) same g)
          (subst (λ w. Granted (after c x cause m out) w t z) same h) (λ e. ne (same ∙ e))
          (λ e. nf (same ∙ e))
  ]
    where
      given : {o : Option String} → o ≡ some y → o ≡ some z → y ≡ z
      given a b = ground arith

      called :
          Granted (after c x cause m out) x t y
          → Granted (after c x cause m out) x t z
          → x ≢ y
          → x ≢ z
          → y ≡ z
      called g h ne nf = elim (next-Granted x t y g) [
        | inr (_, e, voted) ↦ given voted ((votes-called t z h nf).1 e)
        | inl old ↦ elim (next-Granted x t z h) [
          | inr (_, e, voted) ↦ given ((votes-called t y g ne).1 e) voted
          | inl before ↦ k.sound.one x t y z old before ne nf
        ]
      ]

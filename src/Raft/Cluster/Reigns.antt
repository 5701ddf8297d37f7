-- ===== src/Raft/Cluster/Reigns.antt =====
-- The leaders in a cluster of the nodes of crates/sigil-cluster/src/raft.rs after a call.
use mathlib.Core.Path.{subst}
use sigil_siem.Prelude.{
  ℕ, ◌+◌, ◌/◌, ◌≡◌, refl, sym, ap, ◌∙◌, inl, inr, String, true, Option, some, List, Has, length,
  same_or_not, arith,
}
use sigil_siem.Raft.Types.{
  append_entries, Envelope, RaftNode, RaftState, follower, candidate, leader,
}
use sigil_siem.Raft.Node.{state_is_leader, majority}
use sigil_siem.Raft.Turns.{Cause, receives, support, FromLeader}
use sigil_siem.Raft.Cluster.System.{Cluster, Occurs, after}
use sigil_siem.Raft.Cluster.Invariant.{Granted, Reigned, put_node-each, after-led, led-after}
use sigil_siem.Raft.Cluster.Safety.{Sound-one_leader}
use sigil_siem.Raft.Cluster.Called.{Called}
use sigil_siem.Raft.Cluster.Ballots.{Backed-after, support-Backed}
use sigil_siem.Raft.Cluster.Votes.{
  leader-voted_for, next-named, next_self, next-Granted, votes-called,
}

-- A leader's support is a majority.
leader-support :
    (s : RaftState) (n : RaftNode) → n.state ≡ s → state_is_leader s ≡ true → support n ≡ majority n
leader-support follower n e l = absurd (ground arith)
leader-support (candidate votes) n e l = absurd (ground arith)
leader-support (leader next matched) n e l = ground arith

same_some : (o : Option String) (a b : String) → o ≡ some a → o ≡ some b → a ≡ b
same_some o a b e f = ground arith

module _ {members : List String} {c : Cluster} {x : String} {cause : Cause} {m : RaftNode}
    {out : List Envelope} (k : Called members c x cause m out) where
  -- Another leader of the node's term has not been heard of.
  no_rival : Has ((c.nodes x).term, x) c.led → ¬ FromLeader (c.nodes x).term cause
  no_rival h = go cause k.occurs
    where
      go : (cause : Cause) → Occurs c x cause → ¬ FromLeader (c.nodes x).term cause
      go (receives (append_entries t l prev_index prev_term entries commit))
            (s, to, sent, other, _, _) e =
          let (same, led) =
            k.sound.mail s
              (record { to = to; msg = append_entries t l prev_index prev_term entries commit })
              sent in
          other (
            sym same
            ∙ Sound-one_leader members c t l x k.sound led
                (subst (λ u. Has {A = ℕ × String} (u, x) c.led) (sym e) h))
      go _ o f = f

  led_before :
      (t : ℕ) (y : String)
      → Has {A = ℕ × String} (t, y) c.led
      → Has {A = ℕ × String} (t, y) (after c x cause m out).led
  led_before t y h = led-after (state_is_leader m.state) m.term x c.led (t, y) h

  -- The called node keeps the terms that it leads or has led.
  reigns-called :
      (t : ℕ) → Has {A = ℕ × String} (t, x) c.led → Reigned members (after c x cause m out) t x m
  reigns-called t h =
      let (a, le, leads, backed) = k.sound.reigns x t h in
      (
        a,
        omega (arith, k.turn.term),
        λ e.
            let before : t ≡ (c.nodes x).term = omega (arith, k.turn.term) in
            elim (k.turn.leads (leads before) (sym e ∙ before)) [
              | inl still ↦ still
              | inr heard ↦
                  absurd (no_rival (subst (λ u. Has {A = ℕ × String} (u, x) c.led) before h) heard)
            ],
        Backed-after k t x (length members / 2 + 1) (length members / 2 + 1) (omega arith) backed,
      )

  new-Reigned : state_is_leader m.state ≡ true → Reigned members (after c x cause m out) m.term x m
  unfolding majority
  new-Reigned l =
      let size = k.sound.sized x k.member in
      let (voters, enough, apart, each) = support-Backed k in
      let quorum : support m ≡ length members / 2 + 1 =
        leader-support m.state m refl l
        ∙ ap (λ ps. (length ps + 1) / 2 + 1) k.turn.peers
        ∙ ap (λ n. n / 2 + 1) size in
      (k.member, omega arith, λ _. l, (voters, omega arith, apart, each))

  pub next-reigns :
      (y : String) (t : ℕ)
      → Has {A = ℕ × String} (t, y) (after c x cause m out).led
      → Reigned members (after c x cause m out) t y ((after c x cause m out).nodes y)
  next-reigns y t =
      put_node-each
        (λ y n.
          Has {A = ℕ × String} (t, y) (after c x cause m out).led
          → Reigned members (after c x cause m out) t y n)
        x m c.nodes
        (λ y other h. elim (after-led (state_is_leader m.state) m.term x c.led t y h) [
          | inr new ↦ absurd (other new.0)
          | inl old ↦
              let (a, le, leads, backed) = k.sound.reigns y t old in
              (
                a,
                le,
                leads,
                Backed-after k t y (length members / 2 + 1) (length members / 2 + 1) (omega arith)
                    backed,
              )
        ])
        (λ h. elim (after-led (state_is_leader m.state) m.term x c.led t x h) [
          | inl old ↦ reigns-called t old
          | inr (_, e, l) ↦
              subst (λ u. Reigned members (after c x cause m out) u x m) (sym e) (new-Reigned l)
        ])
        y

  -- A leader has voted for itself only.
  own-called :
      (t : ℕ) (y : String)
      → Has {A = ℕ × String} (t, x) (after c x cause m out).led
      → Granted (after c x cause m out) x t y
      → x ≡ y
  own-called t y h g = elim (same_or_not x y) [
    | inl same ↦ same
    | inr other ↦ elim (next-Granted k x t y g) [
      | inl old ↦ elim (after-led (state_is_leader m.state) m.term x c.led t x h) [
        | inl before ↦ k.sound.own x t y before old
        | inr (_, e, l) ↦ leads-itself l ((votes-called k t y g other).1 e)
      ]
      | inr (_, e, v) ↦ elim (after-led (state_is_leader m.state) m.term x c.led t x h) [
        | inl before ↦ leads-itself ((reigns-called t before).2 e) v
        | inr (_, _, l) ↦ leads-itself l v
      ]
    ]
  ]
    where
      leads-itself : state_is_leader m.state ≡ true → m.voted_for ≡ some y → x ≡ y
      leads-itself l v =
          let own = leader-voted_for m.state m l (next_self k) in
          sym (next-named k) ∙ same_some m.voted_for m.id y own v

  pub next-own :
      (y : String) (t : ℕ) (z : String)
      → Has {A = ℕ × String} (t, y) (after c x cause m out).led
      → Granted (after c x cause m out) y t z
      → y ≡ z
  next-own y t z h g = elim (same_or_not y x) [
    | inl same ↦
        same
        ∙ own-called t z
            (subst (λ w. Has {A = ℕ × String} (t, w) (after c x cause m out).led) same h)
            (subst (λ w. Granted (after c x cause m out) w t z) same g)
    | inr other ↦ elim (next-Granted k y t z g) [
      | inr new ↦ absurd (other new.0)
      | inl old ↦ elim (after-led (state_is_leader m.state) m.term x c.led t y h) [
        | inr new ↦ absurd (other new.0)
        | inl before ↦ k.sound.own y t z before old
      ]
    ]
  ]

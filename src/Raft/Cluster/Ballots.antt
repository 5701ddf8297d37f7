-- ===== src/Raft/Cluster/Ballots.antt =====
-- The counted votes in a cluster of the nodes of crates/sigil-cluster/src/raft.rs after a call.
use mathlib.Core.Path.{subst}
use sigil_siem.Prelude.{
  ℕ, ◌+◌, ◌≤◌, ◌≡◌, ◌≢◌, sym, ap, ◌∙◌, ◌⊎◌, inl, inr, String, true, Option, none, some, List, [],
  ◌∷◌, Has, append-Has, map, arith,
}
use sigil_siem.Raft.Types.{vote_reply, Envelope, RaftNode}
use sigil_siem.Raft.Turns.{Cause, receives, support, Claim, keeps, starts, counts, GrantsVote}
use sigil_siem.Raft.Cluster.System.{Cluster, Occurs, Arrives, after, note_vote}
use sigil_siem.Raft.Cluster.Invariant.{
  Granted, Backed, Sound, Backed-mono, put_node-each, counted-after,
}
use sigil_siem.Raft.Cluster.System.{Addressed}
use sigil_siem.Raft.Cluster.Called.{Called}

-- A vote that arrives is another member's, and has not been counted.
pub record Arrival (members : List String) (c : Cluster) (v : String) (t : ℕ) (x : String)
    : Type 0 where
  pub member : Has v members
  pub other : v ≢ x
  pub sent : Granted c v t x
  pub fresh : ¬ Has {A = String × ℕ × String} (v, t, x) c.counted

Arrives-Arrival :
    (members : List String) (c : Cluster) (x v : String) (t : ℕ)
    → Sound members c
    → Arrives c x (vote_reply t v true)
    → Arrival members c v t x
Arrives-Arrival members c x v t sound (s, to, sent, other, addressed, once) =
    let (same, member, (d, e)) =
      sound.mail s (record { to = to; msg = vote_reply t v true }) sent in
    let receiver : to ≡ some x = e ∙ ap some (addressee to d x e addressed) in
    record {
      member = subst (λ w. Has w members) (sym same) member;
      other = λ i. other (sym same ∙ i);
      sent =
          subst
            (λ w.
              Has {A = String × Envelope} (w, record { to = some x; msg = vote_reply t v true })
                c.sent)
            (sym same)
            (subst
              (λ o.
                Has {A = String × Envelope} (s, record { to = o; msg = vote_reply t v true })
                  c.sent)
              receiver sent);
      fresh = once;
    }
  where
    addressee : (to : Option String) (d x : String) → to ≡ some d → Addressed to x → d ≡ x
    addressee none d x e a = absurd (ground arith)
    addressee (some y) d x e a = ground arith

module _ {members : List String} {c : Cluster} {x : String} {cause : Cause} {m : RaftNode}
    {out : List Envelope} (k : Called members c x cause m out) where
  pub Backed-after :
      (t : ℕ) (y : String) (i j : ℕ)
      → j ≤ i
      → Backed members c.counted t y i
      → Backed members (note_vote x cause c.counted) t y j
  Backed-after t y i j le b =
      Backed-mono members c.counted (note_vote x cause c.counted) t y i j
        (λ v. counted-after x cause c.counted (v, t, y)) le b

  -- The voters of a node that a vote has just reached.
  with_vote :
      (v : String) (t i : ℕ)
      → Arrival members c v t x
      → Backed members c.counted t x i
      → Backed members ((v, t, x) ∷ c.counted) t x (i + 1)
  with_vote v t i a (voters, enough, apart, each) = (
    v ∷ voters,
    omega arith,
    (λ h. elim (each v h).1 [ inl e ↦ a.other e | inr f ↦ a.fresh f ], apart),
    voter,
  )
    where
      voter :
          (w : String)
          → Has w (v ∷ voters)
          → Has w members
            × ((w ≡ x) ⊎ Has {A = String × ℕ × String} (w, t, x) ((v, t, x) ∷ c.counted))
      voter w (inl e) =
          (subst (λ z. Has z members) (sym e) a.member, inr (inl (ap (λ z. (z, t, x)) e)))
      voter w (inr h) = let (b, d) = each w h in (b, elim d [ inl e ↦ inl e | inr f ↦ inr (inr f) ])

  counted-Backed :
      (cause' : Cause) (i : ℕ)
      → Occurs c x cause'
      → GrantsVote (c.nodes x).term cause'
      → Backed members c.counted (c.nodes x).term x i
      → Backed members (note_vote x cause' c.counted) (c.nodes x).term x (i + 1)
  counted-Backed (receives (vote_reply t v true)) i o e b =
      let a = Arrives-Arrival members c x v t k.sound o in
      subst (λ u. Backed members ((v, t, x) ∷ c.counted) u x (i + 1)) e
        (with_vote v t i a (subst (λ u. Backed members c.counted u x i) (sym e) b))
  counted-Backed _ i o e b = absurd e

  -- The votes that a node stands for are members' votes, or its own.
  pub support-Backed : Backed members (note_vote x cause c.counted) m.term x (support m)
  support-Backed = go k.turn.claim
    where
      go :
          Claim cause (c.nodes x) m
          → Backed members (note_vote x cause c.counted) m.term x (support m)
      go (keeps same le) =
          subst (λ u. Backed members (note_vote x cause c.counted) u x (support m)) (sym same)
            (Backed-after (c.nodes x).term x (support (c.nodes x)) (support m) le
              (k.sound.backed x))
      go (starts le) = (x ∷ [], omega arith, (λ h. h, tt), itself)
        where
          itself :
              (v : String)
              → Has v (x ∷ [])
              → Has v members
                × ((v ≡ x)
                    ⊎ Has {A = String × ℕ × String} (v, m.term, x) (note_vote x cause c.counted))
          itself v (inl e) = (subst (λ z. Has z members) (sym e) k.member, inl e)
          itself v (inr h) = absurd h
      go (counts granted same le) =
          let counted = note_vote x cause c.counted in
          let more =
            counted-Backed cause (support (c.nodes x)) k.occurs granted (k.sound.backed x) in
          subst (λ u. Backed members counted u x (support m)) (sym same)
            (Backed-mono members counted counted (c.nodes x).term x (support (c.nodes x) + 1)
              (support m) (λ v h. h) le more)

  pub next-Backed :
      (y : String)
      → Backed members
          (note_vote x cause c.counted)
          ((after c x cause m out).nodes y).term
          y
          (support ((after c x cause m out).nodes y))
  next-Backed y =
      put_node-each (λ y n. Backed members (note_vote x cause c.counted) n.term y (support n)) x m
        c.nodes
        (λ y other.
          Backed-after (c.nodes y).term y (support (c.nodes y)) (support (c.nodes y)) (omega arith)
            (k.sound.backed y))
        support-Backed y

  Granted-after :
      (v : String) (t : ℕ) (y : String) → Granted c v t y → Granted (after c x cause m out) v t y
  Granted-after v t y h =
      append-Has (v, record { to = some y; msg = vote_reply t v true }) (map (λ e. (x, e)) out)
        c.sent h

  pub next-ballots :
      (v : String) (t : ℕ) (y : String)
      → Has {A = String × ℕ × String} (v, t, y) (note_vote x cause c.counted)
      → Has v members × (v ≢ y) × Granted (after c x cause m out) v t y
  next-ballots v t y h = go cause k.occurs h
    where
      known :
          Has {A = String × ℕ × String} (v, t, y) c.counted
          → Has v members × (v ≢ y) × Granted (after c x cause m out) v t y
      known h = let (a, b, g) = k.sound.ballots v t y h in (a, b, Granted-after v t y g)

      go :
          (cause' : Cause)
          → Occurs c x cause'
          → Has {A = String × ℕ × String} (v, t, y) (note_vote x cause' c.counted)
          → Has v members × (v ≢ y) × Granted (after c x cause m out) v t y
      go (receives (vote_reply u w true)) o (inl p) =
          let a = Arrives-Arrival members c x w u k.sound o in
          let voter : v ≡ w = ap (λ r. r.0) p in
          let term : t ≡ u = ap (λ r. r.1) p in
          let receiver : y ≡ x = ap (λ r. r.2) p in
          (
            subst (λ z. Has z members) (sym voter) a.member,
            λ e. a.other (sym voter ∙ e ∙ receiver),
            Granted-after v t y (rw (voter, term, receiver) a.sent),
          )
      go (receives (vote_reply u w true)) o (inr h) = known h
      go _ o h = known h

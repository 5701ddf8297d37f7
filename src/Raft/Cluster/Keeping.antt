-- ===== src/Raft/Cluster/Keeping.antt =====
-- A cluster of the nodes of crates/sigil-cluster/src/raft.rs is sound at the start and stays so.
use mathlib.Core.Path.{subst}
use sigil_siem.Prelude.{
  ℕ, ◌+◌, ◌≡◌, refl, sym, ◌∙◌, ap, inl, inr, String, Bool, true, false, Option, List, [], Has,
  length, arith,
}
use sigil_siem.Raft.Types.{
  RaftMsg, vote_reply, append_entries, request_vote, append_reply, Envelope, RaftNode,
}
use sigil_siem.Raft.Init.{new}
use sigil_siem.Raft.Node.{state_is_leader}
use sigil_siem.Raft.Turns.{Cause, VotesForSelf, Says}
use sigil_siem.Raft.Turning.{Calls-Turn}
use sigil_siem.Raft.Says.{Calls-Says}
use sigil_siem.Raft.Cluster.System.{
  Cluster, start, after, note_leader, Step, call, Reach, here, later,
}
use sigil_siem.Raft.Cluster.Invariant.{Told, Sound, put_node-each, after-sent, led-after}
use sigil_siem.Raft.Cluster.Called.{Called}
use sigil_siem.Raft.Cluster.Votes.{next_self, next-named, next-votes, next-one}
use sigil_siem.Raft.Cluster.Ballots.{next-ballots, next-Backed}
use sigil_siem.Raft.Cluster.Reigns.{next-own, next-reigns}

Told-grow :
    (members : List String) (led led' : List (ℕ × String)) (s : String) (to : Option String)
    (msg : RaftMsg)
    → ((p : ℕ × String) → Has p led → Has p led')
    → Told members led s to msg
    → Told members led' s to msg
Told-grow members led led' s to (vote_reply t v true) grow h = h
Told-grow members led led' s to (vote_reply t v false) grow h = tt
Told-grow members led led' s to (append_entries t l _ _ _ _) grow h = (h.0, grow (t, l) h.1)
Told-grow members led led' s to (request_vote _ _ _ _) grow h = tt
Told-grow members led led' s to (append_reply _ _ _ _) grow h = tt

leads-noted :
    (b : Bool) (t : ℕ) (x : String) (led : List (ℕ × String))
    → b ≡ true
    → Has {A = ℕ × String} (t, x) (note_leader b t x led)
leads-noted true t x led e = inl refl
leads-noted false t x led e = absurd (ground arith)

Says-Told :
    (members : List String) (led : List (ℕ × String)) (x : String) (m : RaftNode)
    (to : Option String) (msg : RaftMsg)
    → m.id ≡ x
    → Has x members
    → Says m to msg
    → Told members (note_leader (state_is_leader m.state) m.term x led) x to msg
Says-Told members led x m to (vote_reply t v true) i h (a, b, (c, e, f)) = (a ∙ i, h, (c, e))
Says-Told members led x m to (vote_reply t v false) i h s = tt
Says-Told members led x m to (append_entries t l _ _ _ _) i h (a, b, d) =
    (a ∙ i, rw (b, a ∙ i) (leads-noted (state_is_leader m.state) m.term x led d))
Says-Told members led x m to (request_vote _ _ _ _) i h s = tt
Says-Told members led x m to (append_reply _ _ _ _) i h s = tt

module _ {members : List String} {c : Cluster} {x : String} {cause : Cause} {m : RaftNode}
    {out : List Envelope} (k : Called members c x cause m out) where
  next-mail :
      (s : String) (e : Envelope)
      → Has {A = String × Envelope} (s, e) (after c x cause m out).sent
      → Told members (after c x cause m out).led s e.to e.msg
  next-mail s e h = elim (after-sent c x cause m out k.says s e h) [
    | inl old ↦
        Told-grow members c.led (after c x cause m out).led s e.to e.msg
          (led-after (state_is_leader m.state) m.term x c.led) (k.sound.mail s e old)
    | inr (same, said) ↦
        subst (λ w. Told members (after c x cause m out).led w e.to e.msg) (sym same)
          (Says-Told members c.led x m e.to e.msg (next-named k) k.member said)
  ]

  -- A call of a member for a cause that occurs keeps the cluster sound.
  pub Called-Sound : Sound members (after c x cause m out)
  Called-Sound = record {
    named = put_node-each (λ y n. n.id ≡ y) x m c.nodes (λ y _. k.sound.named y) (next-named k);
    sized =
        put_node-each (λ y n. Has y members → length n.peers + 1 ≡ length members) x m c.nodes
          (λ y _. k.sound.sized y) (λ h. ap (λ ps. length ps + 1) k.turn.peers ∙ k.sound.sized x h);
    self =
        put_node-each (λ y n. VotesForSelf n.state n) x m c.nodes (λ y _. k.sound.self y)
          (next_self k);
    leading =
        put_node-each
          (λ y n.
            state_is_leader n.state ≡ true
            → Has {A = ℕ × String} (n.term, y) (after c x cause m out).led)
          x m c.nodes
          (λ y _ l.
            led-after (state_is_leader m.state) m.term x c.led ((c.nodes y).term, y)
              (k.sound.leading y l))
          (leads-noted (state_is_leader m.state) m.term x c.led);
    mail = next-mail;
    ballots = next-ballots k;
    backed = next-Backed k;
    votes = next-votes k;
    one = next-one k;
    own = next-own k;
    reigns = next-reigns k;
  }

pub start-Sound :
    (members : List String) (peers : String → List String) (seed : String → ℕ)
    → ((x : String) → Has x members → length (peers x) + 1 ≡ length members)
    → Sound members (start peers seed)
unfolding new
start-Sound members peers seed sized = record {
  named = λ x. refl;
  sized = sized;
  self = λ x. tt;
  leading = λ x l. absurd (ground arith);
  mail = λ s e h. absurd h;
  ballots = λ v t x h. absurd h;
  backed = λ x. ([], omega arith, tt, λ v h. absurd h);
  votes = λ v t x h ne. absurd h;
  one = λ v t x y g h ne nf. absurd g;
  own = λ x t y h g. absurd h;
  reigns = λ x t h. absurd h;
}

pub Step-Sound :
    {members : List String} {c d : Cluster} → Step members c d → Sound members c → Sound members d
Step-Sound {c = c} (call x cause m out member occurs calls) sound = Called-Sound (record {
  sound = sound;
  member = member;
  occurs = occurs;
  turn = Calls-Turn cause (c.nodes x) m out calls;
  says = Calls-Says cause (c.nodes x) m out calls;
})

pub Reach-Sound :
    {members : List String} {c d : Cluster} → Reach members c d → Sound members c → Sound members d
Reach-Sound here sound = sound
Reach-Sound (later r s) sound = Step-Sound s (Reach-Sound r sound)

-- ===== src/Raft/Cluster/Invariant.antt =====
-- The invariant of a cluster of the nodes of crates/sigil-cluster/src/raft.rs, and the history that
-- a call adds to.
use mathlib.Core.Path.{subst}
use sigil_siem.Prelude.{
  ℕ, ◌+◌, ◌/◌, ◌≤◌, ◌≡◌, ◌≢◌, refl, sym, ap, ◌⊎◌, inl, inr, String, Bool, true, false, Option, some,
  List, [], ◌∷◌, map, All, Has, Apart, Has-append, length, same_or_not, eq_iff, arith,
}
use sigil_siem.Raft.Types.{RaftMsg, vote_reply, append_entries, Envelope, RaftNode}
use sigil_siem.Raft.Node.{state_is_leader}
use sigil_siem.Raft.Turns.{Cause, receives, support, VotesForSelf, Says, SaysAll}
use sigil_siem.Raft.Cluster.System.{Cluster, put_node, after, note_leader, note_vote}

-- `v` has sent its vote of term `t` to `x`.
abbrev pub Granted : Cluster → String → ℕ → String → Type 0
Granted c v t x = Has (v, record { to = some x; msg = vote_reply t v true }) c.sent

-- `k` members, each once, are `x` itself or have their vote for `x` in term `t` counted.
abbrev pub Backed : List String → List (String × ℕ × String) → ℕ → String → ℕ → Type 0
Backed members counted t x k =
    (voters : List String) × (k ≤ length voters)
    × Apart voters
    × ((v : String) → Has v voters → Has v members × ((v ≡ x) ⊎ Has (v, t, x) counted))

-- What a message in the history says of its sender.
abbrev pub Told : List String → List (ℕ × String) → String → Option String → RaftMsg → Type 0
Told members led s to (vote_reply t v true) =
    (v ≡ s) × Has s members × ((c : String) × (to ≡ some c))
Told members led s to (append_entries t l _ _ _ _) = (l ≡ s) × Has (t, l) led
Told members led s to _ = Unit

abbrev pub Reigned : List String → Cluster → ℕ → String → RaftNode → Type 0
Reigned members c t x n =
    Has x members
    × (t ≤ n.term)
    × (t ≡ n.term → state_is_leader n.state ≡ true)
    × Backed members c.counted t x (length members / 2 + 1)

-- The vote of term `t` for `x` is past, or it stands.
abbrev pub Voted : ℕ → String → RaftNode → Type 0
Voted t x n = (t ≤ n.term) × (t ≡ n.term → n.voted_for ≡ some x)

pub record Sound (members : List String) (c : Cluster) : Type 0 where
  pub named : (x : String) → (c.nodes x).id ≡ x
  pub sized : (x : String) → Has x members → length (c.nodes x).peers + 1 ≡ length members
  pub self : (x : String) → VotesForSelf (c.nodes x).state (c.nodes x)
  pub leading :
      (x : String) → state_is_leader (c.nodes x).state ≡ true → Has ((c.nodes x).term, x) c.led
  pub mail : (s : String) (e : Envelope) → Has (s, e) c.sent → Told members c.led s e.to e.msg
  pub ballots :
      (v : String) (t : ℕ) (x : String)
      → Has (v, t, x) c.counted
      → Has v members × (v ≢ x) × Granted c v t x
  pub backed : (x : String) → Backed members c.counted (c.nodes x).term x (support (c.nodes x))
  pub votes : (v : String) (t : ℕ) (x : String) → Granted c v t x → v ≢ x → Voted t x (c.nodes v)
  pub one :
      (v : String) (t : ℕ) (x y : String)
      → Granted c v t x
      → Granted c v t y
      → v ≢ x
      → v ≢ y
      → x ≡ y
  pub own : (x : String) (t : ℕ) (y : String) → Has (t, x) c.led → Granted c x t y → x ≡ y
  pub reigns : (x : String) (t : ℕ) → Has (t, x) c.led → Reigned members c t x (c.nodes x)

pub Backed-mono :
    (members : List String) (counted counted' : List (String × ℕ × String)) (t : ℕ) (x : String)
    (k j : ℕ)
    → ((v : String) → Has (v, t, x) counted → Has (v, t, x) counted')
    → j ≤ k
    → Backed members counted t x k
    → Backed members counted' t x j
Backed-mono members counted counted' t x k j grow le (voters, enough, apart, each) = (
  voters,
  omega arith,
  apart,
  λ v h. ((each v h).0, elim (each v h).1 [ inl e ↦ inl e | inr k ↦ inr (grow v k) ]),
)

-- A property of each node survives a call that gives it to the called one.
pub put_node-each :
    (P : String → RaftNode → Type 0) (x : String) (m : RaftNode) (nodes : String → RaftNode)
    → ((y : String) → y ≢ x → P y (nodes y))
    → P x m
    → (y : String) → P y (put_node x m nodes y)
put_node-each P x m nodes others called y = elim (same_or_not y x) [
  | inl same ↦
      let here : put_node x m nodes y ≡ m = ground (arith, eq_iff y x) in
      subst (P y) (sym here) (subst (λ z. P z m) (sym same) called)
  | inr other ↦
      let there : put_node x m nodes y ≡ nodes y = ground (arith, eq_iff y x) in
      subst (P y) (sym there) (others y other)
]

Has-map :
    (s x : String) (e : Envelope) (out : List Envelope)
    → Has {A = String × Envelope} (s, e) (map (λ e. (x, e)) out)
    → (s ≡ x) × Has e out
Has-map s x e [] h = absurd h
Has-map s x e (f ∷ out) (inl p) = (ap (λ r. r.0) p, inl (ap (λ r. r.1) p))
Has-map s x e (f ∷ out) (inr h) = let (a, b) = Has-map s x e out h in (a, inr b)

All-Has : (P : Envelope → Type 0) (e : Envelope) (out : List Envelope) → All P out → Has e out → P e
All-Has P e [] a h = absurd h
All-Has P e (f ∷ out) a (inl p) = subst P (sym p) a.0
All-Has P e (f ∷ out) a (inr h) = All-Has P e out a.1 h

-- A message in the history is old, or the call has sent it.
pub after-sent :
    (c : Cluster) (x : String) (cause : Cause) (m : RaftNode) (out : List Envelope)
    → SaysAll m out
    → (s : String) (e : Envelope) → Has (s, e) (after c x cause m out).sent
    → Has (s, e) c.sent ⊎ ((s ≡ x) × Says m e.to e.msg)
after-sent c x cause m out says s e h = elim (Has-append (s, e) (map (λ e. (x, e)) out) c.sent h) [
  | inr old ↦ inl old
  | inl sent ↦
      let (a, b) = Has-map s x e out sent in inr (a, All-Has (λ e. Says m e.to e.msg) e out says b)
]

pub after-led :
    (b : Bool) (t : ℕ) (x : String) (led : List (ℕ × String)) (u : ℕ) (y : String)
    → Has (u, y) (note_leader b t x led)
    → Has (u, y) led ⊎ ((y ≡ x) × (u ≡ t) × (b ≡ true))
after-led true t x led u y (inl p) = inr (ap (λ r. r.1) p, ap (λ r. r.0) p, refl)
after-led true t x led u y (inr h) = inl h
after-led false t x led u y h = inl h

pub led-after :
    (b : Bool) (t : ℕ) (x : String) (led : List (ℕ × String)) (p : ℕ × String)
    → Has p led
    → Has p (note_leader b t x led)
led-after true t x led p h = inr h
led-after false t x led p h = h

pub counted-after :
    (x : String) (cause : Cause) (counted : List (String × ℕ × String)) (p : String × ℕ × String)
    → Has p counted
    → Has p (note_vote x cause counted)
counted-after x (receives (vote_reply t v true)) counted p h = inr h
counted-after x _ counted p h = h

-- ===== src/Raft/Cluster/System.antt =====
-- A cluster of the nodes of crates/sigil-cluster/src/raft.rs: any node may tick, take a proposal or
-- receive a message that another has sent, in any order. A message may be lost or late.
use sigil_siem.Prelude.{
  ℕ, ◌≡◌, ◌≢◌, String, Bool, true, false, Option, none, some, List, [], ◌∷◌, ◌++◌, map, Has, str_eq,
}
use sigil_siem.Raft.Types.{RaftMsg, vote_reply, Envelope, RaftNode}
use sigil_siem.Raft.Init.{new}
use sigil_siem.Raft.Node.{state_is_leader}
use sigil_siem.Raft.Turns.{Cause, receives, Calls}

-- The nodes by name, and the history: what was sent and by whom, the granted votes that were
-- delivered, with voter, term and candidate, and who has led a term.
pub record Cluster : Type 0 where
  pub nodes : String → RaftNode
  pub sent : List (String × Envelope)
  pub counted : List (String × ℕ × String)
  pub led : List (ℕ × String)

abbrev pub start : (String → List String) → (String → ℕ) → Cluster
start peers seed = record {
  nodes = λ x. new x (peers x) (seed x);
  sent = [];
  counted = [];
  led = [];
}

abbrev pub Addressed : Option String → String → Type 0
Addressed none x = Unit
Addressed (some y) x = y ≡ x

-- A granted vote is delivered once.
abbrev pub Once : List (String × ℕ × String) → String → RaftMsg → Type 0
Once counted x (vote_reply t v true) = ¬ Has (v, t, x) counted
Once counted x _ = Unit

-- A message reaches a node if another one has sent it to this node or to all.
abbrev pub Arrives : Cluster → String → RaftMsg → Type 0
Arrives c x msg =
    (s : String) × (to : Option String) × Has (s, record { to = to; msg = msg }) c.sent
    × (s ≢ x)
    × Addressed to x
    × Once c.counted x msg

abbrev pub Occurs : Cluster → String → Cause → Type 0
Occurs c x (receives msg) = Arrives c x msg
Occurs c x _ = Unit

abbrev pub put_node : String → RaftNode → (String → RaftNode) → String → RaftNode
put_node x m nodes y = elim (str_eq y x) [ true ↦ m | false ↦ nodes y ]

abbrev pub note_vote : String → Cause → List (String × ℕ × String) → List (String × ℕ × String)
note_vote x (receives (vote_reply t v true)) counted = (v, t, x) ∷ counted
note_vote x _ counted = counted

abbrev pub note_leader : Bool → ℕ → String → List (ℕ × String) → List (ℕ × String)
note_leader true t x led = (t, x) ∷ led
note_leader false t x led = led

-- The cluster after a call of the node `x`.
abbrev pub after : Cluster → String → Cause → RaftNode → List Envelope → Cluster
after c x cause m out = record {
  nodes = put_node x m c.nodes;
  sent = map (λ e. (x, e)) out ++ c.sent;
  counted = note_vote x cause c.counted;
  led = note_leader (state_is_leader m.state) m.term x c.led;
}

pub data Step (members : List String) (c : Cluster) : Cluster → Type 0 where
  call :
      (x : String) (cause : Cause) (m : RaftNode) (out : List Envelope)
      → Has x members
      → Occurs c x cause
      → Calls cause (c.nodes x) m out
      → Step members c (after c x cause m out)

pub data Reach (members : List String) (c : Cluster) : Cluster → Type 0 where
  here : Reach members c c
  later : {d e : Cluster} → Reach members c d → Step members d e → Reach members c e

-- ===== src/Raft/Cluster/Samples.antt =====
-- An election in a cluster of two nodes of crates/sigil-cluster/src/raft.rs.
use sigil_siem.Prelude.{
  ◌∙◌, ltb→lt, lookup, insert, sym, eq_iff, ℕ, zero, suc, ◌+◌, ◌^◌, ◌<◌, ◌≡◌, ◌≢◌, refl, inl, inr,
  String, Bool, true, false, none, some, List, [], ◌∷◌, Has, length, str_eq, arith, ltb,
}
use sigil_siem.Raft.Types.{RaftMsg, request_vote, vote_reply}
use sigil_siem.Raft.Init.{new}
use sigil_siem.Raft.Node.{
  append_for, prev_term_at, append_message, collect_peers, become_follower, appends,
  broadcast_appends, become_leader, elected, last_index, last_term, majority, stand, start_election,
  tick, Outcome,
}
use sigil_siem.Raft.Step.{
  step, catch_up, up_to_date, on_request_vote, on_vote_reply, grants, vote_available,
}
use sigil_siem.Raft.Turns.{ticks, receives}
use sigil_siem.Raft.Cluster.System.{Cluster, Arrives, start, after, call, Reach, here, later}
use sigil_siem.Raft.Cluster.Leaders.{one_leader_a_term}

abbrev pair : List String
pair = "a" ∷ "b" ∷ []

abbrev other : String → List String
other x = elim (str_eq x "a") [ true ↦ "b" ∷ [] | false ↦ "a" ∷ [] ]

other-sized : (x : String) → Has x pair → length (other x) + 1 ≡ length pair
other-sized x h = ground arith

abbrev begin : Cluster
begin = start other (λ x. 0)

abbrev Reached : Cluster → Type 0
Reached c = (d : Cluster) × Reach pair c d

-- The cluster after `a` ticks once, or as it is where the call panics.
abbrev ticked :
    (c : Cluster) (o : Outcome)
    → tick (c.nodes "a") ≡ o
    → (c.nodes "a").term + 1 < 2 ^ 64
    → Reached c
ticked c none e room = (c, here)
ticked c (some (m, out)) e room =
    (after c "a" ticks m out, later here (call "a" ticks m out (inl refl) tt (room, e)))

abbrev tick_once : (c : Cluster) (b : Bool) → ltb ((c.nodes "a").term + 1) (2 ^ 64) ≡ b → Reached c
tick_once c true e = ticked c (tick (c.nodes "a")) refl (ltb→lt ((c.nodes "a").term + 1) (2 ^ 64) e)
tick_once c false e = (c, here)

abbrev joined : {c d e : Cluster} → Reach pair c d → Reach pair d e → Reach pair c e
joined r here = r
joined r (later q s) = later (joined r q) s

abbrev tick_times : ℕ → (c : Cluster) → Reached c
tick_times zero c = (c, here)
tick_times (suc k) c =
    let (d, r) = tick_once c (ltb ((c.nodes "a").term + 1) (2 ^ 64)) refl in
    let (e, q) = tick_times k d in (e, joined r q)

abbrev received :
    (c : Cluster) (x : String) (msg : RaftMsg) (o : Outcome)
    → Has x pair
    → Arrives c x msg
    → step msg (c.nodes x) ≡ o
    → Reached c
received c x msg none member arrives e = (c, here)
received c x msg (some (m, out)) member arrives e =
    (after c x (receives msg) m out, later here (call x (receives msg) m out member arrives e))

-- `a` has waited for its 18 ticks and asks for votes.
abbrev stood : Reached begin
unfolding tick new
stood = tick_times 18 begin

abbrev node_a : String
node_a = "a"

abbrev node_b : String
node_b = "b"

differ : node_a ≢ node_b
differ e = ground (arith, eq_iff node_a node_b)

-- `b` receives the request and `a` the vote.
abbrev asked : Reached stood.0
unfolding tick new start_election stand last_index last_term step on_request_vote
asked =
    received stood.0 "b" (request_vote 1 "a" 0 0)
      (step (request_vote 1 "a" 0 0) (stood.0.nodes "b")) (inr (inl refl))
      ("a", none, inl refl, differ, tt, tt) refl

abbrev won : Reached asked.0
unfolding tick new start_election stand last_index last_term step on_request_vote grants
    on_vote_reply become_leader elected majority broadcast_appends appends vote_available append_for
    lookup insert prev_term_at append_message collect_peers catch_up up_to_date become_follower
won =
    received asked.0 "a" (vote_reply 1 "b" true) (step (vote_reply 1 "b" true) (asked.0.nodes "a"))
      (inl refl) ("b", some "a", inl refl, λ e. differ (sym e), refl, λ h. h) refl

-- A heartbeat later.
abbrev leads_on : Reached won.0
unfolding tick new start_election stand last_index last_term step on_request_vote grants
    on_vote_reply become_leader elected majority broadcast_appends appends vote_available append_for
    lookup insert prev_term_at append_message collect_peers catch_up up_to_date become_follower
leads_on = tick_times 1 won.0

test1 : (won.0.nodes node_a).term ≡ 1
unfolding tick new start_election stand last_index last_term step on_request_vote grants
    on_vote_reply become_leader elected majority broadcast_appends appends vote_available append_for
    lookup insert prev_term_at append_message collect_peers catch_up up_to_date become_follower
test1 = refl

test2 : (leads_on.0.nodes node_a).term ≡ 1
unfolding tick new start_election stand last_index last_term step on_request_vote grants
    on_vote_reply become_leader elected majority broadcast_appends appends vote_available append_for
    lookup insert prev_term_at append_message collect_peers catch_up up_to_date become_follower
test2 = refl

one_leader_a_term_example : node_a ≡ node_a
unfolding tick new start_election stand last_index last_term step on_request_vote grants
    on_vote_reply become_leader elected majority broadcast_appends appends vote_available append_for
    lookup insert prev_term_at append_message collect_peers catch_up up_to_date become_follower
one_leader_a_term_example =
    one_leader_a_term pair other (λ x. 0) won.0 leads_on.0 node_a node_a other-sized
      (joined stood.1 (joined asked.1 won.1)) leads_on.1 refl refl (test1 ∙ sym test2)

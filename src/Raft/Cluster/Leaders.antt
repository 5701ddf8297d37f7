-- ===== src/Raft/Cluster/Leaders.antt =====
-- Leaders of a cluster of the nodes of crates/sigil-cluster/src/raft.rs.
use mathlib.Core.Path.{subst}
use sigil_siem.Prelude.{ℕ, ◌+◌, ◌≡◌, true, String, List, Has, length}
use sigil_siem.Raft.Node.{state_is_leader}
use sigil_siem.Raft.Cluster.System.{Cluster, start, Step, call, Reach, here, later}
use sigil_siem.Raft.Cluster.Invariant.{led-after}
use sigil_siem.Raft.Cluster.Safety.{Sound-one_leader}
use sigil_siem.Raft.Cluster.Keeping.{start-Sound, Reach-Sound}

Step-led :
    {members : List String} {c d : Cluster} (p : ℕ × String)
    → Step members c d
    → Has p c.led
    → Has p d.led
Step-led {c = c} p (call x cause m out member occurs calls) h =
    led-after (state_is_leader m.state) m.term x c.led p h

Reach-led :
    {members : List String} {c d : Cluster} (p : ℕ × String)
    → Reach members c d
    → Has p c.led
    → Has p d.led
Reach-led p here h = h
Reach-led p (later r s) h = Step-led p s (Reach-led p r h)

-- In a cluster where every member has one peer fewer than there are members, and from its start
-- on, whatever ticks, proposals and messages of other nodes come in whatever order, lost, late or
-- reordered, as long as no call panics, no granted vote is delivered twice and no term is at the end
-- of its 64 bits at a tick: a node that leads at one moment and a node that leads the same term at
-- that moment or later are one node.
pub one_leader_a_term :
    (members : List String) (peers : String → List String) (seed : String → ℕ) (c d : Cluster)
    (x y : String)
    → ((z : String) → Has z members → length (peers z) + 1 ≡ length members)
    → Reach members (start peers seed) c
    → Reach members c d
    → state_is_leader (c.nodes x).state ≡ true
    → state_is_leader (d.nodes y).state ≡ true
    → (c.nodes x).term ≡ (d.nodes y).term
    → x ≡ y
one_leader_a_term members peers seed c d x y sized r q lx ly e =
    let early = Reach-Sound r (start-Sound members peers seed sized) in
    let late = Reach-Sound q early in
    let led = Reach-led ((c.nodes x).term, x) q (early.leading x lx) in
    Sound-one_leader members d (d.nodes y).term x y late
      (subst (λ t. Has {A = ℕ × String} (t, x) d.led) e led) (late.leading y ly)

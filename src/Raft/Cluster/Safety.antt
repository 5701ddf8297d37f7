-- ===== src/Raft/Cluster/Safety.antt =====
-- Two leaders of one term of a sound cluster, of crates/sigil-cluster/src/raft.rs, are one node.
use mathlib.Core.Path.{subst}
use sigil_siem.Prelude.{
  ℕ, ◌≡◌, sym, ◌∙◌, ◌⊎◌, inl, inr, String, some, true, List, Has, shared_name, arith,
}
use sigil_siem.Raft.Types.{vote_reply}
use sigil_siem.Raft.Cluster.System.{Cluster}
use sigil_siem.Raft.Cluster.Invariant.{Sound}

-- The voter that two majorities share votes for one node.
one_candidate :
    (members : List String) (c : Cluster) (t : ℕ) (x y v : String)
    → Sound members c
    → Has (t, x) c.led
    → Has (t, y) c.led
    → (v ≡ x) ⊎ Has (v, t, x) c.counted
    → (v ≡ y) ⊎ Has (v, t, y) c.counted
    → x ≡ y
one_candidate members c t x y v s hx hy (inl e) (inl f) = sym e ∙ f
one_candidate members c t x y v s hx hy (inl e) (inr k) = s.own x t y hx (
    subst (λ z. Has (z, record { to = some y; msg = vote_reply t z true }) c.sent) e
      (s.ballots v t y k).2)
one_candidate members c t x y v s hx hy (inr k) (inl f) = sym (
    s.own y t x hy (
      subst (λ z. Has (z, record { to = some x; msg = vote_reply t z true }) c.sent) f
        (s.ballots v t x k).2))
one_candidate members c t x y v s hx hy (inr k) (inr l) =
    let (a, b, g) = s.ballots v t x k in let (d, e, h) = s.ballots v t y l in s.one v t x y g h b e

pub Sound-one_leader :
    (members : List String) (c : Cluster) (t : ℕ) (x y : String)
    → Sound members c
    → Has (t, x) c.led
    → Has (t, y) c.led
    → x ≡ y
Sound-one_leader members c t x y s hx hy =
    let (a, b, d, (xs, enough_x, apart_x, each_x)) = s.reigns x t hx in
    let (e, f, g, (ys, enough_y, apart_y, each_y)) = s.reigns y t hy in
    let (v, in_x, in_y) =
      shared_name xs ys members apart_x apart_y (λ w h. (each_x w h).0) (λ w h. (each_y w h).0)
        (omega arith) in
    one_candidate members c t x y v s hx hy (each_x v in_x).1 (each_y v in_y).1

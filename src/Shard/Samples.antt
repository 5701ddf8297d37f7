-- ===== src/Shard/Samples.antt =====
-- A map of eight shards with two copies on three nodes.
use sigil_siem.Prelude.{zero, suc, ◌≡◌, refl, String, some, List, [], ◌∷◌, arith, eq_iff}
use sigil_siem.Prelude.Int.{pos}
use sigil_siem.Shard.Map.{ShardMap, nodes_for, around}
use sigil_siem.Shard.Placement.{
  IsPlacement, IsDistinct, nodes_for-IsPlacement, nodes_for-IsDistinct,
}

abbrev three : ShardMap
three = record {
  shards = 8;
  replication = 2;
  time_bucket_micros = pos 0;
  nodes = "x" ∷ "y" ∷ "z" ∷ [];
}

nodes_for-IsPlacement_example :
    (out : List String) × (nodes_for three 5 ≡ some out) × IsPlacement three 5 out
nodes_for-IsPlacement_example = nodes_for-IsPlacement three 5 (omega arith)

three-IsDistinct : IsDistinct three.nodes
three-IsDistinct zero (suc zero) a b = λ e. ground (arith, eq_iff "x" "y")
three-IsDistinct zero (suc (suc zero)) a b = λ e. ground (arith, eq_iff "x" "z")
three-IsDistinct (suc zero) (suc (suc zero)) a b = λ e. ground (arith, eq_iff "y" "z")
three-IsDistinct i j a b = absurd (omega arith)

nodes_for-IsDistinct_example : IsDistinct ("z" ∷ "x" ∷ [])
unfolding nodes_for around
nodes_for-IsDistinct_example =
    nodes_for-IsDistinct three 5 ("z" ∷ "x" ∷ []) (omega arith) three-IsDistinct refl

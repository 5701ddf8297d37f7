-- ===== src/Shard/Map.antt =====
-- `ShardMap` of crates/sigil-cluster/src/shard.rs. The hasher of the standard library is a parameter.
use sigil_siem.Prelude.{
  ℕ, zero, suc, ◌+◌, ◌%◌, String, Option, none, some, List, [], ◌∷◌, length, get_elem?, min, max,
  ◌>>=◌,
}
use sigil_siem.Prelude.Int.{ℤ, pos, negsuc, div_trunc}

pub record ShardMap : Type 0 where
  pub shards : ℕ  -- u32
  pub replication : ℕ  -- u32
  pub time_bucket_micros : ℤ
  pub nodes : List String

unfoldable pub new : ℕ → ℕ → List String → ShardMap
new shards replication nodes = record {
  shards = max shards 1;
  replication = max replication 1;
  time_bucket_micros = pos 0;
  nodes = nodes;
}

-- `micros.max(0)`
unfoldable pub with_time_bucket : ShardMap → ℤ → ShardMap
with_time_bucket m (pos n) = record m { time_bucket_micros = pos n }
with_time_bucket m (negsuc n) = record m { time_bucket_micros = pos 0 }

-- What is hashed beside the key: the time bucket, if there is one.
abbrev pub bucket : ℤ → ℤ → Option ℤ
bucket (pos zero) ts = none
bucket (pos (suc n)) ts = some (div_trunc ts (suc n))
bucket (negsuc n) ts = none

-- The nodes at the places `start + i` and on, `k` of them, around the ring. Indexing out of range
-- would panic: `none`.
unfoldable pub around : List String → ℕ → ℕ → ℕ → Option (List String)
around nodes start zero i = some []
around nodes start (suc k) i = do
  x ← get_elem? nodes ((start + i) % length nodes)
  rest ← around nodes start k (i + 1)
  some (x ∷ rest)

abbrev pub nodes_among : ShardMap → ℕ → List String → Option (List String)
nodes_among m shard [] = some []
nodes_among m shard (x ∷ xs) =
    let n = length m.nodes in around m.nodes (shard % n) (min m.replication n) 0

unfoldable pub nodes_for : ShardMap → ℕ → Option (List String)
nodes_for m shard = nodes_among m shard m.nodes

-- The hash of a key and a bucket.
module _ (finish : String → Option ℤ → ℕ) where
  unfoldable pub shard_for : ShardMap → String → ℤ → ℕ
  shard_for m key ts = finish key (bucket m.time_bucket_micros ts) % m.shards

  -- The first of the shard's nodes; the outer `none` is a panic.
  unfoldable pub primary_for : ShardMap → String → ℤ → Option (Option String)
  unfolding shard_for
  primary_for m key ts = do nodes ← nodes_for m (shard_for m key ts); some (get_elem? nodes 0)

-- ===== src/Shard/Placement.antt =====
-- Where crates/sigil-cluster/src/shard.rs places a shard.
use native.Mathlib.Nat.{mod-eq_of_lt, mod-eq-sub-mod, add-zero, zero-add, mod-lt}
use mathlib.Core.Path.{subst}
use sigil_siem.Prelude.{
  ℕ, zero, suc, ◌+◌, ◌%◌, ◌<◌, ◌≡◌, ◌≢◌, refl, sym, ◌∙◌, ap, String, Option, some, List, [], ◌∷◌,
  length, get_elem?, get_elem?-total, min, ltb, ltb→lt, Bool-cases, inl, inr, arith,
}
use sigil_siem.Prelude.Int.{ℤ}
use sigil_siem.Shard.Map.{ShardMap, around, nodes_for, nodes_among, shard_for}

-- The shard of a key lies among the shards of the map, whatever the hash.
pub shard_for-lt :
    (finish : String → Option ℤ → ℕ) (m : ShardMap) (key : String) (ts : ℤ)
    → 0 < m.shards
    → shard_for finish m key ts < m.shards
unfolding shard_for
shard_for-lt finish m key ts h = grind arith

-- A step round the ring of `n` places, less than a full round, leads elsewhere.
step_apart : (a i j n : ℕ) → a < n → i < j → j < n → (a + i) % n ≢ (a + j) % n
step_apart a i j n ha hij hj = grind (arith, mod-eq_of_lt, mod-eq-sub-mod)

-- What is at each place of a run around the ring.
abbrev pub Placed : List String → ℕ → ℕ → List String → Type 0
Placed nodes start first out =
    (i : ℕ)
    → i < length out
    → get_elem? out i ≡ get_elem? nodes ((start + (first + i)) % length nodes)

Placed-cons :
    (nodes : List String) (start first : ℕ) (x : String) (rest : List String)
    → get_elem? nodes ((start + first) % length nodes) ≡ some x
    → Placed nodes start (first + 1) rest
    → Placed nodes start first (x ∷ rest)
Placed-cons nodes start first x rest e h zero b = rw add-zero (sym e)
Placed-cons nodes start first x rest e h (suc i) b =
    h i (omega arith)
    ∙ ap (λ j. get_elem? nodes ((start + j) % length nodes))
        (let j : first + 1 + i ≡ first + suc i = omega arith in j)

around-total :
    (nodes : List String) (start k i : ℕ)
    → 0 < length nodes
    → (out : List String) × (around nodes start k i ≡ some out)
      × (length out ≡ k)
      × Placed nodes start i out
unfolding around
around-total nodes start zero i h = ([], refl, refl, λ j b. absurd (omega arith))
around-total nodes start (suc k) i h =
    let (x, e) = get_elem?-total nodes ((start + i) % length nodes) (grind arith) in
    let (rest, r, size, placed) = around-total nodes start k (i + 1) h in
    (x ∷ rest, ground arith, ap suc size, Placed-cons nodes start i x rest e placed)

-- What `nodes_for` promises: with a node in the map it does not panic; it lists `replication` nodes,
-- or all if there are fewer; and the `i`-th is the `i`-th after the shard's own place on the ring.
abbrev pub IsPlacement : ShardMap → ℕ → List String → Type 0
IsPlacement m shard out =
    (length out ≡ min m.replication (length m.nodes))
    × ((i : ℕ)
        → i < length out
        → get_elem? out i ≡ get_elem? m.nodes ((shard % length m.nodes + i) % length m.nodes))

-- In a map with nodes a shard has its placement.
pub nodes_for-IsPlacement :
    (m : ShardMap) (shard : ℕ)
    → 0 < length m.nodes
    → (out : List String) × (nodes_for m shard ≡ some out) × IsPlacement m shard out
unfolding nodes_for
nodes_for-IsPlacement m shard h = placed_of m.nodes refl h
  where
    placed_of :
        (xs : List String)
        → xs ≡ m.nodes
        → 0 < length xs
        → (out : List String) × (nodes_among m shard xs ≡ some out) × IsPlacement m shard out
    placed_of [] e pos = absurd (omega arith)
    placed_of (x ∷ xs) e pos =
        let (out, r, size, placed) =
          around-total m.nodes (shard % length m.nodes) (min m.replication (length m.nodes)) 0 h in
        (
          out,
          r,
          (
            size,
            λ i b.
                placed i b
                ∙ ap (λ j. get_elem? m.nodes ((shard % length m.nodes + j) % length m.nodes))
                    (zero-add i),
          ),
        )

-- No name stands at two places.
abbrev pub IsDistinct : List String → Type 0
IsDistinct xs = (i j : ℕ) → i < j → j < length xs → get_elem? xs i ≢ get_elem? xs j

IsDistinct-ne :
    (xs : List String) (p q : ℕ)
    → IsDistinct xs
    → p < length xs
    → q < length xs
    → p ≢ q
    → get_elem? xs p ≢ get_elem? xs q
IsDistinct-ne xs p q d hp hq n e = elim (Bool-cases (ltb p q)) [
  | inl below ↦ d p q (ltb→lt p q below) hq e
  | inr above ↦ d q p (ground arith) hp (sym e)
]

IsPlacement-IsDistinct :
    (m : ShardMap) (shard : ℕ) (out : List String)
    → 0 < length m.nodes
    → IsDistinct m.nodes
    → IsPlacement m shard out
    → IsDistinct out
IsPlacement-IsDistinct m shard out h d (size, placed) i j hij hj same =
    let n = length m.nodes in
    let a = shard % n in
    let small : a < n = mod-lt shard h in
    IsDistinct-ne m.nodes ((a + i) % n) ((a + j) % n) d (mod-lt (a + i) h) (mod-lt (a + j) h)
      (step_apart a i j n small hij (omega arith))
      (sym (placed i (omega arith)) ∙ same ∙ placed j hj)

-- The copies of a shard lie on different nodes, if the nodes of the map are different.
pub nodes_for-IsDistinct :
    (m : ShardMap) (shard : ℕ) (out : List String)
    → 0 < length m.nodes
    → IsDistinct m.nodes
    → nodes_for m shard ≡ some out
    → IsDistinct out
nodes_for-IsDistinct m shard out h d e =
    let (out', r, p) = nodes_for-IsPlacement m shard h in
    let same : out' ≡ out = cc (e, r) in
    subst IsDistinct same (IsPlacement-IsDistinct m shard out' h d p)

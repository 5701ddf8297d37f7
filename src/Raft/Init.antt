-- ===== src/Raft/Init.antt =====
-- `RaftNode::new` of crates/sigil-cluster/src/raft.rs, with the election timeout drawn from the seed.
use Prim.Native.Nat.{bit_xor}
use Prim.Native.Char.{code}
use sigil_siem.Prelude.{
  ℕ, ◌+◌, ◌*◌, ◌/◌, ◌%◌, ◌≤◌, String, none, List, [], ◌∷◌, ◌++◌, ltb, if◌then◌else◌, arith,
}
use sigil_siem.Raft.Types.{RaftNode, follower, u64}

-- The UTF-8 bytes of a code point.
unfoldable pub utf8 : ℕ → List ℕ
utf8 c =
    if ltb c 0x80
    then c ∷ []
    else if ltb c 0x800
    then (0xc0 + c / 64) ∷ (0x80 + c % 64) ∷ []
    else if ltb c 0x10000
    then (0xe0 + c / 4096) ∷ (0x80 + c / 64 % 64) ∷ (0x80 + c % 64) ∷ []
    else (0xf0 + c / 262144) ∷ (0x80 + c / 4096 % 64) ∷ (0x80 + c / 64 % 64) ∷ (0x80 + c % 64) ∷ []

-- `id.bytes()`
unfoldable pub bytes : String → List ℕ
unfolding utf8
bytes String.[] = []
bytes (String.◌∷◌ c s) = utf8 (code c) ++ bytes s

-- The loop of `new` that mixes the identifier into the seed.
unfoldable pub mix : ℕ → List ℕ → ℕ
mix x [] = x
mix x (b ∷ bs) = mix (u64 (u64 (x * 0x100000001b3) + b)) bs

unfoldable pub new : String → List String → ℕ → RaftNode
unfolding bytes mix
new id peers seed = record {
  id = id;
  peers = peers;
  state = follower;
  term = 0;
  voted_for = none;
  log = [];
  commit = 0;
  leader_hint = none;
  quiet_ticks = 0;
  election_after = 10 + mix (bit_xor seed 0x5851f42d4c957f2d) (bytes id) % 10;
  heartbeat_every = 3;
}

-- Whatever the seed and the name, a node waits 10 to 19 ticks for a leader before it stands, which
-- is at least three heartbeats of a leader.
pub new-timeout :
    (id : String) (peers : List String) (seed : ℕ)
    → let n = new id peers seed in
      (10 ≤ n.election_after) × (n.election_after ≤ 19) × (3 * n.heartbeat_every ≤ n.election_after)
unfolding new
new-timeout id peers seed = omega arith

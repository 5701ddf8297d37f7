-- ===== src/Raft/Run.antt =====
-- Runs of a node of crates/sigil-cluster/src/raft.rs: ticks and messages in any order.
use sigil_siem.Prelude.{◌+◌, ◌≤◌, ◌<◌, ◌^◌, ◌≡◌, some, List, arith}
use sigil_siem.Raft.Types.{RaftMsg, Envelope, RaftNode}
use sigil_siem.Raft.Node.{tick}
use sigil_siem.Raft.Step.{step}
use sigil_siem.Raft.Frame.{step-term_mono, tick-vote}

-- `Run P n k`: the node goes from `n` to `k` by ticks and by messages of which `P` holds, without
-- a panic, and no tick finds the term at the end of its 64 bits.
pub data Run (P : RaftMsg → Type 0) : RaftNode → RaftNode → Type 0 where
  here : {n : RaftNode} → Run P n n
  receive :
      {n m k : RaftNode} (msg : RaftMsg) (out : List Envelope)
      → P msg
      → step msg n ≡ some (m, out)
      → Run P m k
      → Run P n k
  wait :
      {n m k : RaftNode} (out : List Envelope)
      → n.term + 1 < 2 ^ 64
      → tick n ≡ some (m, out)
      → Run P m k
      → Run P n k

pub tick-term_mono :
    (n m : RaftNode) (out : List Envelope)
    → n.term + 1 < 2 ^ 64
    → tick n ≡ some (m, out)
    → n.term ≤ m.term
tick-term_mono n m out room h = ground (arith, tick-vote n m out)

-- Along every run the term only grows.
pub Run-term_mono : {P : RaftMsg → Type 0} {n k : RaftNode} → Run P n k → n.term ≤ k.term
Run-term_mono here = omega arith
Run-term_mono (receive {n = n} {m = m} msg out p h r) =
    omega (arith, step-term_mono msg n m out h, Run-term_mono r)
Run-term_mono (wait {n = n} {m = m} out room h r) =
    omega (arith, tick-term_mono n m out room h, Run-term_mono r)

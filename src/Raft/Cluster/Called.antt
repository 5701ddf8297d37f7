-- ===== src/Raft/Cluster/Called.antt =====
-- A call in a sound cluster of the nodes of crates/sigil-cluster/src/raft.rs.
use sigil_siem.Prelude.{String, List, Has}
use sigil_siem.Raft.Types.{Envelope, RaftNode}
use sigil_siem.Raft.Turns.{Cause, SaysAll, Turn}
use sigil_siem.Raft.Cluster.System.{Cluster, Occurs}
use sigil_siem.Raft.Cluster.Invariant.{Sound}

-- The node `x` is a member and is called for a cause that occurs.
pub record Called (members : List String) (c : Cluster) (x : String) (cause : Cause) (m : RaftNode)
    (out : List Envelope) : Type 0 where
  pub sound : Sound members c
  pub member : Has x members
  pub occurs : Occurs c x cause
  pub turn : Turn cause (c.nodes x) m
  pub says : SaysAll m out

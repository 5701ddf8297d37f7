-- ===== src/Raft/Driver.antt =====
-- `RaftDriver` of crates/sigil-cluster/src/raft.rs: what it does with a received payload, and where
-- it publishes what the node sends. The codec of the messages (serde_json) is a parameter.
use Prim.Native.String.{◌++◌ as str_append}
use text.Mathlib.TextLemmas.{append_cancel_left}
use text.Mathlib.TextPositions.{eq_refl}
use sigil_siem.Prelude.{
  ◌≡◌, String, Bool, false, Option, none, some, List, [], ◌∷◌, arith, str_eq, if◌then◌else◌,
}
use sigil_siem.Raft.Types.{RaftMsg, request_vote, Envelope, RaftNode}
use sigil_siem.Raft.Node.{Outcome, start_election, last_index, last_term}
use sigil_siem.Raft.Step.{step}

-- `format!("raft.{cluster}.{node}")`
unfoldable pub topic_for : String → String → String
topic_for cluster node = str_append "raft." (str_append cluster (str_append "." node))

unfoldable pub topic_bcast : String → String
unfolding topic_for
topic_bcast cluster = topic_for cluster "bcast"

-- The node's own request for votes, heard on the broadcast topic.
unfoldable pub own_request : RaftNode → RaftMsg → Bool
own_request n (request_vote term c index last) = str_eq c n.id
own_request n _ = false

unfoldable pub handle : RaftNode → RaftMsg → Outcome
unfolding own_request
handle n msg = if own_request n msg then some (n, []) else step msg n

-- What the source relies on of the codec: what it writes it reads back. The driver hands payloads
-- on without looking into them, so that their type is left open.
pub record Codec : Type 1 where
  pub Payload : Type 0
  pub encode : RaftMsg → Payload
  pub decode : Payload → Option RaftMsg
  pub decode-encode : (msg : RaftMsg) → decode (encode msg) ≡ some msg

module _ (codec : Codec) where
  -- `none` is a lagged or closed receiver.
  unfoldable pub decode_step : RaftNode → Option codec.Payload → Outcome
  unfolding handle
  decode_step n none = some (n, [])
  decode_step n (some bytes) = elim (codec.decode bytes) [
    | none ↦ some (n, [])
    | some msg ↦ handle n msg
  ]

  unfoldable pub topic_of : String → Option String → String
  topic_of cluster none = topic_bcast cluster
  topic_of cluster (some node) = topic_for cluster node

  -- The payloads that `send` publishes, each with its topic.
  unfoldable pub send : String → List Envelope → List (String × codec.Payload)
  unfolding topic_of
  send cluster [] = []
  send cluster (env ∷ envs) = (topic_of cluster env.to, codec.encode env.msg) ∷ send cluster envs

  -- An election with peers is announced once, on the broadcast topic; and the candidate, which hears
  -- the announcement too, neither answers it nor changes.
  pub own_election_ignored :
      (n m : RaftNode) (p : String) (ps : List String) (cluster : String) (out : List Envelope)
      → n.peers ≡ p ∷ ps
      → start_election n ≡ some (m, out)
      → (payload : codec.Payload) × (send cluster out ≡ (topic_bcast cluster, payload) ∷ [])
        × (decode_step m (some payload) ≡ some (m, []))
  unfolding start_election send decode_step
  own_election_ignored n m p ps cluster out e h = (
    codec.encode (request_vote m.term m.id (last_index m) (last_term m)),
    ground arith,
    ground (
      arith,
      codec.decode-encode (request_vote m.term m.id (last_index m) (last_term m)),
      eq_refl m.id,
    ),
  )

-- Envelopes for two nodes of a cluster go to two topics.
pub topic_for-injective : (cluster a b : String) → topic_for cluster a ≡ topic_for cluster b → a ≡ b
unfolding topic_for
topic_for-injective cluster a b h =
    append_cancel_left "." a b (append_cancel_left cluster _ _ (append_cancel_left "raft." _ _ h))

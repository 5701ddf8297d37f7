-- ===== src/Edr/Registry.antt =====
-- The fleet registry of crates/sigil-edr/src/registry.rs: agents kept as saved objects, and their
-- live sessions in memory. A channel is a number, the count of the channels made before it; the
-- receiver of a channel ends when no session holds its sender. The source's map of sessions is a
-- function here. Clock, new identifiers and tokens are given by the caller.
use sigil_siem.Prelude.{
  ℕ, suc, Bool, false, not, ◌&&◌, Option, none, some, List, map, ◌>>=◌, unwrap_or, if◌then◌else◌,
}
use sigil_siem.Prelude.Texts.{Text, text_eq, codes}
use sigil_siem.Event.Model.{Timestamp}
use sigil_siem.Store.Tables.{Backend, Store}
use sigil_siem.Store.Alerts.{newest_first}
use sigil_siem.Store.Saved.{put_saved, get_saved, list_saved}
use sigil_siem.Edr.Codec.{Codec, body_of, bodies}
use sigil_siem.Edr.Tokens.{is_empty, is_some}

abbrev pub agent_kind : Text
agent_kind = codes "edr-agent"

-- The fields of `pb::EnrollRequest` that the registry reads.
pub record EnrollRequest : Type 0 where
  pub enrollment_token : Text
  pub hostname : Text
  pub os : Text
  pub os_version : Text
  pub agent_version : Text
  pub fingerprint : Text

pub record AgentRecord : Type 0 where
  pub agent_id : Text
  pub hostname : Text
  pub os : Text
  pub os_version : Text
  pub agent_version : Text
  pub fingerprint : Text
  pub session_token : Text
  pub enrolled_ts : Timestamp
  pub last_seen : Timestamp
  pub isolated : Bool

pub record AgentView : Type 0 where
  pub agent_id : Text
  pub hostname : Text
  pub os : Text
  pub os_version : Text
  pub agent_version : Text
  pub enrolled_ts : Timestamp
  pub last_seen : Timestamp
  pub connected : Bool
  pub isolated : Bool

pub record LiveSession : Type 0 where
  pub command_tx : ℕ
  pub last_seen : Timestamp
  pub isolated : Bool

pub record AgentRegistry (B : Backend) : Type 0 where
  pub store : Store B
  pub live : Text → Option LiveSession
  pub channels : ℕ

abbrev pub set_live :
    Text → Option LiveSession → (Text → Option LiveSession) → Text → Option LiveSession
set_live agent_id session live other = if text_eq agent_id other then session else live other

-- `is_some_and` of a session or a record.
abbrev pub some_and {ℓ} : {A : Type ℓ} → Option A → (A → Bool) → Bool
some_and none test = false
some_and (some a) test = test a

abbrev pub isolated_of : Option LiveSession → Bool → Bool
isolated_of none otherwise = otherwise
isolated_of (some session) otherwise = session.isolated

abbrev pub seen_of : Option LiveSession → Timestamp → Timestamp
seen_of none otherwise = otherwise
seen_of (some session) otherwise = session.last_seen

unfoldable pub view : {B : Backend} → AgentRegistry B → AgentRecord → AgentView
view reg rec =
    let session = reg.live rec.agent_id in
    record {
      agent_id = rec.agent_id;
      hostname = rec.hostname;
      os = rec.os;
      os_version = rec.os_version;
      agent_version = rec.agent_version;
      enrolled_ts = rec.enrolled_ts;
      last_seen = seen_of session rec.last_seen;
      connected = is_some session;
      isolated = isolated_of session rec.isolated;
    }

-- `connect`, with the channel whose receiver it returns.
unfoldable pub connect : {B : Backend} → Timestamp → AgentRegistry B → Text → AgentRegistry B × ℕ
connect now reg agent_id =
    let session : LiveSession = record {
      command_tx = reg.channels;
      last_seen = now;
      isolated = isolated_of (reg.live agent_id) false;
    } in
    (
      record reg { live = set_live agent_id (some session) reg.live; channels = suc reg.channels },
      reg.channels,
    )

abbrev pub beat : Timestamp → Bool → Option LiveSession → Option LiveSession
beat now isolated none = none
beat now isolated (some s) = some (record s { last_seen = now; isolated = isolated })

unfoldable pub heartbeat :
    {B : Backend} → Timestamp → AgentRegistry B → Text → Bool → AgentRegistry B
heartbeat now reg agent_id isolated = record reg {
  live = set_live agent_id (beat now isolated (reg.live agent_id)) reg.live;
}

unfoldable pub command_sender : {B : Backend} → AgentRegistry B → Text → Option ℕ
command_sender reg agent_id = reg.live agent_id >>= λ s. some s.command_tx

unfoldable pub is_connected : {B : Backend} → AgentRegistry B → Text → Bool
is_connected reg agent_id = is_some (reg.live agent_id)

-- The record of an agent that has just enrolled.
abbrev pub enrolled : Timestamp → Text → EnrollRequest → Text → AgentRecord
enrolled now fresh req session_token = record {
  agent_id = fresh;
  hostname = req.hostname;
  os = req.os;
  os_version = req.os_version;
  agent_version = req.agent_version;
  fingerprint = req.fingerprint;
  session_token = session_token;
  enrolled_ts = now;
  last_seen = now;
  isolated = false;
}

module _ {B : Backend} (c : Codec B.Value AgentRecord) where
  unfoldable pub persist_agent : Timestamp → Store B → AgentRecord → Option (Store B)
  persist_agent now store rec = do
    body ← c.to_value rec
    put_saved store (record {
      kind = agent_kind;
      id = rec.agent_id;
      name = rec.hostname;
      owner = none;
      updated_ts = now;
      body = body;
    })

  -- `record`: a body that does not parse counts as missing.
  unfoldable pub agent_record : Store B → Text → Option (Option AgentRecord)
  agent_record store agent_id =
      get_saved store agent_kind agent_id >>= λ found. some (body_of c found)

  -- `persisted` is the reading of the clock in `persist`.
  unfoldable pub enroll :
      Timestamp → Timestamp → Text → Store B → EnrollRequest → Text → Option (Store B × AgentRecord)
  unfolding persist_agent
  enroll now persisted fresh store req session_token =
      let rec = enrolled now fresh req session_token in
      persist_agent persisted store rec >>= λ s. some (s, rec)

  unfoldable pub validate_session : Store B → Text → Text → Option Bool
  unfolding agent_record
  validate_session store agent_id token = do
    found ← agent_record store agent_id
    some (some_and found (λ r. not (is_empty token) && text_eq r.session_token token))

  -- The store after a session ends; an error of the store is ignored.
  abbrev pub save_session :
      Timestamp → Store B → LiveSession → Option (Option AgentRecord) → Store B
  save_session now store session (some (some rec)) =
      unwrap_or
        (persist_agent now store
          (record rec { last_seen = session.last_seen; isolated = session.isolated }))
        store
  save_session now store session _ = store

  abbrev pub end_session : Timestamp → AgentRegistry B → Text → Option LiveSession → AgentRegistry B
  end_session now reg agent_id none = reg
  end_session now reg agent_id (some session) = record reg {
    live = set_live agent_id none reg.live;
    store = save_session now reg.store session (agent_record reg.store agent_id);
  }

  unfoldable pub disconnect : Timestamp → AgentRegistry B → Text → AgentRegistry B
  unfolding persist_agent agent_record
  disconnect now reg agent_id = end_session now reg agent_id (reg.live agent_id)

  unfoldable pub list_agents : AgentRegistry B → Option (List AgentView)
  unfolding view
  list_agents reg = do
    objs ← list_saved reg.store agent_kind
    some (newest_first (λ v. v.enrolled_ts) (map (view reg) (bodies c objs)))

  abbrev pub viewed : AgentRegistry B → Option AgentRecord → Option AgentView
  viewed reg none = none
  viewed reg (some rec) = some (view reg rec)

  unfoldable pub get_agent : AgentRegistry B → Text → Option (Option AgentView)
  unfolding agent_record view
  get_agent reg agent_id = agent_record reg.store agent_id >>= λ found. some (viewed reg found)

-- ===== src/Edr/Commands.antt =====
-- Commands to agents and their results, crates/sigil-edr/src/queue.rs.
use sigil_siem.Prelude.{
  ℕ, ◌*◌, Bool, ◌||◌, Option, none, some, List, [], ◌∷◌, map, length, if◌then◌else◌, unwrap_or,
}
use sigil_siem.Prelude.Texts.{Text, text_eq, codes, ascii_lower}
use sigil_siem.Event.Model.{Timestamp}

abbrev pub command_kind : Text
command_kind = codes "edr-command"

pub record CommandParams : Type 0 where
  pub pid : Option ℕ
  pub hash_sha256 : Option Text
  pub path : Option Text
  pub max_bytes : Option ℕ
  pub allowlist_cidrs : Option (List Text)

pub record CommandRecord : Type 0 where
  pub command_id : Text
  pub agent_id : Text
  pub command_type : Text
  pub params : CommandParams
  pub status : Text
  pub issued_by : Text
  pub issued_ts : Timestamp
  pub result_ok : Option Bool
  pub result_message : Option Text
  pub result_bytes : Option ℕ
  pub completed_ts : Option Timestamp

-- `pb::CommandType` without `Unspecified`, which no text is parsed to.
pub data CommandType : Type 0 where
  kill_process : CommandType
  quarantine_file : CommandType
  isolate_host : CommandType
  unisolate_host : CommandType
  fetch_file : CommandType

abbrev pub type_named : Text → Option CommandType
type_named s =
    if text_eq s (codes "kill_process") || text_eq s (codes "kill")
    then some kill_process
    else if text_eq s (codes "quarantine_file") || text_eq s (codes "quarantine")
    then some quarantine_file
    else if text_eq s (codes "isolate_host") || text_eq s (codes "isolate")
    then some isolate_host
    else if text_eq s (codes "unisolate_host") || text_eq s (codes "unisolate")
    then some unisolate_host
    else if text_eq s (codes "fetch_file") || text_eq s (codes "fetch")
    then some fetch_file
    else none

unfoldable pub parse_command_type : Text → Option CommandType
parse_command_type s = type_named (map ascii_lower s)

-- What of `pb::Command` is set, by its type.
pub data Payload : Type 0 where
  kill : ℕ → Text → Payload
  quarantine : Text → Text → Payload
  isolate : List Text → Payload
  unisolate : Payload
  fetch : Text → ℕ → Payload

pub record Command : Type 0 where
  pub command_id : Text
  pub payload : Payload

abbrev pub payload_of : CommandType → CommandParams → Payload
payload_of kill_process p = kill (unwrap_or p.pid 0) (unwrap_or p.hash_sha256 [])
payload_of quarantine_file p = quarantine (unwrap_or p.path []) (unwrap_or p.hash_sha256 [])
payload_of isolate_host p = isolate (unwrap_or p.allowlist_cidrs [])
payload_of unisolate_host p = unisolate
payload_of fetch_file p = fetch (unwrap_or p.path []) (unwrap_or p.max_bytes (1024 * 1024))

unfoldable pub build_command : Text → CommandType → CommandParams → Command
build_command command_id ctype params = record {
  command_id = command_id;
  payload = payload_of ctype params;
}

-- `pb::CommandResult`
pub record CommandResult : Type 0 where
  pub command_id : Text
  pub ok : Bool
  pub message : Text
  pub payload : List ℕ

abbrev pub bytes_of : List ℕ → Option ℕ → Option ℕ
bytes_of [] held = held
bytes_of (b ∷ bs) held = some (length (b ∷ bs))

-- The record after the agent's result.
unfoldable pub completed : Timestamp → CommandResult → CommandRecord → CommandRecord
completed now result rec = record rec {
  status = if result.ok then codes "completed" else codes "failed";
  result_ok = some result.ok;
  result_message = some result.message;
  result_bytes = bytes_of result.payload rec.result_bytes;
  completed_ts = some now;
}

abbrev pub new_command : Timestamp → Text → Text → Text → CommandParams → Text → CommandRecord
new_command now fresh agent_id command_type params issued_by = record {
  command_id = fresh;
  agent_id = agent_id;
  command_type = command_type;
  params = params;
  status = codes "pending";
  issued_by = issued_by;
  issued_ts = now;
  result_ok = none;
  result_message = none;
  result_bytes = none;
  completed_ts = none;
}

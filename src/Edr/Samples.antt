-- ===== src/Edr/Samples.antt =====
-- Tokens, an agent that enrols and connects twice, and a command whose result comes while it is sent.
use sigil_siem.Edr.Gateway.{Gateway, hello, finish, task_of, is_closed}
use sigil_siem.Prelude.{
  Has, ◌≡◌, refl, ◌⊎◌, true, false, not, ◌&&◌, Option, none, some, List, [], ◌∷◌, unwrap_or,
}
use sigil_siem.Prelude.Texts.{codes, text_eq, ascii_lower}
use sigil_siem.Prelude.Int.{pos}
use sigil_siem.Event.Model.{get}
use sigil_siem.Detection.Compile.{put_selection}
use sigil_siem.Store.Tables.{Store}
use sigil_siem.Store.Alerts.{parsed_row}
use sigil_siem.Store.Saved.{saved_key, put_saved, get_saved, delete_saved}
use sigil_siem.Store.Memory.{memory, memory-IsLawful, empty_store, without}
use sigil_siem.Edr.Codec.{Codec, IsRoundTrip}
use sigil_siem.Edr.Tokens.{TokenRecord, is_empty, issue, write, revoke, valid}
use sigil_siem.Edr.Calls.{TokenCall, calls, accepts, calls-valid}
use sigil_siem.Edr.Registry.{
  AgentRecord, AgentRegistry, EnrollRequest, enroll, enrolled, persist_agent, agent_record, connect,
  command_sender, is_connected, validate_session,
}
use sigil_siem.Edr.Sessions.{enroll-validate_session, reconnect_lost}
use sigil_siem.Edr.Commands.{
  CommandParams, CommandRecord, CommandResult, CommandType, build_command, new_command,
  parse_command_type,
}
use sigil_siem.Edr.Queue.{Delivery, persist, get_command, record_result, enqueue, with_store}
use sigil_siem.Edr.Lifecycle.{IsDone, Delivers, record_result-completed, enqueue-Delivers}

-- JSON values that are the records.
abbrev plain : (A : Type 0) → Codec A A
plain A = record { to_value = λ a. some a; from_value = λ a. some a }

plain-IsRoundTrip : (A : Type 0) → IsRoundTrip (plain A)
plain-IsRoundTrip A a v e = let same : a ≡ v = cc in cc

abbrev issue_revoke : List TokenCall
issue_revoke =
    TokenCall.issue_call (pos 1) (codes "t") refl (codes "lab") none
    ∷ TokenCall.revoke_call (codes "t")
    ∷ []

calls-valid_example :
    valid (empty_store TokenRecord) ≡ accepts issue_revoke (valid (empty_store TokenRecord))
unfolding calls issue write revoke delete_saved put_saved put_selection without text_eq saved_key
calls-valid_example =
    calls-valid (memory-IsLawful TokenRecord) (plain TokenRecord) issue_revoke
      (empty_store TokenRecord) (empty_store TokenRecord) refl

abbrev laptop : EnrollRequest
laptop = record {
  enrollment_token = codes "t";
  hostname = codes "h";
  os = codes "linux";
  os_version = [];
  agent_version = [];
  fingerprint = [];
}

abbrev agent : AgentRecord
agent = enrolled (pos 1) (codes "a1") laptop (codes "s")

enroll-validate_session_example :
    (agent.agent_id ≡ codes "a1")
    × (validate_session
          (plain AgentRecord)
          (unwrap_or
            (persist_agent (plain AgentRecord) (pos 2) (empty_store AgentRecord) agent)
            (empty_store AgentRecord))
          (codes "a1")
          (codes "s")
        ≡ some (not (is_empty (codes "s")) && text_eq (codes "s") (codes "s")))
unfolding enroll persist_agent put_saved
enroll-validate_session_example =
    enroll-validate_session (memory-IsLawful AgentRecord) (plain AgentRecord) (pos 1) (pos 2)
      (codes "a1") (empty_store AgentRecord) _ laptop (codes "s") (codes "s") agent
      (plain-IsRoundTrip AgentRecord) refl

-- A gateway whose store has the agent.
abbrev idle : Gateway (memory AgentRecord)
idle = record {
  registry = record {
    store =
        unwrap_or (persist_agent (plain AgentRecord) (pos 2) (empty_store AgentRecord) agent)
          (empty_store AgentRecord);
    live = λ a. none;
    channels = 0;
  };
  tasks = [];
}

abbrev once : Gateway (memory AgentRecord)
once = (hello (plain AgentRecord) (pos 3) idle (codes "a1") (codes "s")).0

abbrev twice : Gateway (memory AgentRecord)
twice = (hello (plain AgentRecord) (pos 4) once (codes "a1") (codes "s")).0

reconnect_lost_example :
    let after = finish (plain AgentRecord) (pos 5) twice (task_of (codes "a1") 0) in
    (is_closed twice (task_of (codes "a1") 0) ≡ true)
    × (is_closed twice (task_of (codes "a1") 1) ≡ false)
    × Has (task_of (codes "a1") 1) after.tasks
    × (is_connected after.registry (codes "a1") ≡ false)
    × (command_sender after.registry (codes "a1") ≡ none)
    × (is_closed after (task_of (codes "a1") 1) ≡ true)
unfolding hello connect validate_session persist_agent put_saved agent_record get_saved get
    put_selection text_eq parsed_row saved_key
reconnect_lost_example =
    reconnect_lost (plain AgentRecord) (pos 3) (pos 4) (pos 5) idle once twice (codes "a1")
      (codes "s") (codes "s") (task_of (codes "a1") 0) (task_of (codes "a1") 1) refl refl

abbrev kill_params : CommandParams
kill_params = record {
  pid = some 7;
  hash_sha256 = none;
  path = none;
  max_bytes = none;
  allowlist_cidrs = none;
}

abbrev killing : CommandRecord
killing = new_command (pos 1) (codes "c1") (codes "a1") (codes "kill") kill_params (codes "ann")

abbrev killed : CommandResult
killed = record { command_id = codes "c1"; ok = true; message = []; payload = [] }

abbrev commands : Codec CommandRecord CommandRecord
commands = plain CommandRecord

-- The agent answers before the send returns.
abbrev during : Delivery (memory CommandRecord)
during = λ tx cmd reg. (
  with_store reg (unwrap_or (record_result commands (pos 3) (pos 4) killed reg.store) reg.store),
  true,
)

abbrev online : AgentRegistry (memory CommandRecord)
online = record {
  store = empty_store CommandRecord;
  live = λ a. some (record { command_tx = 0; last_seen = pos 0; isolated = false });
  channels = 1;
}

abbrev pending_store : Store (memory CommandRecord)
pending_store =
    unwrap_or (persist commands (pos 2) (empty_store CommandRecord) killing)
      (empty_store CommandRecord)

abbrev enqueued : AgentRegistry (memory CommandRecord) × Option CommandRecord
enqueued =
    enqueue commands during (pos 1) (pos 2) (pos 5) (codes "c1") online (codes "a1") (codes "kill")
      kill_params (codes "ann")

enqueue-Delivers_example :
    (ctype : CommandType) × (store : Store (memory CommandRecord)) × ((parse_command_type
          (codes "kill")
        ≡ some ctype)
      × (persist commands (pos 2) (empty_store CommandRecord) killing ≡ some store)
      × Delivers commands during
          (build_command (codes "c1") ctype kill_params)
          killing
          (with_store online store)
          enqueued.0
          (record killing { status = codes "sent" }))
unfolding enqueue persist put_saved ascii_lower text_eq
enqueue-Delivers_example =
    enqueue-Delivers (memory-IsLawful CommandRecord) commands during (pos 1) (pos 2) (pos 5)
      (codes "c1") online enqueued.0 (codes "a1") (codes "kill") kill_params (codes "ann")
      (record killing { status = codes "sent" }) (plain-IsRoundTrip CommandRecord) refl

abbrev finished : Store (memory CommandRecord)
finished = unwrap_or (record_result commands (pos 3) (pos 4) killed pending_store) pending_store

record_result-completed_example :
    ((some killing ≡ none) × (finished ≡ pending_store))
    ⊎ ((rec done : CommandRecord) × (some killing ≡ some rec)
        × (get_command commands finished rec.command_id ≡ some (some done))
        × IsDone (pos 3) killed rec done)
unfolding record_result persist put_saved get_command get_saved get put_selection text_eq parsed_row
    saved_key
record_result-completed_example =
    record_result-completed (memory-IsLawful CommandRecord) commands (pos 3) (pos 4) killed
      pending_store finished (some killing) (plain-IsRoundTrip CommandRecord) refl refl

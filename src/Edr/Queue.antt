-- ===== src/Edr/Queue.antt =====
-- The command queue of crates/sigil-edr/src/queue.rs. Sending on a channel waits, and the other
-- tasks run meanwhile: what they and the send do is a parameter of `enqueue`.
use sigil_siem.Prelude.{ℕ, Bool, true, false, Option, none, some, List, ◌++◌, filter, take, ◌>>=◌}
use sigil_siem.Prelude.Texts.{Text, text_eq, codes}
use sigil_siem.Event.Model.{Timestamp}
use sigil_siem.Store.Tables.{Backend, Store}
use sigil_siem.Store.Alerts.{newest_first}
use sigil_siem.Store.Saved.{put_saved, get_saved, list_saved}
use sigil_siem.Edr.Codec.{Codec, body_of, bodies}
use sigil_siem.Edr.Registry.{AgentRegistry, command_sender}
use sigil_siem.Edr.Commands.{
  command_kind, CommandParams, CommandRecord, CommandType, parse_command_type, Command,
  build_command, CommandResult, completed, new_command,
}

-- What the send and the other tasks make of the registry, and whether the send went through.
abbrev pub Delivery : Backend → Type 0
Delivery B = ℕ → Command → AgentRegistry B → AgentRegistry B × Bool

abbrev pub for_agent : Option Text → CommandRecord → Bool
for_agent none rec = true
for_agent (some a) rec = text_eq rec.agent_id a

abbrev pub with_store : {B : Backend} → AgentRegistry B → Store B → AgentRegistry B
with_store reg store = record reg { store = store }

-- `persist(&rec)?`, and the record that the call returns.
abbrev pub persisted_as :
    {B : Backend}
    → CommandRecord
    → AgentRegistry B
    → Option (Store B)
    → AgentRegistry B × Option CommandRecord
persisted_as rec reg none = (reg, none)
persisted_as rec reg (some store) = (with_store reg store, some rec)

module _ {B : Backend} (c : Codec B.Value CommandRecord) where
  unfoldable pub persist : Timestamp → Store B → CommandRecord → Option (Store B)
  persist now store rec = do
    body ← c.to_value rec
    put_saved store (record {
      kind = command_kind;
      id = rec.command_id;
      name = rec.command_type ++ codes " → " ++ rec.agent_id;
      owner = some rec.issued_by;
      updated_ts = now;
      body = body;
    })

  unfoldable pub get_command : Store B → Text → Option (Option CommandRecord)
  get_command store command_id =
      get_saved store command_kind command_id >>= λ found. some (body_of c found)

  -- The two readings of the clock are those of the record and of `persist`.
  abbrev pub record_found :
      Timestamp → Timestamp → CommandResult → Store B → Option CommandRecord → Option (Store B)
  record_found now persisted result store none = some store
  record_found now persisted result store (some rec) =
      persist persisted store (completed now result rec)

  unfoldable pub record_result : Timestamp → Timestamp → CommandResult → Store B → Option (Store B)
  unfolding persist get_command completed
  record_result now persisted result store =
      get_command store result.command_id >>= record_found now persisted result store

  abbrev pub after_send :
      Timestamp → CommandRecord → AgentRegistry B × Bool → AgentRegistry B × Option CommandRecord
  after_send persisted rec (reg, false) = (reg, some rec)
  after_send persisted rec (reg, true) =
      let sent = record rec { status = codes "sent" } in
      persisted_as sent reg (persist persisted reg.store sent)

  abbrev pub deliver_to :
      Delivery B
      → Timestamp
      → Command
      → CommandRecord
      → AgentRegistry B
      → Option ℕ
      → AgentRegistry B × Option CommandRecord
  deliver_to delivery persisted cmd rec reg none = (reg, some rec)
  deliver_to delivery persisted cmd rec reg (some tx) =
      after_send persisted rec (delivery tx cmd reg)

  abbrev pub enqueue_stored :
      Delivery B
      → Timestamp
      → CommandType
      → CommandRecord
      → AgentRegistry B
      → Option (Store B)
      → AgentRegistry B × Option CommandRecord
  enqueue_stored delivery persisted ctype rec reg none = (reg, none)
  enqueue_stored delivery persisted ctype rec reg (some store) =
      let stored = with_store reg store in
      deliver_to delivery persisted (build_command rec.command_id ctype rec.params) rec stored
        (command_sender stored rec.agent_id)

  abbrev pub enqueue_typed :
      Delivery B
      → Timestamp
      → Timestamp
      → CommandRecord
      → AgentRegistry B
      → Option CommandType
      → AgentRegistry B × Option CommandRecord
  enqueue_typed delivery first second rec reg none = (reg, none)
  enqueue_typed delivery first second rec reg (some ctype) =
      enqueue_stored delivery second ctype rec reg (persist first reg.store rec)

  -- The registry that is left, and the record that is returned, `none` for an error. `issued`,
  -- `first` and `second` are the readings of the clock, of the record and the two writes.
  unfoldable pub enqueue :
      Delivery B
      → (issued first second : Timestamp) → Text
      → AgentRegistry B
      → Text
      → Text
      → CommandParams
      → Text
      → AgentRegistry B × Option CommandRecord
  unfolding persist build_command command_sender parse_command_type
  enqueue delivery issued first second fresh reg agent_id command_type params issued_by =
      enqueue_typed delivery first second
        (new_command issued fresh agent_id command_type params issued_by) reg
        (parse_command_type command_type)

  unfoldable pub list_commands : Store B → ℕ → Option Text → Option (List CommandRecord)
  list_commands store limit agent_id = do
    objs ← list_saved store command_kind
    some
        (take limit (newest_first (λ r. r.issued_ts) (filter (for_agent agent_id) (bodies c objs))))

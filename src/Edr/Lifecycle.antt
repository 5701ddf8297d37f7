-- ===== src/Edr/Lifecycle.antt =====
-- The life of a command in crates/sigil-edr/src/queue.rs: issued, sent, completed.
use sigil_siem.Prelude.{
  length, ◌<◌, [], ◌∷◌, List, arith, ℕ, ◌≡◌, refl, sym, ap, ◌∙◌, Bool, true, false, ◌⊎◌, inl, inr,
  Option, none, some, ◌>>=◌, >>=-eq-some,
}
use sigil_siem.Prelude.Texts.{Text, codes}
use sigil_siem.Event.Model.{Timestamp}
use sigil_siem.Store.Tables.{Backend, IsLawful, Store}
use sigil_siem.Edr.Codec.{Codec, IsRoundTrip}
use sigil_siem.Edr.Registry.{AgentRegistry, command_sender}
use sigil_siem.Edr.Sessions.{put_saved-body}
use sigil_siem.Edr.Commands.{
  CommandParams, CommandRecord, CommandResult, CommandType, Command, bytes_of, build_command,
  completed, new_command, parse_command_type,
}
use sigil_siem.Edr.Queue.{
  Delivery, persist, get_command, record_found, record_result, with_store, persisted_as, after_send,
  deliver_to, enqueue_stored, enqueue_typed, enqueue,
}

-- What the result of an agent makes of the record: its outcome, its message, the size of what it
-- sends if that is not empty, and the time; the rest of the record stays.
pub record IsDone (now : Timestamp) (result : CommandResult) (rec done : CommandRecord)
    : Type 0 where
  pub completed_status : result.ok ≡ true → done.status ≡ codes "completed"
  pub failed_status : result.ok ≡ false → done.status ≡ codes "failed"
  pub outcome : done.result_ok ≡ some result.ok
  pub message : done.result_message ≡ some result.message
  pub no_bytes : length result.payload ≡ 0 → done.result_bytes ≡ rec.result_bytes
  pub bytes : 0 < length result.payload → done.result_bytes ≡ some (length result.payload)
  pub time : done.completed_ts ≡ some now
  pub id : done.command_id ≡ rec.command_id
  pub agent : done.agent_id ≡ rec.agent_id
  pub type : done.command_type ≡ rec.command_type
  pub params : done.params ≡ rec.params
  pub issued : (done.issued_by ≡ rec.issued_by) × (done.issued_ts ≡ rec.issued_ts)

bytes_of-none :
    (payload : List ℕ) (held : Option ℕ) → length payload ≡ 0 → bytes_of payload held ≡ held
bytes_of-none [] held e = refl
bytes_of-none (b ∷ bs) held e = absurd (omega arith)

bytes_of-some :
    (payload : List ℕ) (held : Option ℕ)
    → 0 < length payload
    → bytes_of payload held ≡ some (length payload)
bytes_of-some [] held e = absurd (omega arith)
bytes_of-some (b ∷ bs) held e = refl

completed-IsDone :
    (now : Timestamp) (result : CommandResult) (rec : CommandRecord)
    → IsDone now result rec (completed now result rec)
unfolding completed
completed-IsDone now result rec = record {
  completed_status = λ e. rw e refl;
  failed_status = λ e. rw e refl;
  outcome = refl;
  message = refl;
  no_bytes = bytes_of-none result.payload rec.result_bytes;
  bytes = bytes_of-some result.payload rec.result_bytes;
  time = refl;
  id = refl;
  agent = refl;
  type = refl;
  params = refl;
  issued = (refl, refl);
}

module _ {B : Backend} (lawful : IsLawful B) (c : Codec B.Value CommandRecord) where
  get_command-persist :
      (now : Timestamp) (store s : Store B) (rec : CommandRecord)
      → IsRoundTrip c
      → persist c now store rec ≡ some s
      → get_command c s rec.command_id ≡ some (some rec)
  unfolding persist get_command
  get_command-persist now store s rec trip h =
      let (body, v, put) = >>=-eq-some (c.to_value rec) _ h in
      put_saved-body lawful c trip store s _ rec v put

  -- The result of a command that is stored is written to its record: completed if it is ok and failed
  -- if not, with what the result says and the rest as it was. The result of an unknown command
  -- changes nothing.
  pub record_result-completed :
      (now persisted : Timestamp) (result : CommandResult) (store s : Store B)
      (held : Option CommandRecord)
      → IsRoundTrip c
      → get_command c store result.command_id ≡ some held
      → record_result c now persisted result store ≡ some s
      → ((held ≡ none) × (s ≡ store))
        ⊎ ((rec done : CommandRecord) × (held ≡ some rec)
            × (get_command c s rec.command_id ≡ some (some done))
            × IsDone now result rec done)
  unfolding record_result
  record_result-completed now persisted result store s held trip g h =
      outcome held (ap (λ read. read >>= record_found c now persisted result store) (sym g) ∙ h)
    where
      outcome :
          (o : Option CommandRecord)
          → record_found c now persisted result store o ≡ some s
          → ((o ≡ none) × (s ≡ store))
            ⊎ ((rec done : CommandRecord) × (o ≡ some rec)
                × (get_command c s rec.command_id ≡ some (some done))
                × IsDone now result rec done)
      outcome none e = inl (refl, cc)
      outcome (some rec) e = inr (
        rec,
        completed now result rec,
        refl,
        ap (get_command c s) (sym (completed-IsDone now result rec).id)
            ∙ get_command-persist persisted store s (completed now result rec) trip e,
        completed-IsDone now result rec,
      )

abbrev pub sent_of : CommandRecord → CommandRecord
sent_of rec = record rec { status = codes "sent" }

-- How a command that was stored ends: no session, and it stays as it is; the send fails, and the
-- registry is what the other tasks left; the send succeeds, and the record is stored as sent.
abbrev pub Delivers :
    {B : Backend}
    → Codec B.Value CommandRecord
    → Delivery B
    → Command
    → CommandRecord
    → AgentRegistry B
    → AgentRegistry B
    → CommandRecord
    → Type 0
Delivers {B} c delivery cmd pending stored after rec =
    ((command_sender stored pending.agent_id ≡ none)
      × (rec ≡ pending)
      × (get_command c after.store pending.command_id ≡ some (some rec)))
    ⊎ ((tx : ℕ) × (meanwhile : AgentRegistry B) × (command_sender stored pending.agent_id ≡ some tx)
        × (((delivery tx cmd stored ≡ (meanwhile, false)) × (rec ≡ pending) × (after ≡ meanwhile))
            ⊎ ((delivery tx cmd stored ≡ (meanwhile, true))
                × (rec ≡ sent_of pending)
                × (get_command c after.store pending.command_id ≡ some (some rec)))))

module _ {B : Backend} (lawful : IsLawful B) (c : Codec B.Value CommandRecord) where
  after_send-Delivers :
      (delivery : Delivery B) (second : Timestamp) (cmd : Command) (pending rec : CommandRecord)
      (stored after : AgentRegistry B) (tx : ℕ) (r : AgentRegistry B × Bool)
      → IsRoundTrip c
      → command_sender stored pending.agent_id ≡ some tx
      → delivery tx cmd stored ≡ r
      → after_send c second pending r ≡ (after, some rec)
      → Delivers c delivery cmd pending stored after rec
  after_send-Delivers delivery second cmd pending rec stored after tx (mid, false) trip s d h =
      inr (tx, mid, s, inl (d, (cc), (cc)))
  after_send-Delivers delivery second cmd pending rec stored after tx (mid, true) trip s d h =
      outcome (persist c second mid.store (sent_of pending)) refl h
    where
      outcome :
          (o : Option (Store B))
          → persist c second mid.store (sent_of pending) ≡ o
          → persisted_as (sent_of pending) mid o ≡ (after, some rec)
          → Delivers c delivery cmd pending stored after rec
      outcome none p e = cc
      outcome (some u) p e =
          let same : sent_of pending ≡ rec = cc in
          let left : with_store mid u ≡ after = cc in
          let read : get_command c u pending.command_id ≡ some (some (sent_of pending)) =
            get_command-persist lawful c second mid.store u (sent_of pending) trip p in
          inr (
            tx,
            mid,
            s,
            inr (
              d,
              sym same,
              ap (λ a. get_command c a.store pending.command_id) (sym left)
                  ∙ read
                  ∙ ap (λ x. some (some x)) same,
            ),
          )

  stored-Delivers :
      (delivery : Delivery B) (first second : Timestamp) (cmd : Command)
      (pending rec : CommandRecord) (reg after : AgentRegistry B) (store : Store B) (o : Option ℕ)
      → IsRoundTrip c
      → persist c first reg.store pending ≡ some store
      → command_sender (with_store reg store) pending.agent_id ≡ o
      → deliver_to c delivery second cmd pending (with_store reg store) o ≡ (after, some rec)
      → Delivers c delivery cmd pending (with_store reg store) after rec
  stored-Delivers delivery first second cmd pending rec reg after store none trip p s h =
      let same : pending ≡ rec = cc in
      let left : with_store reg store ≡ after = cc in
      inl (
        s,
        sym same,
        ap (λ a. get_command c a.store pending.command_id) (sym left)
            ∙ get_command-persist lawful c first reg.store store pending trip p
            ∙ ap (λ x. some (some x)) same,
      )
  stored-Delivers delivery first second cmd pending rec reg after store (some tx) trip p s h =
      after_send-Delivers delivery second cmd pending rec (with_store reg store) after tx _ trip s
        refl h

  -- A call that returns a record had a command type that is known, and stored the pending record
  -- first. If the agent has no session, the record is returned and read back as it was stored. If
  -- the send fails, it is returned pending. If it succeeds, the record that is returned and read
  -- back is the pending one marked as sent, whatever was stored for the command while it was sent:
  -- a result that arrived in between is overwritten.
  pub enqueue-Delivers :
      (delivery : Delivery B) (issued first second : Timestamp) (fresh : Text)
      (reg after : AgentRegistry B) (agent_id command_type : Text) (params : CommandParams)
      (issued_by : Text) (rec : CommandRecord)
      → IsRoundTrip c
      → enqueue c delivery issued first second fresh reg agent_id command_type params issued_by
        ≡ (after, some rec)
      → let pending = new_command issued fresh agent_id command_type params issued_by in
        (ctype : CommandType) × (store : Store B) × ((parse_command_type command_type ≡ some ctype)
          × (persist c first reg.store pending ≡ some store)
          × Delivers c delivery
              (build_command fresh ctype params)
              pending
              (with_store reg store)
              after
              rec)
  unfolding enqueue
  enqueue-Delivers delivery issued first second fresh reg after agent_id command_type params
        issued_by rec trip h =
      typed (parse_command_type command_type) refl h
    where
      pending : CommandRecord
      pending = new_command issued fresh agent_id command_type params issued_by

      Outcome : CommandType → Store B → Type 0
      Outcome ctype store =
          (parse_command_type command_type ≡ some ctype)
          × (persist c first reg.store pending ≡ some store)
          × Delivers c delivery (build_command fresh ctype params) pending (with_store reg store)
              after rec

      stored :
          (ctype : CommandType) (o : Option (Store B))
          → parse_command_type command_type ≡ some ctype
          → persist c first reg.store pending ≡ o
          → enqueue_stored c delivery second ctype pending reg o ≡ (after, some rec)
          → (ctype : CommandType) × (store : Store B) × Outcome ctype store
      stored ctype none t p e = cc
      stored ctype (some store) t p e = (
        ctype,
        store,
        (
          t,
          p,
          stored-Delivers delivery first second (build_command fresh ctype params) pending rec reg
              after store _ trip p refl e,
        ),
      )

      typed :
          (o : Option CommandType)
          → parse_command_type command_type ≡ o
          → enqueue_typed c delivery first second pending reg o ≡ (after, some rec)
          → (ctype : CommandType) × (store : Store B) × Outcome ctype store
      typed none t e = cc
      typed (some ctype) t e = stored ctype (persist c first reg.store pending) t refl e

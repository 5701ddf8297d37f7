-- ===== src/Edr/Sessions.antt =====
-- Enrolment and live sessions of crates/sigil-edr/src/registry.rs.
use mathlib.Core.Path.{subst}
use sigil_siem.Prelude.{
  ℕ, ◌+◌, Has, Bool, true, ◌==◌, ◌∷◌, filter, filter-cons, inl, ◌≡◌, ◌≢◌, refl, sym, ap, ◌∙◌, false,
  not, ◌&&◌, Option, none, some, ◌>>=◌, >>=-eq-some, if◌then◌else◌, arith,
}
use sigil_siem.Prelude.Texts.{Text, text_eq, text_eq_iff}
use sigil_siem.Event.Model.{Timestamp}
use sigil_siem.Store.Records.{SavedObject}
use sigil_siem.Store.Tables.{Backend, IsLawful, Store}
use sigil_siem.Store.Saved.{put_saved, get_saved}
use sigil_siem.Store.Objects.{same_object_refl, get_saved-put_saved}
use sigil_siem.Edr.Codec.{Codec, IsRoundTrip, body_of}
use sigil_siem.Edr.Tokens.{is_empty, is_some}
use sigil_siem.Edr.Gateway.{
  Gateway, SessionTask, task_of, greeted, hello, finish, sender_gone, is_closed,
}
use sigil_siem.Edr.Registry.{
  AgentRecord, LiveSession, AgentRegistry, EnrollRequest, persist_agent, enroll, validate_session,
  connect, disconnect, end_session, command_sender, is_connected, some_and, enrolled,
}

-- The record in the body of an object that is written is read back.
pub put_saved-body :
    {B : Backend} (lawful : IsLawful B) {A : Type 0} (c : Codec B.Value A) (trip : IsRoundTrip c)
    (store s : Store B) (obj : SavedObject B.Value) (a : A)
    → c.to_value a ≡ some obj.body
    → put_saved store obj ≡ some s
    → (get_saved s obj.kind obj.id >>= λ found. some (body_of c found)) ≡ some (some a)
put_saved-body lawful c trip store s obj a e h =
    ap (λ read. read >>= λ found. some (body_of c found))
      (get_saved-put_saved lawful store s obj obj.kind obj.id h
        ∙ ap (λ b. if b then some (some obj) else get_saved store obj.kind obj.id)
            (same_object_refl obj.kind obj.id))
    ∙ ap (λ x. some x) (trip a obj.body e)

module _ {B : Backend} (lawful : IsLawful B) (c : Codec B.Value AgentRecord) where
  -- An agent that enrols has the new identifier, and in the store that the call leaves a credential
  -- is valid for it exactly if it is the session token, and not empty.
  pub enroll-validate_session :
      (now persisted : Timestamp) (fresh : Text) (store s : Store B) (req : EnrollRequest)
      (session_token token : Text) (rec : AgentRecord)
      → IsRoundTrip c
      → enroll c now persisted fresh store req session_token ≡ some (s, rec)
      → (rec.agent_id ≡ fresh)
        × (validate_session c s fresh token
            ≡ some (not (is_empty token) && text_eq session_token token))
  unfolding enroll validate_session
  enroll-validate_session now persisted fresh store s req session_token token rec trip h =
      let rec' = enrolled now fresh req session_token in
      let (t, p, e) = >>=-eq-some (persist_agent c persisted store rec') _ h in
      let (body, v, put) = >>=-eq-some (c.to_value rec') _ p in
      let same : t ≡ s = cc in
      let made : rec' ≡ rec = cc in
      (
        ap (λ r. r.agent_id) (sym made),
        ap
            (λ found. found >>= (λ o.
              some (some_and o (λ r. not (is_empty token) && text_eq r.session_token token))))
            (put_saved-body lawful c trip store s _ rec' v (put ∙ ap (λ u. some u) same)),
      )

set_live-same :
    {S : Type 0} (agent_id : Text) (a b : S) → (if text_eq agent_id agent_id then a else b) ≡ a
set_live-same agent_id a b = ap (λ t. if t then a else b) ((text_eq_iff agent_id agent_id).1 refl)

-- A session that ends takes the agent's live session away, whichever it is.
disconnect-live :
    {B : Backend} (c : Codec B.Value AgentRecord) (now : Timestamp) (reg : AgentRegistry B)
    (agent_id : Text)
    → (disconnect c now reg agent_id).live agent_id ≡ none
unfolding disconnect
disconnect-live c now reg agent_id = outcome (reg.live agent_id) refl
  where
    outcome :
        (session : Option LiveSession)
        → reg.live agent_id ≡ session
        → (end_session c now reg agent_id session).live agent_id ≡ none
    outcome none e = e
    outcome (some held) e = set_live-same agent_id none (reg.live agent_id)

-- The task of an agent whose session is accepted, and the gateway with it.
hello-accepted :
    {B : Backend} (c : Codec B.Value AgentRecord) (now : Timestamp) (gw after : Gateway B)
    (agent_id token : Text) (task : SessionTask)
    → hello c now gw agent_id token ≡ (after, some task)
    → greeted c now gw agent_id (some true) ≡ (after, some task)
unfolding hello
hello-accepted c now gw after agent_id token task h =
    accepted (validate_session c gw.registry.store agent_id token) h
  where
    accepted :
        (o : Option Bool)
        → greeted c now gw agent_id o ≡ (after, some task)
        → greeted c now gw agent_id (some true) ≡ (after, some task)
    accepted none h = cc
    accepted (some true) h = h
    accepted (some false) h = cc

-- What an accepted session makes of the gateway.
record Greets {B : Backend} (gw after : Gateway B) (agent_id : Text) (task : SessionTask)
    : Type 0 where
  agent : task.agent_id ≡ agent_id
  channel : task.channel ≡ gw.registry.channels
  channels : after.registry.channels ≡ gw.registry.channels + 1
  tasks : after.tasks ≡ task ∷ gw.tasks
  sender : command_sender after.registry agent_id ≡ some task.channel

hello-Greets :
    {B : Backend} (c : Codec B.Value AgentRecord) (now : Timestamp) (gw after : Gateway B)
    (agent_id token : Text) (task : SessionTask)
    → hello c now gw agent_id token ≡ (after, some task)
    → Greets gw after agent_id task
unfolding connect command_sender
hello-Greets c now gw after agent_id token task h =
    let k = hello-accepted c now gw after agent_id token task h in
    let left = ap (λ r. r.0) k in
    let started : task_of agent_id gw.registry.channels ≡ task = let made = ap (λ r. r.1) k in cc in
    record {
      agent = ap (λ t. t.agent_id) (sym started);
      channel = ap (λ t. t.channel) (sym started);
      channels = ap (λ g. g.registry.channels) (sym left) ∙ omega arith;
      tasks = ap (λ g. g.tasks) (sym left) ∙ ap (λ t. t ∷ gw.tasks) started;
      sender =
          ap (λ g. command_sender g.registry agent_id) (sym left)
          ∙ ap (λ s. s >>= λ held. some held.command_tx)
              (set_live-same agent_id _ (gw.registry.live agent_id))
          ∙ ap (λ t. some t.channel) started;
    }

sender_gone-same : (n : ℕ) → sender_gone (some n) n ≡ false
sender_gone-same n = ground arith

sender_gone-other : (n m : ℕ) → n ≢ m → sender_gone (some n) m ≡ true
sender_gone-other n m ne = ground arith

-- An agent that connects again while its old session still runs loses both. The old channel is
-- closed, which ends the old session's loop, while the new one is open; but once the old session
-- has ended, the agent counts as not connected, no command reaches it, and the new channel is
-- closed while its task still runs.
pub reconnect_lost :
    {B : Backend} (c : Codec B.Value AgentRecord) (first second ended : Timestamp)
    (gw once twice : Gateway B) (agent_id token again : Text) (old new : SessionTask)
    → hello c first gw agent_id token ≡ (once, some old)
    → hello c second once agent_id again ≡ (twice, some new)
    → let after = finish c ended twice old in
      (is_closed twice old ≡ true)
      × (is_closed twice new ≡ false)
      × Has new after.tasks
      × (is_connected after.registry agent_id ≡ false)
      × (command_sender after.registry agent_id ≡ none)
      × (is_closed after new ≡ true)
unfolding is_closed finish command_sender is_connected connect
reconnect_lost c first second ended gw once twice agent_id token again old new h k =
    let one = hello-Greets c first gw once agent_id token old h in
    let two = hello-Greets c second once twice agent_id again new k in
    let apart : new.channel ≢ old.channel =
      λ e. omega (arith, one.channel, one.channels, two.channel, e) in
    let gone = disconnect-live c ended twice.registry agent_id in
    (
      ap (λ a. sender_gone (command_sender twice.registry a) old.channel) one.agent
          ∙ ap (λ o. sender_gone o old.channel) two.sender
          ∙ sender_gone-other new.channel old.channel apart,
      ap (λ a. sender_gone (command_sender twice.registry a) new.channel) two.agent
          ∙ ap (λ o. sender_gone o new.channel) two.sender
          ∙ sender_gone-same new.channel,
      subst (Has new)
          (sym (
            ap (filter (λ t. not (t.channel == old.channel))) two.tasks
            ∙ filter-cons (λ t. not (t.channel == old.channel)) new once.tasks (ground arith)))
          (inl refl),
      ap (λ a. is_connected (disconnect c ended twice.registry a) agent_id) one.agent
          ∙ ap is_some gone,
      ap (λ a. command_sender (disconnect c ended twice.registry a) agent_id) one.agent
          ∙ ap (λ s. s >>= λ held. some held.command_tx) gone,
      ap
            (λ a.
              sender_gone (command_sender (disconnect c ended twice.registry old.agent_id) a)
                new.channel)
            two.agent
          ∙ ap
              (λ a.
                sender_gone (command_sender (disconnect c ended twice.registry a) agent_id)
                  new.channel)
              one.agent
          ∙ ap (λ s. sender_gone (s >>= λ held. some held.command_tx) new.channel) gone,
    )

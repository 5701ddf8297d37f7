-- ===== src/Edr/Gateway.antt =====
-- Control sessions of crates/sigil-edr/src/server.rs: the task of a session, from its `Hello` to its end.
use sigil_siem.Prelude.{ℕ, Bool, true, not, Option, none, some, List, ◌∷◌, filter, ◌==◌}
use sigil_siem.Prelude.Texts.{Text}
use sigil_siem.Event.Model.{Timestamp}
use sigil_siem.Store.Tables.{Backend}
use sigil_siem.Edr.Codec.{Codec}
use sigil_siem.Edr.Registry.{
  AgentRecord, AgentRegistry, validate_session, connect, disconnect, command_sender,
}

-- A task in its loop, with the channel whose receiver it holds.
pub record SessionTask : Type 0 where
  pub agent_id : Text
  pub channel : ℕ

pub record Gateway (B : Backend) : Type 0 where
  pub registry : AgentRegistry B
  pub tasks : List SessionTask

abbrev pub task_of : Text → ℕ → SessionTask
task_of agent_id channel = record { agent_id = agent_id; channel = channel }

module _ {B : Backend} (c : Codec B.Value AgentRecord) where
  -- After the check of the `Hello`: a task that is refused returns at once.
  abbrev pub greeted : Timestamp → Gateway B → Text → Option Bool → Gateway B × Option SessionTask
  greeted now gw agent_id (some true) =
      let r = connect now gw.registry agent_id in
      (
        record { registry = r.0; tasks = task_of agent_id r.1 ∷ gw.tasks },
        some (task_of agent_id r.1),
      )
  greeted now gw agent_id _ = (gw, none)

  unfoldable pub hello : Timestamp → Gateway B → Text → Text → Gateway B × Option SessionTask
  unfolding connect validate_session
  hello now gw agent_id session_token =
      greeted now gw agent_id (validate_session c gw.registry.store agent_id session_token)

  -- After the loop.
  unfoldable pub finish : Timestamp → Gateway B → SessionTask → Gateway B
  unfolding disconnect
  finish now gw task = record {
    registry = disconnect c now gw.registry task.agent_id;
    tasks = filter (λ t. not (t.channel == task.channel)) gw.tasks;
  }

-- Once the commands in the channel are received, `cmd_rx.recv()` is `None`, which ends the loop: the
-- sender is gone. Only the live session of the task's agent can hold it.
abbrev pub sender_gone : Option ℕ → ℕ → Bool
sender_gone none channel = true
sender_gone (some tx) channel = not (tx == channel)

unfoldable pub is_closed : {B : Backend} → Gateway B → SessionTask → Bool
unfolding command_sender
is_closed gw task = sender_gone (command_sender gw.registry task.agent_id) task.channel

-- ===== src/Agent/Controller.antt =====
-- apps/agent/src/controller.ts: the agent's controller, which numbers and publishes the events of its
-- adapter. Ids and times are arguments, and `valid` is the schema that the factory's events must meet.
-- What the adapter and the relay client await in between are steps of their own.
pub mod Numbering
mod Tests
use steerloop.Common.{
  ℕ, ◌+◌, Text, text, List, [], ◌∷◌, ◌++◌, Option, none, some, Bool, true, false, if◌then◌else◌,
}
use steerloop.Common.Effects.{Effect, Outcome, ok, throws, ◌>>=◌, ◌>>◌, modify}
use steerloop.Protocol.Schema.{
  NormalizedEvent, host_connected, host_heartbeat, host_disconnected, EventEnvelope,
}
use steerloop.Agent.Config.{AgentConfig}
use steerloop.Agent.RelayClient
use steerloop.Agent.RelayClient.{RelayClient, EventFactory, create, publish, event, offer}

pub record AgentController : Type 0 where
  pub config : AgentConfig
  pub event_factory : EventFactory
  pub relay : RelayClient
  pub heartbeat : Bool

abbrev pub new_controller : AgentConfig → AgentController
new_controller c = record {
  config = c;
  event_factory = record { host_id = c.host_id; sequence = 0 };
  relay = RelayClient.new_client c.token c.host_id c.reconnect_min_ms c.reconnect_max_ms;
  heartbeat = false;
}

abbrev pub Run : Type 0
Run = Effect AgentController (Unit {0})

-- The factory has used its number even where the event is refused.
abbrev pub publish_created : EventFactory × Option EventEnvelope → Run
publish_created (f, none) c = (record c { event_factory = f }, throws (text "Invalid event"))
publish_created (f, some e) c =
    (record c { event_factory = f; relay = publish (event e) c.relay }, ok tt)

module _ (valid : EventEnvelope → Bool) where
  -- `emit` of the adapter's context, and every other event that is published.
  unfoldable pub emit : (id now : Text) → Option Text → NormalizedEvent → Run
  emit id now session e c = publish_created (create valid id now session e c.event_factory) c

  -- `start`, up to the connection.
  unfoldable pub start_relay : (socket : Text) → Run
  start_relay socket = modify (λ c. record c { relay = RelayClient.start socket c.relay })

  -- `start`, up to the start of the adapter.
  unfoldable pub announce : (capabilities : List Text) → (id now : Text) → Run
  announce capabilities id now c =
      emit id now none
        (host_connected (record {
          name = c.config.host_name;
          platform = c.config.platform;
          agent_version = text "0.1.0";
          capabilities = capabilities;
        }))
        c

  unfoldable pub start_heartbeat : Run
  start_heartbeat = modify (λ c. record c { heartbeat = true })

  unfoldable pub on_heartbeat : (id now at : Text) → Run
  on_heartbeat id now at c =
      if c.heartbeat then emit id now none (host_heartbeat at) c else (c, ok tt)

  -- `stop`, before and after the adapter is stopped.
  unfoldable pub stop_heartbeat : Run
  stop_heartbeat = modify (λ c. record c { heartbeat = false })

  unfoldable pub say_goodbye : (id now : Text) → Run
  say_goodbye id now = emit id now none (host_disconnected (some (text "Agent stopped")))

  unfoldable pub stop_relay : Run
  stop_relay = modify (λ c. record c { relay = RelayClient.stop c.relay })

  unfoldable pub register_pairing_code : Run
  register_pairing_code c = (
    record c {
      relay =
          publish
            (offer (record {
              host_id = c.config.host_id;
              code = c.config.pairing_code;
              expires_at = c.config.pairing_expires_at;
            }))
            c.relay;
    },
    ok tt,
  )

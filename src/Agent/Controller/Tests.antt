-- ===== src/Agent/Controller/Tests.antt =====
-- The controller on concrete events, and its theorem at such an input.
use steerloop.Common.{
  ℕ, Text, text, text_dec, List, [], ◌∷◌, Option, none, some, Bool, true, ◌≡◌, refl, length, lookup,
  slice_last, All,
}
use steerloop.Common.Effects.{throws}
use steerloop.Protocol.Schema.{host_heartbeat, host_disconnected, EventEnvelope}
use steerloop.Protocol.Schema.Checks.{id_schema, normalized_event_schema, event_envelope_schema}
use steerloop.Protocol.View.{create_empty_state}
use steerloop.Protocol.State.{includes, last_sequence}
use steerloop.Agent.Config.{demo}
use steerloop.Agent.RelayClient.{create, publish}
use steerloop.Agent.Controller.{
  AgentController, new_controller, emit, on_heartbeat, register_pairing_code,
}
use steerloop.Agent.Controller.Numbering.{
  Emission, numbered, Fresh, Published, Accepted, emit_all, emitted_in_order,
}

controller : Unit {0}
unfolding text_dec lookup slice_last id_schema normalized_event_schema event_envelope_schema
    create_empty_state includes create publish emit on_heartbeat register_pairing_code
controller = tt

abbrev any_time : Text → Bool
any_time t = true

abbrev valid : EventEnvelope → Bool
valid = event_envelope_schema any_time

abbrev clock : Text → Option ℕ
clock t = some (length t)

abbrev agent : AgentController
agent = new_controller (record {
  host_id = text "h";
  relay_url = text "ws://a/ws";
  host_name = text "host";
  adapter = demo;
  codex_command = text "codex";
  heartbeat_ms = 15000;
  platform = text "linux";
  token = text "t";
  reconnect_min_ms = 500;
  reconnect_max_ms = 30000;
  pairing_code = text "ABCD-EF01";
  pairing_expires_at = text "1";
})

-- An event that fails its schema uses its number all the same.
refused_tests :
    ((emit valid (text "a") (text "1") none (host_heartbeat []) agent).0.event_factory.sequence ≡ 1)
    × ((emit valid [] (text "1") none (host_heartbeat (text "1")) agent).1
        ≡ throws (text "Invalid event"))
    × (length (register_pairing_code valid agent).0.relay.queue ≡ 1)
    × ((on_heartbeat valid (text "a") (text "1") (text "1") agent).0 ≡ agent)
unfolding controller
refused_tests = (refl, refl, refl, refl)

abbrev emissions : List Emission
emissions =
    record { id = text "a"; now = text "1"; session = none; event = host_heartbeat (text "1") }
    ∷ record { id = text "b"; now = text "2"; session = none; event = host_disconnected none }
    ∷ []

emissions_facts :
    All (λ e. valid e ≡ true) (numbered (text "h") 0 emissions)
    × (last_sequence create_empty_state (text "h") ≡ 0)
    × Fresh create_empty_state.recent_event_ids emissions
unfolding controller
emissions_facts = ((refl, (refl, tt)), refl, (refl, (refl, tt), (refl, tt, tt)))

emitted_in_order_example :
    Published valid emissions agent (emit_all valid emissions agent)
    × Accepted clock create_empty_state (numbered (text "h") 0 emissions)
emitted_in_order_example =
    emitted_in_order valid clock emissions agent create_empty_state emissions_facts.0
      emissions_facts.1 emissions_facts.2

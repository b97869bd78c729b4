-- ===== src/Agent/Config.antt =====
-- apps/agent/src/config.ts: the agent's options, from the variables of its environment. It reads its
-- token, and whole numbers, with the same code as the relay. `to_upper` is `toUpperCase`; the names of
-- the host and the platform, a random code of eight digits and the time are arguments.
mod Tests
use steerloop.Common.{
  ℕ, ◌+◌, ◌*◌, Text, text, same, List, [], ◌∷◌, ◌++◌, Option, none, some, Bool, true, false,
  or_else, ◌==◌, if◌then◌else◌, length, take, drop,
}
use steerloop.Common.Effects.{Outcome, ok, throws}
use steerloop.Relay.Config.{TokenVariables, bind, load_token, parse_positive_integer, trim}

pub data AdapterName : Type 0 where
  demo codex : AdapterName

pub record AgentConfig : Type 0 where
  pub relay_url : Text
  pub token : Text
  pub host_id : Text
  pub host_name : Text
  pub platform : Text
  pub adapter : AdapterName
  pub codex_command : Text
  pub heartbeat_ms : ℕ
  pub reconnect_min_ms : ℕ
  pub reconnect_max_ms : ℕ
  pub pairing_code : Text
  pub pairing_expires_at : Text

pub record AgentEnvironment : Type 0 where
  pub token_variables : TokenVariables
  pub relay_url : Option Text
  pub host_id : Option Text
  pub host_name : Option Text
  pub adapter : Option Text
  pub codex_command : Option Text
  pub heartbeat_ms : Option Text
  pub reconnect_min_ms : Option Text
  pub reconnect_max_ms : Option Text
  pub pairing_code : Option Text
  pub pairing_ttl_ms : Option Text

-- What the machine and the clock give.
pub record Machine : Type 0 where
  pub hostname : Text
  pub platform : Text
  pub random_code : Text
  pub now : ℕ

abbrev pub named_adapter : Text → Outcome AdapterName
named_adapter candidate =
    if same candidate (text "demo")
    then ok demo
    else if same candidate (text "codex")
    then ok codex
    else throws (text "STEERLOOP_ADAPTER must be demo or codex")

unfoldable pub adapter_name : Option Text → Outcome AdapterName
adapter_name value = named_adapter (or_else value (text "demo"))

-- `/^(.{4})(.{4})$/`, on a text without line ends
abbrev dashed : Text → Text
dashed s = if length s == 8 then take 4 s ++ (b'-' ∷ drop 4 s) else s

module _ (to_upper : Text → Text) where
  abbrev given_code : (random : Text) → Text → Text
  given_code random [] = dashed (to_upper random)
  given_code random (c ∷ s) = to_upper (c ∷ s)

  abbrev code_of : (random : Text) → Option Text → Text
  code_of random none = dashed (to_upper random)
  code_of random (some value) = given_code random (trim value)

  unfoldable pub pairing_code : (random : Text) → Option Text → Text
  pairing_code random value = code_of random value

  unfoldable pub load_agent_config :
      (round : ℕ → Option ℕ)
      → (iso : ℕ → Text) → (read_file : Text → Outcome Text) → Machine
      → AgentEnvironment
      → Outcome AgentConfig
  load_agent_config round iso read_file m e = bind (load_token read_file e.token_variables) λ token.
      bind
        (parse_positive_integer round e.pairing_ttl_ms (10 * 60000)
          (text "STEERLOOP_PAIRING_TTL_MS"))
        λ pairing_ttl_ms. bind (adapter_name e.adapter) λ adapter.
          bind (parse_positive_integer round e.heartbeat_ms 15000 (text "STEERLOOP_HEARTBEAT_MS"))
            λ heartbeat_ms.
              bind
                (parse_positive_integer round e.reconnect_min_ms 500
                  (text "STEERLOOP_RECONNECT_MIN_MS"))
                λ reconnect_min_ms.
                  bind
                    (parse_positive_integer round e.reconnect_max_ms 30000
                      (text "STEERLOOP_RECONNECT_MAX_MS"))
                    λ reconnect_max_ms. ok (record {
                      relay_url = or_else e.relay_url (text "ws://127.0.0.1:8787/ws");
                      token = token;
                      host_id = or_else e.host_id m.hostname;
                      host_name = or_else e.host_name m.hostname;
                      platform = m.platform;
                      adapter = adapter;
                      codex_command = or_else e.codex_command (text "codex");
                      heartbeat_ms = heartbeat_ms;
                      reconnect_min_ms = reconnect_min_ms;
                      reconnect_max_ms = reconnect_max_ms;
                      pairing_code = pairing_code m.random_code e.pairing_code;
                      pairing_expires_at = iso (m.now + pairing_ttl_ms);
                    })

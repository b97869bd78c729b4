-- ===== src/Relay/Config/Tests.antt =====
-- Options that are read from concrete environments.
use steerloop.Common.{
  ℕ, ◌≤◌, Text, text, text_dec, Option, none, some, true, false, length, ◌≡◌, refl,
}
use steerloop.Common.Effects.{Outcome, ok, throws}
use steerloop.Relay.Journal.{is_space}
use steerloop.Relay.Config.{
  RelayConfig, RelayEnvironment, is_production, drop_spaces, reverse_onto, trim, read_digits,
  parse_int, parse_positive_integer, parse_boolean, load_token, load_relay_config,
  uses_development_token,
}
use steerloop.Relay.Config.Production.{load_relay_config_lem}

options : Unit {0}
unfolding text_dec is_space drop_spaces reverse_onto trim read_digits parse_int
    parse_positive_integer parse_boolean load_token load_relay_config uses_development_token
options = tt

abbrev exact : ℕ → Option ℕ
exact n = some n

abbrev no_file : Text → Outcome Text
no_file path = throws (text "ENOENT")

abbrev environment : RelayEnvironment
environment = record {
  token_variables = record {
    node_env = some (text "production");
    steerloop_token = some (text "0123456789abcdef0123456789abcdef");
    steerloop_token_file = none;
  };
  relay_host = none;
  relay_port = some (text " 9000x");
  auth_timeout_ms = none;
  max_history = none;
  max_payload_bytes = none;
  journal_path = some (text "off");
  journal_sync = some (text "0");
  device_registry_path = none;
}

abbrev loaded : RelayConfig
loaded = record {
  host = text "127.0.0.1";
  port = 9000;
  token = text "0123456789abcdef0123456789abcdef";
  auth_timeout_ms = 5000;
  max_history = 1000;
  max_payload_bytes = 524288;
  journal_path = none;
  journal_sync = false;
  device_registry_path = some (text "steerloop-data/relay-devices.json");
}

environment_loaded : load_relay_config exact no_file environment ≡ ok loaded
unfolding options
environment_loaded = refl

integer_tests :
    (parse_positive_integer exact (some (text "-5")) 1 (text "X")
      ≡ throws (text "X must be a positive integer"))
    × (trim (text "  a b ") ≡ text "a b")
unfolding options
integer_tests = (refl, refl)

load_relay_config_lem_example :
    (is_production environment.token_variables.node_env ≡ true
      → (32 ≤ length loaded.token) × (uses_development_token loaded ≡ false))
    × (1 ≤ 9000)
    × (1 ≤ 5000)
    × (1 ≤ 1000)
    × (1 ≤ 524288)
load_relay_config_lem_example =
    load_relay_config_lem exact no_file environment loaded environment_loaded

-- ===== src/Relay/Config.antt =====
-- apps/relay/src/config.ts: the relay's options, from the variables of its environment. `round` gives
-- the number that stands for a whole number, `none` where that is Infinity; `read_file` reads a file,
-- or throws.
pub mod Production
mod Tests
use steerloop.Common.{
  ℕ, ◌+◌, ◌-◌, ◌*◌, Text, text, same, List, [], ◌∷◌, ◌++◌, Option, none, some, Bool, true, false,
  ◌&&◌, ◌||◌, not, is_some, or_else, leb, ltb, ◌==◌, if◌then◌else◌, length,
}
use steerloop.Common.Effects.{Outcome, ok, throws}
use steerloop.Relay.Journal.{is_space}

-- `String.prototype.trim`
unfoldable pub drop_spaces : Text → Text
drop_spaces [] = []
drop_spaces (c ∷ s) = if is_space c then drop_spaces s else c ∷ s

unfoldable pub reverse_onto : Text → Text → Text
reverse_onto [] t = t
reverse_onto (c ∷ s) t = reverse_onto s (c ∷ t)

unfoldable pub trim : Text → Text
trim s = reverse_onto (drop_spaces (reverse_onto (drop_spaces s) [])) []

abbrev is_digit : ℕ → Bool
is_digit c = leb b'0' c && leb c b'9'

-- The number that the digits at the front write, after the digits read before.
unfoldable pub read_digits : Option ℕ → Text → Option ℕ
read_digits n [] = n
read_digits n (c ∷ s) =
    if is_digit c then read_digits (some (or_else n 0 * 10 + (c - b'0'))) s else n

abbrev or_zero : Option ℕ → Option ℕ
or_zero none = none
or_zero (some n) = some 0

-- `Number.parseInt(s, 10)`, where a number below zero is read as zero; `none` for NaN.
abbrev pub parse_signed : Text → Option ℕ
parse_signed [] = none
parse_signed (c ∷ s) =
    if c == b'-'
    then or_zero (read_digits none s)
    else if c == b'+'
    then read_digits none s
    else read_digits none (c ∷ s)

unfoldable pub parse_int : Text → Option ℕ
parse_int s = parse_signed (drop_spaces s)

module _ (round : ℕ → Option ℕ) where
  abbrev pub rounded : Option ℕ → Option ℕ
  rounded none = none
  rounded (some n) = round n

  abbrev pub positive_or : Text → Option ℕ → Outcome ℕ
  positive_or name none = throws (name ++ text " must be a positive integer")
  positive_or name (some n) =
      if leb n 0 then throws (name ++ text " must be a positive integer") else ok n

  unfoldable pub parse_positive_integer : Option Text → (fallback : ℕ) → (name : Text) → Outcome ℕ
  parse_positive_integer none fallback name = ok fallback
  parse_positive_integer (some s) fallback name = positive_or name (rounded (parse_int s))

unfoldable pub parse_boolean : Option Text → (fallback : Bool) → (name : Text) → Outcome Bool
parse_boolean none fallback name = ok fallback
parse_boolean (some v) fallback name =
    if same v (text "true") || same v (text "1")
    then ok true
    else if same v (text "false") || same v (text "0")
    then ok false
    else throws (name ++ text " must be true, false, 1, or 0")

abbrev pub development_token : Text
development_token = text "steerloop-local-dev"

abbrev pub is_production : Option Text → Bool
is_production none = false
is_production (some env) = same env (text "production")

-- What both configurations read of the environment for the token.
pub record TokenVariables : Type 0 where
  pub node_env : Option Text
  pub steerloop_token : Option Text
  pub steerloop_token_file : Option Text

abbrev pub bind : {A B : Type 0} → Outcome A → (A → Outcome B) → Outcome B
bind (ok a) f = f a
bind (throws e) f = throws e

abbrev trimmed : Outcome Text → Outcome (Option Text)
trimmed (ok s) = ok (some (trim s))
trimmed (throws e) = throws e

module _ (read_file : Text → Outcome Text) where
  abbrev pub configured_token : TokenVariables → Option Text → Outcome (Option Text)
  configured_token v none = ok v.steerloop_token
  configured_token v (some path) = trimmed (read_file path)

  abbrev pub length_of : Option Text → ℕ
  length_of none = 0
  length_of (some t) = length t

  abbrev pub is_empty : Option Text → Bool
  is_empty none = false
  is_empty (some t) = length t == 0

  -- The token that is configured, or why there is none to use.
  abbrev pub checked_token : (production : Bool) → Option Text → Outcome Text
  checked_token production t =
      if production && not (is_some t)
      then throws (text "STEERLOOP_TOKEN or STEERLOOP_TOKEN_FILE is required in production")
      else if is_empty t
      then throws (text "Steerloop token must not be empty")
      else if production && ltb (length_of t) 32
      then throws (text "Production Steerloop tokens must contain at least 32 characters")
      else ok (or_else t development_token)

  unfoldable pub load_token : TokenVariables → Outcome Text
  load_token v =
      if is_some v.steerloop_token && is_some v.steerloop_token_file
      then throws (text "Set only one of STEERLOOP_TOKEN and STEERLOOP_TOKEN_FILE")
      else bind (configured_token v v.steerloop_token_file)
          (checked_token (is_production v.node_env))

pub record RelayConfig : Type 0 where
  pub host : Text
  pub port : ℕ
  pub token : Text
  pub auth_timeout_ms : ℕ
  pub max_history : ℕ
  pub max_payload_bytes : ℕ
  pub journal_path : Option Text
  pub journal_sync : Bool
  pub device_registry_path : Option Text

pub record RelayEnvironment : Type 0 where
  pub token_variables : TokenVariables
  pub relay_host : Option Text
  pub relay_port : Option Text
  pub auth_timeout_ms : Option Text
  pub max_history : Option Text
  pub max_payload_bytes : Option Text
  pub journal_path : Option Text
  pub journal_sync : Option Text
  pub device_registry_path : Option Text

abbrev unless_off : Text → Option Text
unless_off path = if same path (text "off") then none else some path

unfoldable pub load_relay_config :
    (round : ℕ → Option ℕ)
    → (read_file : Text → Outcome Text) → RelayEnvironment
    → Outcome RelayConfig
load_relay_config round read_file e = bind (load_token read_file e.token_variables) λ token.
    bind (parse_positive_integer round e.relay_port 8787 (text "STEERLOOP_RELAY_PORT")) λ port.
      bind (parse_positive_integer round e.auth_timeout_ms 5000 (text "STEERLOOP_AUTH_TIMEOUT_MS"))
        λ auth_timeout_ms.
          bind (parse_positive_integer round e.max_history 1000 (text "STEERLOOP_MAX_HISTORY"))
            λ max_history.
              bind
                (parse_positive_integer round e.max_payload_bytes (512 * 1024)
                  (text "STEERLOOP_MAX_PAYLOAD_BYTES"))
                λ max_payload_bytes.
                  bind (parse_boolean e.journal_sync true (text "STEERLOOP_JOURNAL_SYNC"))
                    λ journal_sync. ok (record {
                      host = or_else e.relay_host (text "127.0.0.1");
                      port = port;
                      token = token;
                      auth_timeout_ms = auth_timeout_ms;
                      max_history = max_history;
                      max_payload_bytes = max_payload_bytes;
                      journal_path =
                          unless_off
                            (or_else e.journal_path (text "steerloop-data/relay-events.jsonl"));
                      journal_sync = journal_sync;
                      device_registry_path = unless_off (
                          or_else e.device_registry_path
                            (text "steerloop-data/relay-devices.json"));
                    })

unfoldable pub uses_development_token : RelayConfig → Bool
uses_development_token c = same c.token development_token

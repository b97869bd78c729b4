-- ===== src/Web/Commands/Tests.antt =====
-- The browser's commands on concrete inputs, and each theorem at such an input.
use steerloop.Common.{
  ℕ, Text, text, text_dec, same, same_refl, [], ◌∷◌, Option, none, some, Bool, true, ◌≡◌, refl,
  arith, lookup, insert,
}
use steerloop.Common.Json.{member}
use steerloop.Common.Effects.{ok}
use steerloop.Protocol.Schema.{
  ApprovalDecision, ApprovalResolve, NormalizedCommand, CommandEnvelope, ClientToRelay,
}
use steerloop.Protocol.Schema.Checks.{
  id_schema, digest_schema, signature_schema, authorization_schema, normalized_command_schema,
  command_envelope_schema,
}
use steerloop.Relay.Devices.{DeviceRegistry, DeviceRecord, PublicKey}
use steerloop.Relay.Sockets
use steerloop.Relay.Sockets.{Runtime, RelayServer, sends}
use steerloop.Relay.Server.{handle_client_frame}
use steerloop.Web.Commands.{
  default_relay_url, pairing_url, management_url, build_command, signed_command,
  sign_approval_command,
}
use steerloop.Web.Commands.Signing.{decided, signed_command_forwarded}

commands : Unit {0}
unfolding text_dec lookup insert member default_relay_url pairing_url management_url id_schema
    digest_schema signature_schema authorization_schema normalized_command_schema
    command_envelope_schema build_command sign_approval_command
commands = tt

url_tests :
    (default_relay_url (record { host = text "a:1"; protocol = text "https:" })
      ≡ text "wss://a:1/ws")
    × ((pairing_url (record {
      protocol = text "wss:";
      host = text "a";
      pathname = text "/ws";
      search = text "?x";
      hash = [];
    })).protocol
        ≡ text "https:")
unfolding commands
url_tests = (refl, refl)

abbrev public_key : PublicKey
public_key = record {
  kty = some (text "EC");
  crv = some (text "P-256");
  x = some (text "1");
  y = some (text "2");
}

-- A key signs every text alike, and the check knows no other signature.
abbrev signature : Text
signature = text "sssssssssssssssssssssssssssssssssssssssssssssssssssssssssssssssss"

abbrev sign : ℕ → Text → Text
sign k m = signature

abbrev time_of : Text → Option ℕ
time_of [] = none
time_of (c ∷ s) = some c

abbrev rt : Runtime
rt = record {
  utf8 = λ t. t;
  hash = λ t. t;
  nfc = λ t. t;
  to_upper = λ t. t;
  date_parse = time_of;
  iso = λ n. n ∷ [];
  check = λ k m s. same s signature;
  encode = λ e. text "{}";
}

abbrev any_time : Text → Bool
any_time t = true

abbrev decision : ApprovalResolve
decision = record {
  approval_id = text "a";
  request_digest = text "dddddddddddddddddddddddddddddddddddddddddddddddddddddddddddddddd";
  decision = ApprovalDecision.approve_once;
  authorization = none;
}

abbrev device : DeviceRecord
device = record {
  view = record {
    id = text "d";
    name = text "n";
    host_id = text "h";
    created_at = text "1";
    last_seen_at = text "1";
    revoked_at = none;
  };
  token_hash = text "x";
  public_key = public_key;
}

abbrev devices : DeviceRegistry
devices = record { devices = (text "d", device) ∷ []; persisted = [] }

abbrev relay : RelayServer
relay = record {
  token = text "secret";
  max_history = 10;
  sockets = (text "a", record { peer = Sockets.agent (text "h"); is_open = true }) ∷ [];
  agents = (text "h", text "a") ∷ [];
  clients = [];
  pairing_offers = [];
  history = [];
  journal = none;
  registry = some devices;
  queue = [];
  sent = [];
}

abbrev command : CommandEnvelope
command = decided rt (text "h") (text "s") decision 100 (text "c")

abbrev signed : CommandEnvelope
signed = signed_command rt.nfc sign 5 (text "d") (text "2") command decision

command_facts :
    (command_envelope_schema any_time command ≡ true)
    × (command_envelope_schema any_time signed ≡ true)
    × (lookup (text "d") devices.devices ≡ some device)
    × (lookup (text "h") relay.agents ≡ some (text "a"))
    × (Sockets.ready (lookup (text "a") relay.sockets) ≡ true)
unfolding commands
command_facts = (refl, refl, refl, refl, refl)

signed_command_forwarded_example :
    (build_command rt.iso any_time
        (text "h")
        (text "s")
        (NormalizedCommand.approval_resolve decision)
        100
        (text "c")
      ≡ ok command)
    × (sign_approval_command rt.nfc sign any_time 5 (text "d") (text "2") command ≡ ok signed)
    × (handle_client_frame rt 200
          (text "b")
          (some (text "d"))
          (some (ClientToRelay.command signed))
          relay
        ≡ record relay { sent = sends (text "a") (Sockets.command signed) ∷ [] })
signed_command_forwarded_example =
    signed_command_forwarded rt sign any_time (text "h") (text "s") decision 100 (text "c") 5
      (text "d") (text "2") 200 (text "b") (text "a") relay devices device command_facts.0
      command_facts.1 (λ t. refl) (λ m. same_refl signature) refl command_facts.2 refl
      command_facts.3 command_facts.4 (omega arith)

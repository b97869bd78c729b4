-- ===== src/Relay/Server/Tests.antt =====
-- The relay on a concrete runtime, and each theorem at such an input.
use steerloop.Common.{
  Text, text, text_dec, same, same→eq, same_refl, [], ◌∷◌, none, some, true, false, ◌⊎◌, ◌≡◌, refl,
  length, lookup, insert, remove,
}
use steerloop.Protocol.Schema.{
  CommandEnvelope, ApprovalResolve, Authorization, approve_once, approval_resolve, PairingOffer,
  AuthFrame, ClientToRelay,
}
use steerloop.Protocol.Approval.{ApprovalDecisionSignatureMaterial, canonicalize_approval_decision}
use steerloop.Protocol.Approval.Binding.{SameDecision}
use steerloop.Relay.Devices.{
  DeviceRecord, PublicKey, is_p256_public_key, hex_bytes, hash_matches, issue, verify_in, verify,
  verify_signature,
}
use steerloop.Relay.Devices.Laws.{issued_device}
use steerloop.Relay.Sockets.{
  Runtime, Value, RelayServer, unauthenticated, agent, json, command, sends, send, close, reject,
  broadcast, live_offers,
}
use steerloop.Relay.Server.{
  token_matches, register_pairing_offer, verify_token, client_device, replace_agent, authenticate,
  verify_approval_authorization, signature_error, handle_client_frame, on_connection, on_message,
}
use steerloop.Relay.Server.Http.{
  Fresh, PairRequest, Pairing, failed, paired, normal_code, device_name, pair_with,
  post_pair_object,
}
use steerloop.Relay.Server.Invariant.{Agreed, peer}
use steerloop.Relay.Server.Steps.{here, there, connects, receives, Reaches-Agreed, step}
use steerloop.Relay.Server.Credentials.{Grants, on_message-Grants}
use steerloop.Relay.Server.Routing.{
  Forwarded, Refused, Signed, SignsDecisions, command_decision, handle_client_frame_routes,
  Forwarded-Signed,
}
use steerloop.Relay.Server.Pairing.{Paired, pair_once, pair_then_login}

relay : Unit {0}
unfolding text_dec lookup insert remove is_p256_public_key hex_bytes hash_matches issue verify_in
    verify verify_signature send close reject broadcast live_offers token_matches
    register_pairing_offer verify_token client_device replace_agent authenticate
    verify_approval_authorization signature_error handle_client_frame on_connection on_message
    normal_code device_name pair_with post_pair_object
relay = tt

-- A time is as late as its text is long, and every signature is good.
abbrev plain : Runtime
plain = record {
  utf8 = λ t. t;
  hash = λ t. t;
  nfc = λ t. t;
  to_upper = λ t. t;
  date_parse = λ t. some (length t);
  iso = λ n. text "1";
  check = λ k m s. true;
  encode = λ e. text "{}";
}

abbrev trim : Text → Text
trim t = t

abbrev key : PublicKey
key = record {
  kty = some (text "EC");
  crv = some (text "P-256");
  x = some (text "x");
  y = some (text "y");
}

abbrev empty : RelayServer
empty = record {
  token = text "secret";
  max_history = 10;
  sockets = [];
  agents = [];
  clients = [];
  pairing_offers = [];
  history = [];
  journal = none;
  registry = some (record { devices = []; persisted = [] });
  queue = [];
  sent = [];
}

abbrev login : Value
login = record {
  as_auth = some (AuthFrame.agent (text "secret") (text "h"));
  as_agent = none;
  as_client = none;
}

abbrev connected : RelayServer
connected = on_connection plain (text "a") empty

-- An agent has connected and logged in.
abbrev with_agent : RelayServer
with_agent = on_message plain 0 (text "a") (json login) connected

Reaches-Agreed_example : Agreed with_agent
unfolding relay step
Reaches-Agreed_example = Reaches-Agreed plain trim empty with_agent refl refl refl (
    there connected 0 (receives (text "a") (json login))
      (there empty 0 (connects (text "a")) here refl) tt)

connected_facts : peer connected (text "a") ≡ unauthenticated
unfolding relay
connected_facts = refl

on_message-Grants_example :
    Grants plain 0 connected
      (some (AuthFrame.agent (text "secret") (text "h")))
      (peer (on_message plain 0 (text "a") (json login) connected) (text "a"))
on_message-Grants_example =
    on_message-Grants plain 0 (text "a") (json login) connected connected_facts

abbrev phone : DeviceRecord
phone = issued_device (λ t. t) (text "p") (text "h") (text "phone") key (text "ab") (text "1")

abbrev signature : Authorization
signature = record { device_id = text "p"; signed_at = text "1"; signature = text "s" }

abbrev approval : ApprovalResolve
approval = record {
  approval_id = text "q";
  request_digest = text "d";
  decision = approve_once;
  authorization = some signature;
}

abbrev approve : CommandEnvelope
approve = record {
  command_id = text "c";
  host_id = text "h";
  session_id = text "s";
  issued_at = text "1";
  expires_at = text "12345";
  command = approval_resolve approval;
}

abbrev with_phone : RelayServer
with_phone = record empty {
  sockets = (text "a", record { peer = agent (text "h"); is_open = true }) ∷ [];
  agents = (text "h", text "a") ∷ [];
  registry = some (record { devices = (text "p", phone) ∷ []; persisted = phone ∷ [] });
}

abbrev approved : RelayServer
approved =
    handle_client_frame plain 3 (text "b") (some (text "p")) (some (ClientToRelay.command approve))
      with_phone

handle_client_frame_routes_example :
    Forwarded plain 3 (some (text "p")) approve with_phone approved
    ⊎ Refused (text "b") approve with_phone approved
handle_client_frame_routes_example =
    handle_client_frame_routes plain 3 (text "b") (some (text "p")) approve with_phone

abbrev made : ApprovalDecisionSignatureMaterial
made = command_decision plain approve approval (text "p") signature

-- The one text that was signed is that of the decision.
abbrev strict : Runtime
strict = record plain { check = λ k t s. same t (canonicalize_approval_decision (λ t. t) made) }

strict-SignsDecisions : SignsDecisions strict with_phone (text "p") (λ m. m ≡ made)
strict-SignsDecisions d v t x has registered good =
    (made, refl, same→eq t (canonicalize_approval_decision (λ t. t) made) good)

abbrev sent : RelayServer
sent = record with_phone { sent = sends (text "a") (command approve) ∷ [] }

approve-Forwarded : Forwarded strict 3 (some (text "p")) approve with_phone sent
unfolding relay
approve-Forwarded = record {
  socket = text "a";
  registered = refl;
  is_open = refl;
  unexpired = refl;
  allowed = rw (same_refl (canonicalize_approval_decision (λ t. t) made)) refl;
  effect = refl;
}

Forwarded-Signed_example :
    (s : Signed strict with_phone (text "p") approve approval)
    × (m : ApprovalDecisionSignatureMaterial) × (m ≡ made)
    × SameDecision (λ t. t) m (command_decision strict approve approval (text "p") s.authorization)
Forwarded-Signed_example =
    Forwarded-Signed strict 3 (text "p") approve approval with_phone sent (λ m. m ≡ made)
      strict-SignsDecisions refl approve-Forwarded

abbrev offer : PairingOffer
offer = record { host_id = text "h"; code = text "ABCDEF"; expires_at = text "12345" }

abbrev offered : RelayServer
offered = record empty { pairing_offers = (text "ABCDEF", offer) ∷ [] }

abbrev pairing : PairRequest
pairing = record {
  code = some (text "ABCDEF");
  device_name = some (text "phone");
  device_public_key = key;
}

abbrev fresh : Fresh
fresh = record { now = 3; id = text "p"; token = text "ab" }

abbrev paired_phone : Pairing
paired_phone = record {
  issued = record { token = text "ab"; device = phone.view };
  host_id = text "h";
  expires_at = text "12345";
}

pairing_facts :
    ((post_pair_object plain trim fresh pairing offered).1 ≡ paired paired_phone)
    × (lookup {V = DeviceRecord} (text "p") [] ≡ none)
    × (token_matches plain offered.token (text "ab") ≡ false)
unfolding relay
pairing_facts = (refl, refl, refl)

pair_once_example :
    let r' = (post_pair_object plain trim fresh pairing offered).0 in
    Paired plain trim fresh pairing paired_phone offered r'
    × (post_pair_object plain trim fresh pairing r'
        ≡ (r', failed 401 (text "invalid_pairing_code")))
pair_once_example =
    pair_once plain trim fresh pairing paired_phone offered fresh pairing pairing_facts.0 refl

pair_then_login_example :
    (paired_phone.issued.token ≡ text "ab")
    × ((client_device plain 4 paired_phone.issued.token
          (post_pair_object plain trim fresh pairing offered).0).1
        ≡ some (some (text "p")))
pair_then_login_example =
    pair_then_login plain trim fresh pairing paired_phone offered
      (record { devices = []; persisted = [] }) 4 pairing_facts.0 refl pairing_facts.1 tt
      pairing_facts.2

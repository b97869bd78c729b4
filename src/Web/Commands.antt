-- ===== src/Web/Commands.antt =====
-- apps/web/src/connection.ts: the commands of the browser, its signature of a decision and the key it
-- signs with, and its requests to the relay. The import of a key, `JSON`, the signature and the URLs
-- are the browser's: they are parameters.
pub mod Signing
pub mod Keys
mod Tests
use steerloop.Common.{
  ℕ, ◌+◌, ◌*◌, Text, text, same, List, [], ◌∷◌, ◌++◌, Option, none, some, Bool, true, false, ◌&&◌,
  ◌||◌, not, is_some, or_else, if◌then◌else◌,
}
use steerloop.Common.Json.{Json, Fields, member, as_record, as_string, is_string}
use steerloop.Common.Effects.{Outcome, ok, throws}
use steerloop.Protocol.Schema.{Authorization, ApprovalResolve, NormalizedCommand, CommandEnvelope}
use steerloop.Protocol.Schema.Checks.{command_envelope_schema}
use steerloop.Protocol.Approval.{ApprovalDecisionSignatureMaterial, canonicalize_approval_decision}
use steerloop.Relay.Devices.{DeviceView, PublicKey}

-- `commandEnvelopeSchema.parse`
abbrev pub parse_command : (is_datetime : Text → Bool) → CommandEnvelope → Outcome CommandEnvelope
parse_command is_datetime c =
    if command_envelope_schema is_datetime c then ok c else throws (text "Invalid command")

unfoldable pub build_command :
    (iso : ℕ → Text)
    → (is_datetime : Text → Bool) → (host_id session_id : Text) → NormalizedCommand
    → (now : ℕ) → (id : Text) → Outcome CommandEnvelope
build_command iso is_datetime host_id session_id command now id =
    parse_command is_datetime (record {
      command_id = id;
      host_id = host_id;
      session_id = session_id;
      issued_at = iso now;
      expires_at = iso (now + 30000);
      command = command;
    })

-- `Location`, as far as it is read.
pub record Location : Type 0 where
  pub host : Text
  pub protocol : Text

unfoldable pub default_relay_url : Location → Text
default_relay_url l =
    (if same l.protocol (text "https:") then text "wss:" else text "ws:")
    ++ (text "//" ++ (l.host ++ text "/ws"))

-- A URL, as far as it is written.
pub record Url : Type 0 where
  pub protocol : Text
  pub host : Text
  pub pathname : Text
  pub search : Text
  pub hash : Text

abbrev http_protocol : Text → Text
http_protocol p = if same p (text "wss:") then text "https:" else text "http:"

unfoldable pub management_url : Url → (pathname : Text) → Url
management_url u pathname = record u {
  protocol = http_protocol u.protocol;
  pathname = pathname;
  search = [];
  hash = [];
}

unfoldable pub pairing_url : Url → Url
pairing_url u = record u {
  protocol = http_protocol u.protocol;
  pathname = text "/pair";
  search = [];
  hash = [];
}

pub record PairingResponse : Type 0 where
  pub ok : Bool
  pub token : Option Text
  pub host_id : Option Text
  pub device : Option DeviceView
  pub expires_at : Option Text
  pub error : Option Text

-- `pairWithRelay`, once it is answered; `response_ok` is that of the response.
unfoldable pub read_pairing : (response_ok : Bool) → PairingResponse → Outcome PairingResponse
read_pairing response_ok body =
    if not response_ok || not body.ok || not (is_some body.token)
    then throws (or_else body.error (text "Pairing failed"))
    else ok body

abbrev devices_or : Option (List DeviceView) → Text → Outcome (List DeviceView)
devices_or none e = throws e
devices_or (some ds) e = ok ds

-- `listDevices`, once it is answered.
unfoldable pub read_devices :
    (response_ok body_ok : Bool)
    → Option (List DeviceView)
    → (error : Option Text) → Outcome (List DeviceView)
read_devices response_ok body_ok devices error =
    let e = or_else error (text "Could not load devices") in
    if not response_ok || not body_ok then throws e else devices_or devices e

-- `revokeDevice`, once it is answered.
unfoldable pub read_revocation :
    (response_ok body_ok : Bool) → (error : Option Text) → Outcome (Unit {0})
read_revocation response_ok body_ok error =
    if not response_ok || not body_ok
    then throws (or_else error (text "Could not revoke device"))
    else ok tt

-- A pair that the browser generates, and its two parts as `exportKey` gives them.
pub record KeyPair (Key : Type 0) : Type 0 where
  pub private_key : Key
  pub private_jwk : Fields
  pub public_key_jwk : PublicKey

-- What the store keeps, the key, and its public part.
pub record DeviceKey (Key : Type 0) : Type 0 where
  pub stored : Option Text
  pub private_key : Key
  pub public_key_jwk : PublicKey

-- `JSON.parse`, `JSON.stringify` and `crypto.subtle.importKey`, where `none` stands for a throw.
pub record KeyStore (Key : Type 0) : Type 0 where
  pub parse : Text → Option Json
  pub stringify : Fields → Text
  pub import_key : Fields → Option Key

abbrev is_device_jwk : Fields → Bool
is_device_jwk fs =
    is_string (member (text "kty") fs) (text "EC")
    && is_string (member (text "crv") fs) (text "P-256")
    && is_some (as_string (member (text "x") fs))
    && is_some (as_string (member (text "y") fs))

abbrev pub public_part : Fields → PublicKey
public_part fs = record {
  kty = as_string (member (text "kty") fs);
  crv = as_string (member (text "crv") fs);
  x = as_string (member (text "x") fs);
  y = as_string (member (text "y") fs);
}

abbrev pub decision_material :
    CommandEnvelope
    → ApprovalResolve
    → (device_id signed_at : Text) → ApprovalDecisionSignatureMaterial
decision_material c p device signed_at = record {
  command_id = c.command_id;
  host_id = c.host_id;
  session_id = c.session_id;
  approval_id = p.approval_id;
  request_digest = p.request_digest;
  decision = p.decision;
  device_id = device;
  issued_at = c.issued_at;
  expires_at = c.expires_at;
  signed_at = signed_at;
}

module _ {Key : Type 0} where
  abbrev pub imported : KeyStore Key → Fields → Option Key
  imported ks fs = if is_device_jwk fs then ks.import_key fs else none

  abbrev pub with_public : PublicKey → Option Key → Option (Key × PublicKey)
  with_public p none = none
  with_public p (some k) = some (k, p)

  -- The key that the store keeps; a text that is no such key fails.
  abbrev pub stored_key : KeyStore Key → Option Text → Option (Key × PublicKey)
  stored_key ks none = none
  stored_key ks (some t) =
      let fs = as_record (ks.parse t) in with_public (public_part fs) (imported ks fs)

  abbrev pub key_or :
      KeyStore Key → Option Text → KeyPair Key → Option (Key × PublicKey) → DeviceKey Key
  key_or ks stored pair (some (k, p)) = record {
    stored = stored;
    private_key = k;
    public_key_jwk = p;
  }
  key_or ks stored pair none = record {
    stored = some (ks.stringify pair.private_jwk);
    private_key = pair.private_key;
    public_key_jwk = pair.public_key_jwk;
  }

  -- The stored key, or else the generated pair, which is stored.
  unfoldable pub ensure_device_key_pair : KeyStore Key → KeyPair Key → Option Text → DeviceKey Key
  ensure_device_key_pair ks pair stored = key_or ks stored pair (stored_key ks stored)

  -- `sign` gives the signature of a text in base64url.
  abbrev pub signed_command :
      (nfc : Text → Text)
      → (sign : Key → Text → Text) → Key
      → (device_id signed_at : Text) → CommandEnvelope
      → ApprovalResolve
      → CommandEnvelope
  signed_command nfc sign key device signed_at c p =
      let a : Authorization = record {
        device_id = device;
        signed_at = signed_at;
        signature =
            sign key (canonicalize_approval_decision nfc (decision_material c p device signed_at));
      } in
      record c {
        command = NormalizedCommand.approval_resolve (record p { authorization = some a });
      }

  abbrev sign_command :
      (nfc : Text → Text)
      → (sign : Key → Text → Text) → (is_datetime : Text → Bool) → Key
      → (device_id signed_at : Text) → CommandEnvelope
      → NormalizedCommand
      → Outcome CommandEnvelope
  sign_command nfc sign is_datetime key device signed_at c (NormalizedCommand.approval_resolve p) =
      parse_command is_datetime (signed_command nfc sign key device signed_at c p)
  sign_command nfc sign is_datetime key device signed_at c _ = ok c

  unfoldable pub sign_approval_command :
      (nfc : Text → Text)
      → (sign : Key → Text → Text) → (is_datetime : Text → Bool) → Key
      → (device_id signed_at : Text) → CommandEnvelope
      → Outcome CommandEnvelope
  sign_approval_command nfc sign is_datetime key device signed_at c =
      sign_command nfc sign is_datetime key device signed_at c c.command

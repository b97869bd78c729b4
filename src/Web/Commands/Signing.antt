-- ===== src/Web/Commands/Signing.antt =====
-- A decision that the browser signs, at the relay.
use steerloop.Common.{
  ℕ, ◌+◌, ◌<◌, Text, same_refl, ◌∷◌, none, some, Bool, true, false, at_most, arith, ◌≡◌, refl, ap,
  ◌∙◌, lookup,
}
use steerloop.Common.Effects.{ok}
use steerloop.Protocol.Schema.{ApprovalResolve, NormalizedCommand, CommandEnvelope, ClientToRelay}
use steerloop.Protocol.Schema.Checks.{command_envelope_schema}
use steerloop.Relay.Devices.{DeviceRegistry, DeviceRecord, is_revoked, verify_signature}
use steerloop.Relay.Sockets
use steerloop.Relay.Sockets.{Runtime, RelayServer, sends, ready}
use steerloop.Relay.Server.{
  handle_client_frame, verify_approval_authorization, signature_error, forward,
}
use steerloop.Protocol.Approval.{canonicalize_approval_decision}
use steerloop.Web.Commands.{decision_material, build_command, signed_command, sign_approval_command}

-- The command that the browser builds for a decision.
abbrev pub decided :
    Runtime
    → (host_id session_id : Text) → ApprovalResolve
    → (issued : ℕ) → (id : Text) → CommandEnvelope
decided rt host session p issued id = record {
  command_id = id;
  host_id = host;
  session_id = session;
  issued_at = rt.iso issued;
  expires_at = rt.iso (issued + 30000);
  command = NormalizedCommand.approval_resolve p;
}

module _ {Key : Type 0} (rt : Runtime) (sign : Key → Text → Text) (is_datetime : Text → Bool) where
  signature_own :
      (key : Key) (device m : Text) (devices : DeviceRegistry) (d : DeviceRecord)
      → lookup device devices.devices ≡ some d
      → is_revoked d ≡ false
      → rt.check d.public_key m (sign key m) ≡ true
      → verify_signature rt.check devices device m (sign key m) ≡ true
  unfolding verify_signature
  signature_own key device m devices d found live good = rw (verify_signature, found, live) good

  signed_lem :
      (key : Key) (device signed_at : Text) (c : CommandEnvelope) (p : ApprovalResolve)
      (devices : DeviceRegistry) (d : DeviceRecord)
      → lookup device devices.devices ≡ some d
      → is_revoked d ≡ false
      → ((m : Text) → rt.check d.public_key m (sign key m) ≡ true)
      → let k = signed_command rt.nfc sign key device signed_at c p in
        verify_approval_authorization rt (some devices) (some device) k k.command ≡ none
  unfolding verify_approval_authorization signature_error
  signed_lem key device signed_at c p devices d found live pair =
      let m = canonicalize_approval_decision rt.nfc (decision_material c p device signed_at) in
      rw (same_refl device, signature_own key device m devices d found live (pair m)) refl

  forward_open :
      (s a : Text) (k : CommandEnvelope) (r : RelayServer)
      → ready (lookup a r.sockets) ≡ true
      → forward rt s k (some a) r ≡ record r { sent = sends a (Sockets.command k) ∷ r.sent }
  unfolding Sockets.send
  forward_open s a k r up = rw up refl

  -- A browser builds a command for a decision and signs it with its key; the signed command is of the
  -- schema. At a relay where the browser's device is registered with the public part of that key and
  -- is not revoked, and where the command's host has an open connection, a command that arrives less
  -- than 30 seconds after it was built goes to that connection, and nothing else is sent.
  pub signed_command_forwarded :
      (host session : Text) (p : ApprovalResolve) (issued : ℕ) (id : Text) (key : Key)
      (device signed_at : Text) (now : ℕ) (s a : Text) (r : RelayServer) (devices : DeviceRegistry)
      (d : DeviceRecord)
      → let c = decided rt host session p issued id in
        let k = signed_command rt.nfc sign key device signed_at c p in
        command_envelope_schema is_datetime c ≡ true
        → command_envelope_schema is_datetime k ≡ true
        → ((t : ℕ) → rt.date_parse (rt.iso t) ≡ some t)
        → ((m : Text) → rt.check d.public_key m (sign key m) ≡ true)
        → r.registry ≡ some devices
        → lookup device devices.devices ≡ some d
        → is_revoked d ≡ false
        → lookup host r.agents ≡ some a
        → ready (lookup a r.sockets) ≡ true
        → now < issued + 30000
        → (build_command rt.iso is_datetime host session
              (NormalizedCommand.approval_resolve p)
              issued
              id
            ≡ ok c)
          × (sign_approval_command rt.nfc sign is_datetime key device signed_at c ≡ ok k)
          × (handle_client_frame rt now s (some device) (some (ClientToRelay.command k)) r
              ≡ record r { sent = sends a (Sockets.command k) ∷ r.sent })
  unfolding build_command sign_approval_command handle_client_frame
  signed_command_forwarded host session p issued id key device signed_at now s a r devices d built
        fits dates pair kept found live named up early =
      let c = decided rt host session p issued id in
      let fresh : at_most (rt.date_parse c.expires_at) now ≡ false =
        rw (dates (issued + 30000)) (ground (arith, early)) in
      let k = signed_command rt.nfc sign key device signed_at c p in
      let allowed : verify_approval_authorization rt r.registry (some device) k k.command ≡ none =
        ap (λ o. verify_approval_authorization rt o (some device) k k.command) kept
        ∙ signed_lem key device signed_at c p devices d found live pair in
      (rw built refl, rw fits refl, rw (allowed, fresh, named) (forward_open s a k r up))

-- ===== src/Relay/Server/Routing.antt =====
-- Where commands go, and what an approval from a paired device has to carry.
use steerloop.Common.{
  ℕ, Text, text, same→eq, ◌∷◌, Option, none, some, true, false, Bool-cases, Option-cases, ◌⊎◌, inl,
  inr, arith, ◌≡◌, refl, sym, ap, ◌∙◌, at_most, lookup, subst,
}
use steerloop.Protocol.Schema.{
  CommandEnvelope, ApprovalResolve, Authorization, NormalizedCommand, ClientToRelay,
}
use steerloop.Protocol.Approval.{ApprovalDecisionSignatureMaterial, canonicalize_approval_decision}
use steerloop.Protocol.Approval.Binding.{SameDecision, canonicalize_approval_decision_cancel}
use steerloop.Relay.Devices.{DeviceRegistry, DeviceRecord, is_revoked, verify_signature}
use steerloop.Relay.Sockets.{
  Runtime, RelayServer, command, result, sends, agent, ready, send, command_error,
}
use steerloop.Relay.Server.{
  handle_client_frame, verify_approval_authorization, forward, signature_error, signed_material,
}
use steerloop.Relay.Server.Invariant.{peer, Agreed}

-- The command `c` is forwarded: its host's registered connection is open, it has not expired, and
-- its authorization holds. Nothing else changes.
pub record Forwarded (rt : Runtime) (now : ℕ) (device : Option Text) (c : CommandEnvelope)
    (r r' : RelayServer) : Type 0 where
  pub socket : Text
  pub registered : lookup c.host_id r.agents ≡ some socket
  pub is_open : ready (lookup socket r.sockets) ≡ true
  pub unexpired : at_most (rt.date_parse c.expires_at) now ≡ false
  pub allowed : verify_approval_authorization rt r.registry device c c.command ≡ none
  pub effect : r' ≡ record r { sent = sends socket (command c) ∷ r.sent }

-- The command is refused: its sender gets an error with the command's id, if it is still open.
abbrev pub Refused : Text → CommandEnvelope → RelayServer → RelayServer → Type 0
Refused s c r r' =
    (error : Text) × (r' ≡ send s (result (command_error c.command_id c.host_id error)) r)

module _ (rt : Runtime) where
  forward_routes :
      (s : Text) (now : ℕ) (device : Option Text) (c : CommandEnvelope) (r : RelayServer)
      → at_most (rt.date_parse c.expires_at) now ≡ false
      → verify_approval_authorization rt r.registry device c c.command ≡ none
      → Forwarded rt now device c r (forward rt s c (lookup c.host_id r.agents) r)
        ⊎ Refused s c r (forward rt s c (lookup c.host_id r.agents) r)
  unfolding send
  forward_routes s now device c r live good = elim (Option-cases (lookup c.host_id r.agents)) [
    | inl missing ↦ rw missing (inr (text "Host is offline", refl))
    | inr (a, found) ↦ elim (Bool-cases (ready (lookup a r.sockets))) [
      | inl up ↦ inl (record {
        socket = a;
        registered = found;
        is_open = up;
        unexpired = live;
        allowed = good;
        effect = rw (found, up) refl;
      })
      | inr down ↦ inr (text "Host is offline", rw (found, down) refl)
    ]
  ]

  -- A command from a client is either refused with an error to that client, or it is forwarded
  -- exactly once, to the open registered connection of its host, unexpired and authorized.
  pub handle_client_frame_routes :
      (now : ℕ) (s : Text) (device : Option Text) (c : CommandEnvelope) (r : RelayServer)
      → let r' = handle_client_frame rt now s device (some (ClientToRelay.command c)) r in
        Forwarded rt now device c r r' ⊎ Refused s c r r'
  unfolding handle_client_frame
  handle_client_frame_routes now s device c r =
      elim (Option-cases (verify_approval_authorization rt r.registry device c c.command)) [
        | inr (error, bad) ↦ inr (error, rw bad refl)
        | inl good ↦ elim (Bool-cases (at_most (rt.date_parse c.expires_at) now)) [
          | inl over ↦ inr (text "Command has expired", rw (good, over) refl)
          | inr live ↦ rw (good, live) (forward_routes s now device c r live good)
        ]
      ]

  -- Where the registers agree with the sockets, a forwarded command goes to a socket that was
  -- authenticated as the host the command names.
  Forwarded-peer :
      (now : ℕ) (device : Option Text) (c : CommandEnvelope) (r r' : RelayServer)
      → Agreed r
      → (f : Forwarded rt now device c r r') → peer r f.socket ≡ agent c.host_id
  Forwarded-peer now device c r r' a f = a.agents c.host_id f.socket f.registered

  -- The signature of a decision under the key of a device that is registered and not revoked.
  pub record Signed (r : RelayServer) (own : Text) (c : CommandEnvelope) (p : ApprovalResolve)
      : Type 0 where
    pub registry : DeviceRegistry
    pub device : DeviceRecord
    pub authorization : Authorization
    pub has_registry : r.registry ≡ some registry
    pub registered : lookup own registry.devices ≡ some device
    pub live : is_revoked device ≡ false
    pub given : p.authorization ≡ some authorization
    pub of_device : authorization.device_id ≡ own
    pub valid :
        rt.check device.public_key
          (signed_material rt c p own authorization)
          authorization.signature
        ≡ true

  verify_signature_key :
      (d : DeviceRegistry) (own material signature : Text)
      → verify_signature rt.check d own material signature ≡ true
      → (v : DeviceRecord) × (lookup own d.devices ≡ some v)
        × (is_revoked v ≡ false)
        × (rt.check v.public_key material signature ≡ true)
  unfolding verify_signature
  verify_signature_key d own material signature h = elim (Option-cases (lookup own d.devices)) [
    | inl missing ↦ absurd (cc (rw (missing, verify_signature) at h))
    | inr (v, found) ↦
        let g = rw (found, verify_signature) at h in
        (v, found, ground (arith, g), ground (arith, g))
  ]

  signature_error-Signed :
      (r : RelayServer) (own : Text) (c : CommandEnvelope) (p : ApprovalResolve)
      (o : Option DeviceRegistry) (x : Option Authorization)
      → r.registry ≡ o
      → p.authorization ≡ x
      → signature_error rt c p o own x ≡ none
      → Signed r own c p
  unfolding signature_error
  signature_error-Signed r own c p o none eo ex h = absurd (cc h)
  signature_error-Signed r own c p none (some a) eo ex h = absurd (ground arith)
  signature_error-Signed r own c p (some d) (some a) eo ex h =
      let (v, found, live, good) =
        verify_signature_key d own (signed_material rt c p a.device_id a) a.signature
          (ground (arith, h)) in
      record {
        registry = d;
        device = v;
        authorization = a;
        has_registry = eo;
        registered = found;
        live = live;
        given = ex;
        of_device = same→eq a.device_id own (ground (arith, h));
        valid =
            subst (λ k. rt.check v.public_key (signed_material rt c p k a) a.signature ≡ true)
              (same→eq a.device_id own (ground (arith, h))) good;
      }

  -- The decision that a command carries from a device.
  abbrev pub command_decision :
      CommandEnvelope
      → ApprovalResolve
      → (own : Text) → Authorization
      → ApprovalDecisionSignatureMaterial
  command_decision c p own a = record {
    command_id = c.command_id;
    host_id = c.host_id;
    session_id = c.session_id;
    approval_id = p.approval_id;
    request_digest = p.request_digest;
    decision = p.decision;
    device_id = own;
    issued_at = c.issued_at;
    expires_at = c.expires_at;
    signed_at = a.signed_at;
  }

  -- The keys of the device `own` sign nothing but the texts of decisions that were made on it.
  abbrev pub SignsDecisions :
      RelayServer → Text → (ApprovalDecisionSignatureMaterial → Type 0) → Type 0
  SignsDecisions r own IsMade =
      (d : DeviceRegistry) (v : DeviceRecord) (t signature : Text)
      → r.registry ≡ some d
      → lookup own d.devices ≡ some v
      → rt.check v.public_key t signature ≡ true
      → (m : ApprovalDecisionSignatureMaterial) × IsMade m
        × (t ≡ canonicalize_approval_decision rt.nfc m)

  -- An approval that a paired device sends and the relay forwards carries a signature that is valid
  -- under the key of that device, which is registered and not revoked. Where that key signs nothing but
  -- the texts of decisions that were made on the device, this one was made there: for the same command,
  -- host, session, approval, request digest and device, up to normalization, with the same choice and
  -- the same times.
  pub Forwarded-Signed :
      (now : ℕ) (own : Text) (c : CommandEnvelope) (p : ApprovalResolve) (r r' : RelayServer)
      (IsMade : ApprovalDecisionSignatureMaterial → Type 0)
      → SignsDecisions r own IsMade
      → c.command ≡ NormalizedCommand.approval_resolve p
      → Forwarded rt now (some own) c r r'
      → (s : Signed r own c p) × (m : ApprovalDecisionSignatureMaterial) × IsMade m
        × SameDecision rt.nfc m (command_decision c p own s.authorization)
  unfolding verify_approval_authorization
  Forwarded-Signed now own c p r r' IsMade signs is f =
      let s =
        signature_error-Signed r own c p r.registry p.authorization refl refl
          (sym (ap (verify_approval_authorization rt r.registry (some own) c) is) ∙ f.allowed) in
      let (m, made, e) = signs s.registry s.device _ _ s.has_registry s.registered s.valid in
      (
        s,
        m,
        made,
        canonicalize_approval_decision_cancel rt.nfc m (command_decision c p own s.authorization)
            (sym e),
      )

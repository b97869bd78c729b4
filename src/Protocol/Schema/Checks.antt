-- ===== src/Protocol/Schema/Checks.antt =====
-- packages/protocol/src/schema.ts: the constraints that the schemas put on well-typed data.
-- `is_datetime` is the library's check of `z.string().datetime({ offset: true })`.
use steerloop.Common.{
  ℕ, Text, List, [], ◌∷◌, Option, none, some, Bool, true, ◌&&◌, ◌||◌, leb, length, ◌==◌,
}
use steerloop.Protocol.Schema.{
  NormalizedEvent, host_connected, host_heartbeat, host_disconnected, session_upserted,
  session_status_changed, session_activity, session_message_delta, session_diff_updated,
  approval_requested, approval_resolved, EventEnvelope, Authorization, NormalizedCommand,
  approval_resolve, session_interrupt, session_prompt, CommandEnvelope, CommandResult, PairingOffer,
  AuthFrame, AuthResult,
}

-- `z.string().min(lo).max(hi)`
abbrev pub sized : ℕ → ℕ → Text → Bool
sized lo hi s = leb lo (length s) && leb (length s) hi

abbrev pub optional {ℓ} : {A : Type ℓ} → (A → Bool) → Option A → Bool
optional p none = true
optional p (some a) = p a

abbrev pub all {ℓ} : {A : Type ℓ} → (A → Bool) → List A → Bool
all p [] = true
all p (x ∷ xs) = p x && all p xs

abbrev between : ℕ → ℕ → ℕ → Bool
between lo hi c = leb lo c && leb c hi

unfoldable pub id_schema : Text → Bool
id_schema = sized 1 256

-- `/^[a-f0-9]{64}$/`
unfoldable pub digest_schema : Text → Bool
digest_schema s = (length s == 64) && all (λ c. between b'a' b'f' c || between b'0' b'9' c) s

-- `/^[A-Za-z0-9_-]+$/`
unfoldable pub signature_schema : Text → Bool
signature_schema s =
    sized 64 512 s
    && all
        (λ c.
          between b'A' b'Z' c
          || between b'a' b'z' c
          || between b'0' b'9' c
          || (c == b'_')
          || (c == b'-'))
        s

-- `/^[A-Z0-9-]+$/`
code_schema : Text → Bool
code_schema s =
    sized 6 32 s && all (λ c. between b'A' b'Z' c || between b'0' b'9' c || (c == b'-')) s

module _ (is_datetime : Text → Bool) where
  unfoldable pub normalized_event_schema : NormalizedEvent → Bool
  unfolding id_schema digest_schema
  normalized_event_schema (host_connected p) =
      sized 1 256 p.name
      && sized 1 128 p.platform
      && sized 1 64 p.agent_version
      && all (sized 1 128) p.capabilities
      && leb (length p.capabilities) 64
  normalized_event_schema (host_heartbeat at) = is_datetime at
  normalized_event_schema (host_disconnected reason) = optional (sized 0 512) reason
  normalized_event_schema (session_upserted p) =
      sized 1 512 p.title && optional (sized 0 4096) p.cwd && sized 1 64 p.source
  normalized_event_schema (session_status_changed p) = optional (sized 0 2048) p.detail
  normalized_event_schema (session_activity p) =
      id_schema p.activity_id && sized 1 2048 p.summary && optional (sized 0 16384) p.detail
  normalized_event_schema (session_message_delta p) =
      id_schema p.message_id && sized 0 16384 p.delta
  normalized_event_schema (session_diff_updated p) = sized 0 4096 p.summary
  normalized_event_schema (approval_requested p) =
      id_schema p.approval_id
      && sized 1 512 p.title
      && optional (sized 0 4096) p.reason
      && optional (sized 0 16384) p.command
      && optional (sized 0 4096) p.cwd
      && optional (sized 0 4096) p.grant_root
      && optional (sized 0 512) p.network_host
      && optional (sized 0 32) p.network_protocol
      && optional (λ ps. all (sized 1 1024) ps && leb (length ps) 128) p.requested_permissions
      && digest_schema p.request_digest
      && is_datetime p.expires_at
  normalized_event_schema (approval_resolved p) =
      id_schema p.approval_id && is_datetime p.resolved_at

  unfoldable pub event_envelope_schema : EventEnvelope → Bool
  unfolding normalized_event_schema
  event_envelope_schema e =
      id_schema e.event_id
      && leb 1 e.sequence
      && id_schema e.host_id
      && optional id_schema e.session_id
      && is_datetime e.emitted_at
      && normalized_event_schema e.event

  unfoldable pub authorization_schema : Authorization → Bool
  unfolding id_schema signature_schema
  authorization_schema a =
      id_schema a.device_id && is_datetime a.signed_at && signature_schema a.signature

  unfoldable pub normalized_command_schema : NormalizedCommand → Bool
  unfolding authorization_schema digest_schema
  normalized_command_schema (approval_resolve p) =
      id_schema p.approval_id
      && digest_schema p.request_digest
      && optional authorization_schema p.authorization
  normalized_command_schema session_interrupt = true
  normalized_command_schema (session_prompt prompt behavior) = sized 1 16384 prompt

  unfoldable pub command_envelope_schema : CommandEnvelope → Bool
  unfolding normalized_command_schema
  command_envelope_schema c =
      id_schema c.command_id
      && id_schema c.host_id
      && id_schema c.session_id
      && is_datetime c.issued_at
      && is_datetime c.expires_at
      && normalized_command_schema c.command

  unfoldable pub pairing_offer_schema : PairingOffer → Bool
  unfolding id_schema code_schema
  pairing_offer_schema o = id_schema o.host_id && code_schema o.code && is_datetime o.expires_at

unfoldable pub command_result_schema : CommandResult → Bool
unfolding id_schema
command_result_schema r =
    id_schema r.command_id && id_schema r.host_id && optional (sized 0 2048) r.error

unfoldable pub auth_frame_schema : AuthFrame → Bool
unfolding id_schema
auth_frame_schema (AuthFrame.agent token host_id) = sized 1 4096 token && id_schema host_id
auth_frame_schema (AuthFrame.client token) = sized 1 4096 token

unfoldable pub auth_result_schema : AuthResult → Bool
auth_result_schema r = optional (sized 0 2048) r.error

-- ===== src/Web/Integrity.antt =====
-- apps/web/src/approval-integrity.ts: whether an approval that is shown is the one that its digest
-- binds. `digest` is SHA-256 in hexadecimal, `none` where the browser has no `crypto.subtle`.
use steerloop.Common.{
  ℕ, ◌∙◌, Text, same, same_refl, Option, none, some, false, if◌then◌else◌, if_true, Bool-cases,
  same→eq, inl, inr, ◌≡◌, ◌≢◌, refl, sym, lookup,
}
use steerloop.Protocol.State.{is_dropped, reduce_event}
use steerloop.Protocol.State.Writes.{WellFormed}
use steerloop.Protocol.State.Approvals.{reduce_event_requested}
use steerloop.Protocol.Schema.{approval_requested, ApprovalRequested, EventEnvelope}
use steerloop.Protocol.Approval.{ApprovalDigestMaterial, canonicalize_approval}
use steerloop.Protocol.View.{ApprovalView, ControlPlaneState}
use steerloop.Protocol.Handlers.{requested_approval}

pub data ApprovalIntegrity : Type 0 where
  checking valid invalid unavailable : ApprovalIntegrity

abbrev pub shown_material : ApprovalView → ApprovalDigestMaterial
shown_material a = record {
  approval_id = a.id;
  kind = a.kind;
  command = a.command;
  cwd = a.cwd;
  grant_root = a.grant_root;
  network_host = a.network_host;
  network_protocol = a.network_protocol;
  reason = a.reason;
  requested_permissions = a.requested_permissions;
}

module _ (nfc : Text → Text) where
  unfoldable pub approval_material : ApprovalView → Text
  approval_material a = canonicalize_approval nfc (shown_material a)

  unfoldable pub verify_approval_integrity : Option (Text → Text) → ApprovalView → ApprovalIntegrity
  verify_approval_integrity none a = unavailable
  verify_approval_integrity (some digest) a =
      if same (digest (approval_material a)) a.request_digest then valid else invalid

  -- What a request binds when it is shown as it was sent.
  abbrev pub requested_material : ApprovalRequested → Text
  requested_material p = canonicalize_approval nfc (record {
    approval_id = p.approval_id;
    kind = p.kind;
    command = p.command;
    cwd = p.cwd;
    grant_root = p.grant_root;
    network_host = p.network_host;
    network_protocol = p.network_protocol;
    reason = p.reason;
    requested_permissions = p.requested_permissions;
  })

  pub verify_requested_valid :
      (digest : Text → Text) (e : EventEnvelope) (p : ApprovalRequested) (id : Text)
      → p.request_digest ≡ digest (requested_material p)
      → verify_approval_integrity (some digest) (requested_approval e p id) ≡ valid
  unfolding verify_approval_integrity approval_material
  verify_requested_valid digest e p id h = rw (h, same_refl (digest (requested_material p))) refl

  pub verify_requested_invalid :
      (digest : Text → Text) (e : EventEnvelope) (p : ApprovalRequested) (id : Text)
      → p.request_digest ≢ digest (requested_material p)
      → verify_approval_integrity (some digest) (requested_approval e p id) ≡ invalid
  unfolding verify_approval_integrity approval_material
  verify_requested_invalid digest e p id h =
      elim (Bool-cases (same (digest (requested_material p)) p.request_digest)) [
        | inl hit ↦ absurd (h (sym (same→eq (digest (requested_material p)) p.request_digest hit)))
        | inr miss ↦ rw miss refl
      ]

  -- The approval that the browser shows once it has taken in a request.
  pub shown_requested :
      (date_parse : Text → Option ℕ) (s : ControlPlaneState) (e : EventEnvelope)
      (p : ApprovalRequested) (id : Text)
      → WellFormed s
      → is_dropped date_parse s e ≡ false
      → e.event ≡ approval_requested p
      → e.session_id ≡ some id
      → lookup p.approval_id (reduce_event date_parse s e).approvals
        ≡ some (requested_approval e p id)
  shown_requested date_parse s e p id w fresh is named =
      (reduce_event_requested date_parse s w e fresh p id is named).0 p.approval_id
      ∙ if_true (same p.approval_id p.approval_id) _ _ (same_refl p.approval_id)

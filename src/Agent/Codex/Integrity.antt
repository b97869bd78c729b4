-- ===== src/Agent/Codex/Integrity.antt =====
-- What the browser makes of an approval that the Codex adapter asks for.
use steerloop.Common.{ℕ, ◌+◌, ◌*◌, Text, insert}
use steerloop.Common.Json.{Json, Fields}
use steerloop.Protocol.Schema.{ApprovalRequested}
use steerloop.Protocol.Approval.{canonicalize_approval}
use steerloop.Agent.Codex.Adapter.{RequestKind, PendingCodexApproval, CodexAdapter}
use steerloop.Agent.Codex.Requests.{Asked, asked_material, asked_payload, kept_permissions}

module _ (nfc hash : Text → Text) (iso : ℕ → Text) (now : ℕ) (approval_id : Text) (a : Asked) where
  abbrev pub asked_digest : Text
  asked_digest = hash (canonicalize_approval nfc (asked_material approval_id a))

  abbrev pub asked_request : ApprovalRequested
  asked_request = asked_payload approval_id asked_digest (iso (now + 5 * 60000)) a

  abbrev pub kept_approval :
      (id : Json) → RequestKind → (session_id : Text) → Fields → PendingCodexApproval
  kept_approval id k session_id raw = record {
    approval_id = approval_id;
    digest = asked_digest;
    expires_at = now + 5 * 60000;
    request_id = id;
    kind = k;
    requested_permissions = kept_permissions k raw;
    session_id = session_id;
  }

  abbrev keeping : CodexAdapter → Json → RequestKind → Text → Fields → CodexAdapter
  keeping c id k session_id raw = record c {
    pending_approvals = insert approval_id (kept_approval id k session_id raw) c.pending_approvals;
  }

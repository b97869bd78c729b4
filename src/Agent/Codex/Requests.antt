-- ===== src/Agent/Codex/Requests.antt =====
-- apps/agent/src/codex-adapter.ts: an approval that the Codex process asks for. `hash` is SHA-256 in
-- hexadecimal.
use steerloop.Common.{
  ℕ, ◌+◌, ◌*◌, Text, text, same, List, [], ◌∷◌, ◌++◌, Option, none, some, Bool, if◌then◌else◌,
  insert,
}
use steerloop.Common.Json.{Json, Fields, member, as_record, string_or}
use steerloop.Common.Effects.{◌>>=◌, ◌>>◌, modify}
use steerloop.Protocol.Schema.{ApprovalKind, ApprovalRequested, approval_requested, NormalizedEvent}
use steerloop.Protocol.Approval.{ApprovalDigestMaterial, canonicalize_approval}
use steerloop.Agent.AppServer.{ServerMessage, respond_error}
use steerloop.Agent.Codex.Values.{
  Show, network_host, network_protocol, command_limit, cwd_limit, approval_reason, approval_title,
  optional_string, optional_limited_string, limit_codex_string, summarize_requested_permissions,
}
use steerloop.Agent.Codex.Adapter.{
  RequestKind, command, file_change, permissions, PendingCodexApproval, Run, with_client, emit,
}

-- The kind that a method asks for.
unfoldable pub request_kind : (method : Text) → Option RequestKind
request_kind method =
    if same method (text "item/commandExecution/requestApproval")
    then some command
    else if same method (text "item/fileChange/requestApproval")
    then some file_change
    else if same method (text "item/permissions/requestApproval")
    then some permissions
    else none

abbrev pub approval_kind : RequestKind → Option Text → ApprovalKind
approval_kind k (some host) = ApprovalKind.network
approval_kind command none = ApprovalKind.command
approval_kind file_change none = ApprovalKind.file_change
approval_kind permissions none = ApprovalKind.permissions

abbrev pub request_title : RequestKind → Option Text → Text
request_title k (some host) =
    limit_codex_string (text "Allow network access to " ++ host) approval_title
request_title command none = text "Allow command execution"
request_title file_change none = text "Allow file changes"
request_title permissions none = text "Grant additional permissions"

abbrev pub unless_empty : List Text → Option (List Text)
unless_empty [] = none
unless_empty (l ∷ ls) = some (l ∷ ls)

-- What a request asks for, apart from its id, digest and expiry.
pub record Asked : Type 0 where
  pub kind : ApprovalKind
  pub title : Text
  pub reason : Option Text
  pub command : Option Text
  pub cwd : Option Text
  pub grant_root : Option Text
  pub network_host : Option Text
  pub network_protocol : Option Text
  pub requested_permissions : Option (List Text)

abbrev pub asked : RequestKind → Fields → List Text → Asked
asked k params lines =
    let network = as_record (member (text "networkApprovalContext") params) in
    let host = optional_limited_string (member (text "host") network) network_host in
    record {
      kind = approval_kind k host;
      title = request_title k host;
      reason = optional_limited_string (member (text "reason") params) approval_reason;
      command = optional_limited_string (member (text "command") params) command_limit;
      cwd = optional_limited_string (member (text "cwd") params) cwd_limit;
      grant_root = optional_limited_string (member (text "grantRoot") params) cwd_limit;
      network_host = host;
      network_protocol =
          optional_limited_string (member (text "protocol") network) network_protocol;
      requested_permissions = unless_empty lines;
    }

abbrev pub asked_material : Text → Asked → ApprovalDigestMaterial
asked_material id a = record {
  approval_id = id;
  kind = a.kind;
  command = a.command;
  cwd = a.cwd;
  grant_root = a.grant_root;
  network_host = a.network_host;
  network_protocol = a.network_protocol;
  reason = a.reason;
  requested_permissions = a.requested_permissions;
}

abbrev pub asked_payload : (id digest expires_at : Text) → Asked → ApprovalRequested
asked_payload id digest expires_at a = record {
  approval_id = id;
  kind = a.kind;
  title = a.title;
  reason = a.reason;
  command = a.command;
  cwd = a.cwd;
  grant_root = a.grant_root;
  network_host = a.network_host;
  network_protocol = a.network_protocol;
  requested_permissions = a.requested_permissions;
  request_digest = digest;
  expires_at = expires_at;
}

-- Only a request for permissions keeps what it asked for.
abbrev pub kept_permissions : RequestKind → Fields → Option Fields
kept_permissions permissions fs = some fs
kept_permissions _ fs = none

abbrev pub some_or : Option Json → Json → Option Json
some_or (some Json.null) j = some j
some_or (some i) j = some i
some_or none j = some j

module _ (rt : Show) (nfc hash : Text → Text) (iso : ℕ → Text)
    (accepts : Option Text → NormalizedEvent → Bool) where
  abbrev pub approval_id : (session_id item_id : Text) → (id : Json) → Fields → Text
  approval_id session_id item_id id params =
      session_id
      ++ (b':'
          ∷ (item_id
              ++ (b':' ∷ string_or rt.show (some_or (member (text "approvalId") params) id) [])))

  -- The request is kept until it is resolved, and then told.
  unfoldable pub keep_request :
      (now : ℕ) → (id : Json) → RequestKind → (approval_id session_id : Text) → Fields → Asked → Run
  keep_request now id k approval_id session_id raw a = do
    let digest = hash (canonicalize_approval nfc (asked_material approval_id a))
    let expires_at : ℕ = now + 5 * 60000
    let pending : PendingCodexApproval = record {
      approval_id = approval_id;
      digest = digest;
      expires_at = expires_at;
      request_id = id;
      kind = k;
      requested_permissions = kept_permissions k raw;
      session_id = session_id;
    }
    modify (λ s. record s { pending_approvals = insert approval_id pending s.pending_approvals })
    emit accepts (some session_id)
        (approval_requested (asked_payload approval_id digest (iso expires_at) a))

  abbrev pub identified_request :
      (now : ℕ) → (id : Json) → RequestKind → Fields → Option Text → Option Text → Run
  identified_request now id k params (some session_id) (some item_id) = do
    let raw = as_record (member (text "permissions") params)
    lines ← λ s. (s, summarize_requested_permissions rt raw)
    keep_request now id k (approval_id session_id item_id id params) session_id raw
        (asked k params lines)
  identified_request now id k params _ _ =
      with_client (respond_error id (text "-32602") (text "Malformed approval request"))

  abbrev pub request_of_kind : (now : ℕ) → (id : Json) → Fields → Option RequestKind → Run
  request_of_kind now id params none =
      with_client (respond_error id (text "-32601") (text "Unsupported remote request"))
  request_of_kind now id params (some k) =
      identified_request now id k params (optional_string (member (text "threadId") params))
        (optional_string (member (text "itemId") params))

  unfoldable pub handle_server_request : (now : ℕ) → (id : Json) → ServerMessage → Run
  handle_server_request now id m =
      request_of_kind now id (as_record m.params) (request_kind m.method)

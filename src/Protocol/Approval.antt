-- ===== src/Protocol/Approval.antt =====
-- packages/protocol/src/approval.ts: the texts that bind an approval and a decision, and the part of
-- `JSON.stringify` that they use. `nfc` is `String.prototype.normalize("NFC")`.
pub mod Reading
pub mod Binding
use steerloop.Common.{
  ℕ, ◌+◌, ◌-◌, ◌/◌, ◌%◌, Text, text, List, [], ◌∷◌, ◌++◌, Option, none, some, Bool, true, false,
  ◌&&◌, ◌||◌, ltb, leb, ◌==◌, if◌then◌else◌, map, or_else,
}
use steerloop.Protocol.Schema.{ApprovalKind, ApprovalDecision}

-- `JSON.stringify` on a string.
abbrev pub is_high : ℕ → Bool
is_high c = leb 0xd800 c && leb c 0xdbff

abbrev pub is_low : ℕ → Bool
is_low c = leb 0xdc00 c && leb c 0xdfff

abbrev pub lower_hex : ℕ → ℕ
lower_hex d = if ltb d 10 then b'0' + d else b'a' + (d - 10)

abbrev pub unicode_escape : ℕ → Text
unicode_escape c =
    b'\\'
    ∷ b'u'
    ∷ lower_hex (c / 4096 % 16)
    ∷ lower_hex (c / 256 % 16)
    ∷ lower_hex (c / 16 % 16)
    ∷ lower_hex (c % 16)
    ∷ []

unfoldable pub quote_unit : ℕ → Text
quote_unit c =
    if c == 8
    then text "\\b"
    else if c == 9
    then text "\\t"
    else if c == 10
    then text "\\n"
    else if c == 12
    then text "\\f"
    else if c == 13
    then text "\\r"
    else if c == 34
    then 92 ∷ 34 ∷ []
    else if c == 92
    then 92 ∷ 92 ∷ []
    else if ltb c 32 || is_high c || is_low c
    then unicode_escape c
    else c ∷ []

-- A surrogate pair is written as it is, a lone surrogate is escaped.
unfoldable pub quote_units : Text → Text
quote_units [] = []
quote_units (c ∷ []) = quote_unit c
quote_units (c ∷ d ∷ s) =
    let pair = c ∷ d ∷ quote_units s in
    let single = quote_unit c ++ quote_units (d ∷ s) in
    if is_high c && is_low d then pair else single

unfoldable pub quote : Text → Text
quote s = 34 ∷ (quote_units s ++ 34 ∷ [])

abbrev null : Text
null = text "null"

unfoldable pub quote_optional : Option Text → Text
quote_optional none = null
quote_optional (some s) = quote s

unfoldable pub join_quoted : List Text → Text
join_quoted [] = []
join_quoted (s ∷ []) = quote s
join_quoted (s ∷ t ∷ ss) = quote s ++ (b',' ∷ join_quoted (t ∷ ss))

unfoldable pub quote_list : List Text → Text
quote_list ss = b'[' ∷ (join_quoted ss ++ b']' ∷ [])

-- `{"name":value,…}`, for names that need no escapes and values that are written already.
unfoldable pub join_fields : List (Text × Text) → Text
join_fields [] = []
join_fields ((k, v) ∷ []) = quote k ++ (b':' ∷ v)
join_fields ((k, v) ∷ f ∷ fs) = quote k ++ (b':' ∷ (v ++ (b',' ∷ join_fields (f ∷ fs))))

unfoldable pub quote_object : List (Text × Text) → Text
quote_object fs = b'{' ∷ (join_fields fs ++ b'}' ∷ [])

-- The order of `Array.prototype.sort`, by UTF-16 code units.
unfoldable pub text_le : Text → Text → Bool
text_le [] t = true
text_le (c ∷ s) [] = false
text_le (c ∷ s) (d ∷ t) = ltb c d || ((c == d) && text_le s t)

unfoldable pub insert_sorted : Text → List Text → List Text
insert_sorted s [] = s ∷ []
insert_sorted s (t ∷ ts) = if text_le s t then s ∷ t ∷ ts else t ∷ insert_sorted s ts

unfoldable pub sort : List Text → List Text
sort [] = []
sort (s ∷ ss) = insert_sorted s (sort ss)

unfoldable pub kind_text : ApprovalKind → Text
kind_text ApprovalKind.command = text "command"
kind_text ApprovalKind.file_change = text "file_change"
kind_text ApprovalKind.network = text "network"
kind_text ApprovalKind.permissions = text "permissions"

unfoldable pub decision_text : ApprovalDecision → Text
decision_text ApprovalDecision.approve_once = text "approve_once"
decision_text ApprovalDecision.decline = text "decline"
decision_text ApprovalDecision.cancel = text "cancel"

pub record ApprovalDigestMaterial : Type 0 where
  pub approval_id : Text
  pub kind : ApprovalKind
  pub command : Option Text
  pub cwd : Option Text
  pub grant_root : Option Text
  pub network_host : Option Text
  pub network_protocol : Option Text
  pub reason : Option Text
  pub requested_permissions : Option (List Text)

pub record ApprovalDecisionSignatureMaterial : Type 0 where
  pub command_id : Text
  pub host_id : Text
  pub session_id : Text
  pub approval_id : Text
  pub request_digest : Text
  pub decision : ApprovalDecision
  pub device_id : Text
  pub issued_at : Text
  pub expires_at : Text
  pub signed_at : Text

module _ (nfc : Text → Text) where
  unfoldable pub normalized_optional : Option Text → Option Text
  normalized_optional none = none
  normalized_optional (some s) = some (nfc s)

  unfoldable pub canonicalize_approval : ApprovalDigestMaterial → Text
  canonicalize_approval m = quote_object (
      (text "approvalId", quote (nfc m.approval_id))
      ∷ (text "kind", quote (kind_text m.kind))
      ∷ (text "command", quote_optional (normalized_optional m.command))
      ∷ (text "cwd", quote_optional (normalized_optional m.cwd))
      ∷ (text "grantRoot", quote_optional (normalized_optional m.grant_root))
      ∷ (text "networkHost", quote_optional (normalized_optional m.network_host))
      ∷ (text "networkProtocol", quote_optional (normalized_optional m.network_protocol))
      ∷ (text "reason", quote_optional (normalized_optional m.reason))
      ∷ (
        text "requestedPermissions",
        quote_list (sort (map nfc (or_else m.requested_permissions []))),
      )
      ∷ [])

  unfoldable pub canonicalize_approval_decision : ApprovalDecisionSignatureMaterial → Text
  canonicalize_approval_decision m = quote_object (
      (text "commandId", quote (nfc m.command_id))
      ∷ (text "hostId", quote (nfc m.host_id))
      ∷ (text "sessionId", quote (nfc m.session_id))
      ∷ (text "approvalId", quote (nfc m.approval_id))
      ∷ (text "requestDigest", quote (nfc m.request_digest))
      ∷ (text "decision", quote (decision_text m.decision))
      ∷ (text "deviceId", quote (nfc m.device_id))
      ∷ (text "issuedAt", quote m.issued_at)
      ∷ (text "expiresAt", quote m.expires_at)
      ∷ (text "signedAt", quote m.signed_at)
      ∷ [])

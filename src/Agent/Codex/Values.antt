-- ===== src/Agent/Codex/Values.antt =====
-- apps/agent/src/codex-adapter.ts: reading values of the Codex process, and keeping texts short.
use steerloop.Common.{
  ℕ, ◌-◌, Text, text, List, [], ◌∷◌, ◌++◌, map, Option, none, some, Bool, false, ◌||◌, leb,
  if◌then◌else◌, length, take, or_else,
}
use steerloop.Common.Json.{
  Json, str, arr, obj, Fields, end, field, member, as_record, as_array, as_string, is_string,
  is_true, string_or,
}
use steerloop.Common.Effects.{Outcome, ok, throws}
use steerloop.Protocol.Schema.{SessionStatus, ApprovalDecision}

-- `FIELD_LIMITS`
abbrev pub session_title : ℕ
session_title = 512

abbrev pub cwd_limit : ℕ
cwd_limit = 4096

abbrev pub approval_title : ℕ
approval_title = 512

abbrev pub approval_reason : ℕ
approval_reason = 4096

abbrev pub command_limit : ℕ
command_limit = 16384

abbrev pub network_host : ℕ
network_host = 512

abbrev pub network_protocol : ℕ
network_protocol = 32

abbrev pub status_detail : ℕ
status_detail = 2048

abbrev pub activity_summary : ℕ
activity_summary = 2048

abbrev pub activity_detail : ℕ
activity_detail = 16384

abbrev pub message_delta : ℕ
message_delta = 16384

abbrev pub diff_summary : ℕ
diff_summary = 4096

abbrev pub non_empty : Text → Option Text
non_empty [] = none
non_empty (c ∷ s) = some (c ∷ s)

abbrev pub optional_text : Option Text → Option Text
optional_text none = none
optional_text (some s) = non_empty s

unfoldable pub optional_string : Option Json → Option Text
optional_string v = optional_text (as_string v)

unfoldable pub limit_codex_string : Text → ℕ → Text
limit_codex_string s n =
    if leb (length s) n then s else if leb n 3 then take n s else take (n - 3) s ++ text "..."

abbrev pub limited : Option Text → ℕ → Option Text
limited none n = none
limited (some s) n = some (limit_codex_string s n)

unfoldable pub optional_limited_string : Option Json → ℕ → Option Text
optional_limited_string v n = limited (optional_string v) n

unfoldable pub any_string : List Json → Text → Bool
any_string [] t = false
any_string (j ∷ js) t = is_string (some j) t || any_string js t

unfoldable pub map_thread_status : Option Json → SessionStatus
map_thread_status v =
    let fs = as_record v in
    let flags = or_else (as_array (member (text "activeFlags") fs)) [] in
    if is_string (member (text "type") fs) (text "active")
    then if any_string flags (text "waitingOnApproval")
      then SessionStatus.waiting_approval
      else if any_string flags (text "waitingOnUserInput")
      then SessionStatus.waiting_input
      else SessionStatus.running
    else if is_string (member (text "type") fs) (text "systemError")
    then SessionStatus.failed
    else SessionStatus.idle

-- The decision as Codex names it.
unfoldable pub approval_decision : ApprovalDecision → Text
approval_decision ApprovalDecision.approve_once = text "accept"
approval_decision ApprovalDecision.decline = text "decline"
approval_decision ApprovalDecision.cancel = text "cancel"

abbrev pub first_string : Option Text → Option Text → Option Text
first_string none t = t
first_string (some s) t = some s

-- What the runtime does: `String` on arrays and objects, `JSON.stringify`, and decimals.
pub record Show : Type 0 where
  pub show : Json → Text
  pub stringify : Json → Text
  pub decimal : ℕ → Text

module _ (rt : Show) where
  abbrev path_field : Json → Option Text
  path_field v =
      let fs = as_record (some v) in
      first_string (as_string (member (text "path") fs)) (
        first_string (as_string (member (text "pattern") fs))
          (as_string (member (text "value") fs)))

  -- Without a text `JSON.stringify` tells; on `undefined` that has no `slice`.
  unfoldable pub display_path : Option Json → Outcome Text
  display_path none = throws (text "Cannot read properties of undefined")
  display_path (some (str s)) = ok s
  display_path (some v) = ok (or_else (path_field v) (take 900 (rt.stringify v)))

  abbrev pub add_line : Text → Outcome Text → Outcome (List Text) → Outcome (List Text)
  add_line label (throws e) rest = throws e
  add_line label (ok p) (throws e) = throws e
  add_line label (ok p) (ok ls) = ok ((label ++ (text ": " ++ p)) ∷ ls)

  unfoldable pub path_lines : (access : Text) → List Json → Outcome (List Text)
  path_lines access [] = ok []
  path_lines access (j ∷ js) = add_line access (display_path (some j)) (path_lines access js)

  unfoldable pub entry_lines : List Json → Outcome (List Text)
  entry_lines [] = ok []
  entry_lines (j ∷ js) =
      let fs = as_record (some j) in
      add_line (string_or rt.show (member (text "access") fs) (text "access"))
        (display_path (member (text "path") fs)) (entry_lines js)

  abbrev pub join_lines : Outcome (List Text) → Outcome (List Text) → Outcome (List Text)
  join_lines (throws e) r = throws e
  join_lines (ok xs) (throws e) = throws e
  join_lines (ok xs) (ok ys) = ok (xs ++ ys)

  abbrev pub clip_lines : Outcome (List Text) → Outcome (List Text)
  clip_lines (throws e) = throws e
  clip_lines (ok ls) = ok (map (take 1024) (take 128 ls))

  abbrev network_line : Fields → List Text
  network_line permissions =
      if is_true (member (text "enabled") (as_record (member (text "network") permissions)))
      then text "Enable network access" ∷ []
      else []

  unfoldable pub summarize_requested_permissions : Fields → Outcome (List Text)
  summarize_requested_permissions permissions =
      let fs = as_record (member (text "fileSystem") permissions) in
      clip_lines (
        join_lines (ok (network_line permissions)) (
          join_lines (path_lines (text "read") (or_else (as_array (member (text "read") fs)) [])) (
            join_lines
              (path_lines (text "write") (or_else (as_array (member (text "write") fs)) []))
              (entry_lines (or_else (as_array (member (text "entries") fs)) [])))))

-- A field that is an object or an array is granted.
abbrev pub granted_field : Text → Option Json → Fields → Fields
granted_field k (some (obj fs)) rest = field k (obj fs) rest
granted_field k (some (arr js)) rest = field k (arr js) rest
granted_field k _ rest = rest

unfoldable pub granted_permissions : Fields → Fields
granted_permissions fs =
    granted_field (text "network") (member (text "network") fs)
      (granted_field (text "fileSystem") (member (text "fileSystem") fs) end)

-- ===== src/Agent/Codex/Notices.antt =====
-- apps/agent/src/codex-adapter.ts: what the Codex process tells of its threads, turns and items. The
-- random id is that of an activity or a message without one.
use steerloop.Common.{
  ℕ, suc, Text, text, same, List, [], ◌∷◌, ◌++◌, Option, none, some, Bool, false, ◌&&◌, ◌||◌, not,
  ◌==◌, if◌then◌else◌, or_else, length, lookup, insert, remove,
}
use steerloop.Common.Json.{
  Json, arr, Fields, items, member, as_record, as_string, is_string, string_or,
}
use steerloop.Common.Effects.{◌>>=◌, ◌>>◌, return, modify, get}
use steerloop.Protocol.Schema.{
  SessionStatus, ActivityKind, NormalizedEvent, session_activity, session_message_delta,
  session_diff_updated,
}
use steerloop.Protocol.State.{includes}
use steerloop.Agent.AppServer.{ServerMessage}
use steerloop.Agent.Codex.Values.{
  Show, cwd_limit, status_detail, activity_summary, activity_detail, message_delta, diff_summary,
  optional_string, optional_limited_string, limit_codex_string, map_thread_status,
}
use steerloop.Agent.Codex.Adapter.{
  Run, Replies, status_event, set_loaded, start_turn, emit, emit_thread,
}

-- The lines of a text, as `^` and `.` see them.
abbrev is_line_end : ℕ → Bool
is_line_end c = (c == 10) || (c == 13) || (c == 0x2028) || (c == 0x2029)

abbrev into_first : ℕ → List Text → List Text
into_first c [] = (c ∷ []) ∷ []
into_first c (l ∷ ls) = (c ∷ l) ∷ ls

unfoldable pub diff_lines : Text → List Text
diff_lines [] = [] ∷ []
diff_lines (c ∷ s) =
    let rest = diff_lines s in if is_line_end c then [] ∷ rest else into_first c rest

-- The rest after a prefix.
unfoldable pub after_prefix : Text → Text → Option Text
after_prefix [] s = some s
after_prefix (c ∷ p) [] = none
after_prefix (c ∷ p) (d ∷ s) = if c == d then after_prefix p s else none

abbrev with_unit : ℕ → Option Text → Option Text
with_unit c none = none
with_unit c (some s) = some (c ∷ s)

-- The shortest text before ` b/`.
unfoldable pub name_before : Text → Option Text
name_before [] = none
name_before (c ∷ s) =
    let rest = with_unit c (name_before s) in
    elim (after_prefix (text " b/") (c ∷ s)) [ none ↦ rest | some t ↦ some [] ]

-- `(.+?) b/`: at least one unit stands before it.
abbrev file_name : Text → Option Text
file_name [] = none
file_name (c ∷ s) = with_unit c (name_before s)

abbrev changed_file : Option Text → Option Text
changed_file none = none
changed_file (some s) = file_name s

abbrev add_file : Option Text → List Text → List Text
add_file none fs = fs
add_file (some f) fs = if includes fs f then fs else f ∷ fs

-- The distinct files of the lines `diff --git a/<file> b/`.
unfoldable pub changed_files : List Text → List Text
changed_files [] = []
changed_files (l ∷ ls) =
    add_file (changed_file (after_prefix (text "diff --git a/") l)) (changed_files ls)

-- The lines that begin with the unit once, or twice at most.
abbrev counts_line : ℕ → Text → Bool
counts_line c [] = false
counts_line c (d ∷ []) = d == c
counts_line c (d ∷ e ∷ []) = d == c
counts_line c (d ∷ e ∷ f ∷ s) = (d == c) && not ((e == c) && (f == c))

unfoldable pub count_lines : ℕ → List Text → ℕ
count_lines c [] = 0
count_lines c (l ∷ ls) = if counts_line c l then suc (count_lines c ls) else count_lines c ls

-- `Array.prototype.join`, where null is nothing.
unfoldable pub join_spaced : (Json → Text) → List Json → Text
join_spaced show [] = []
join_spaced show (j ∷ []) = string_or show (some j) []
join_spaced show (j ∷ i ∷ js) = string_or show (some j) [] ++ (b' ' ∷ join_spaced show (i ∷ js))

unfoldable pub item_command : (Json → Text) → Option Json → Text
item_command show (some (arr js)) = join_spaced show (items js)
item_command show v = string_or show v (text "command")

abbrev pub turn_status : Option Json → SessionStatus
turn_status v =
    if is_string v (text "completed")
    then SessionStatus.completed
    else if is_string v (text "interrupted")
    then SessionStatus.interrupted
    else SessionStatus.failed

abbrev pub working_directory : Option Text → Option Text
working_directory none = none
working_directory (some cwd) =
    some (limit_codex_string (text "Working directory: " ++ cwd) activity_detail)

module _ (rt : Show) (accepts : Option Text → NormalizedEvent → Bool) where
  abbrev tell : (session_id : Text) → NormalizedEvent → Run
  tell session_id e = emit accepts (some session_id) e

  abbrev started_thread : Option Text → Fields → Run
  started_thread none fs = return tt
  started_thread (some id) fs = do set_loaded id; emit_thread accepts fs

  abbrev started_turn : (session_id : Text) → Option Text → Run
  started_turn session_id none = return tt
  started_turn session_id (some turn_id) = do
    modify (λ s. record s { active_turns = insert session_id turn_id s.active_turns })
    tell session_id (status_event SessionStatus.running none)

  -- The first prompt that waits starts the next turn. The promise of `startTurn` is dropped: where it
  -- is rejected, that ends the process, as a throw here does.
  abbrev pub next_prompt : (session_id : Text) → Replies → List Text → Run
  next_prompt session_id r [] = return tt
  next_prompt session_id r (p ∷ ps) = do
    modify (λ s. record s { queued_prompts = insert session_id ps s.queued_prompts })
    start_turn session_id p r

  unfoldable pub completed_turn : (session_id : Text) → Fields → Replies → Run
  completed_turn session_id turn r = do
    modify (λ s. record s { active_turns = remove session_id s.active_turns })
    tell session_id (
        status_event (turn_status (member (text "status") turn)) (
          optional_limited_string (member (text "message") (as_record (member (text "error") turn)))
            status_detail))
    s ← get
    next_prompt session_id r (or_else (lookup session_id s.queued_prompts) [])

  abbrev message_text : (session_id fresh : Text) → Fields → Option Text → Run
  message_text session_id fresh params none = return tt
  message_text session_id fresh params (some delta) = tell session_id (
      session_message_delta (record {
        message_id = string_or rt.show (member (text "itemId") params) fresh;
        delta = limit_codex_string delta message_delta;
      }))

  abbrev plural : ℕ → Text
  plural n = if n == 1 then [] else text "s"

  abbrev diff_text : (session_id : Text) → Option Text → Run
  diff_text session_id none = return tt
  diff_text session_id (some diff) =
      let lines = diff_lines diff in
      let n = length (changed_files lines) in
      tell session_id (
        session_diff_updated (record {
          summary =
              limit_codex_string (rt.decimal n ++ (text " changed file" ++ plural n)) diff_summary;
          files_changed = some n;
          additions = some (count_lines b'+' lines);
          deletions = some (count_lines b'-' lines);
        }))

  abbrev item_activity :
      (session_id fresh : Text) → Fields → ActivityKind → Text → Option Text → Run
  item_activity session_id fresh item kind summary detail = tell session_id (
      session_activity (record {
        activity_id = string_or rt.show (member (text "id") item) fresh;
        kind = kind;
        summary = summary;
        detail = detail;
      }))

  abbrev started_item : (session_id fresh : Text) → Fields → Run
  started_item session_id fresh item =
      if is_string (member (text "type") item) (text "commandExecution")
      then item_activity session_id fresh item ActivityKind.command
          (limit_codex_string (item_command rt.show (member (text "command") item))
            activity_summary)
          (working_directory (optional_limited_string (member (text "cwd") item) cwd_limit))
      else if is_string (member (text "type") item) (text "fileChange")
      then item_activity session_id fresh item ActivityKind.file_change
          (text "Preparing file changes") none
      else return tt

  abbrev failed_turn : (session_id : Text) → Fields → Run
  failed_turn session_id params = tell session_id (
      status_event SessionStatus.failed (
        some (
          or_else
            (optional_limited_string
              (member (text "message") (as_record (member (text "error") params))) status_detail)
            (text "Codex turn failed"))))

  -- The notifications that tell of a thread with an id.
  abbrev session_notice : (fresh : Text) → Replies → (method session_id : Text) → Fields → Run
  session_notice fresh r method session_id params =
      if same method (text "thread/status/changed")
      then tell session_id (status_event (map_thread_status (member (text "status") params)) none)
      else if same method (text "turn/started")
      then started_turn session_id
          (as_string (member (text "id") (as_record (member (text "turn") params))))
      else if same method (text "turn/completed")
      then completed_turn session_id (as_record (member (text "turn") params)) r
      else if same method (text "item/agentMessage/delta")
      then message_text session_id fresh params (as_string (member (text "delta") params))
      else if same method (text "turn/diff/updated")
      then diff_text session_id (as_string (member (text "diff") params))
      else if same method (text "item/started")
      then started_item session_id fresh (as_record (member (text "item") params))
      else if same method (text "error")
      then failed_turn session_id params
      else return tt

  abbrev of_session : (fresh : Text) → Replies → (method : Text) → Fields → Option Text → Run
  of_session fresh r method params none = return tt
  of_session fresh r method params (some session_id) =
      session_notice fresh r method session_id params

  unfoldable pub handle_notification : (fresh : Text) → Replies → ServerMessage → Run
  handle_notification fresh r m =
      let params = as_record m.params in
      let thread = as_record (member (text "thread") params) in
      if same m.method (text "thread/started")
      then started_thread (as_string (member (text "id") thread)) thread
      else of_session fresh r m.method params (optional_string (member (text "threadId") params))

-- ===== src/Agent/Codex/Adapter.antt =====
-- apps/agent/src/codex-adapter.ts: the state of the adapter, its threads and prompts, and commands. A
-- call of the Codex process runs as one step, with its reply as an argument. `accepts` tells which
-- events the context's `emit` takes: it throws on the others.
use steerloop.Common.{
  ℕ, Text, text, same, List, [], ◌∷◌, ◌++◌, Option, none, some, Bool, false, not, leb,
  if◌then◌else◌, or_else, is_some, slice_last, Assoc, lookup, insert, remove,
}
use steerloop.Common.Json.{
  Json, bool, num, str, arr, obj, nil, cons, Fields, end, object, member, as_record, as_array,
}
use steerloop.Common.Effects.{
  Effect, Outcome, ok, throws, ◌>>=◌, ◌>>◌, return, throw, get, modify, require, when,
}
use steerloop.Protocol.Schema.{
  SessionStatus, ApprovalDecision, PromptBehavior, NormalizedEvent, session_upserted,
  session_status_changed, approval_resolved, ApprovalResolve, NormalizedCommand, approval_resolve,
  session_interrupt, session_prompt, CommandEnvelope,
}
use steerloop.Agent.AppServer
use steerloop.Agent.AppServer.{AppServer, Settled, settle, request, notify, respond}
use steerloop.Agent.Codex.Values.{
  session_title, cwd_limit, optional_limited_string, limit_codex_string, map_thread_status,
  approval_decision, granted_permissions, first_string,
}

pub data RequestKind : Type 0 where
  command file_change permissions : RequestKind

pub record PendingCodexApproval : Type 0 where
  pub approval_id : Text
  pub digest : Text
  pub expires_at : ℕ
  pub request_id : Json
  pub kind : RequestKind
  pub requested_permissions : Option Fields
  pub session_id : Text

pub record CodexAdapter : Type 0 where
  pub context : Option Text
  pub pending_approvals : Assoc PendingCodexApproval
  pub active_turns : Assoc Text
  pub loaded_threads : Assoc {0} Unit
  pub queued_prompts : Assoc (List Text)
  pub client : AppServer
  pub emitted : List (Option Text × NormalizedEvent)

abbrev pub new_adapter : CodexAdapter
new_adapter = record {
  context = none;
  pending_approvals = [];
  active_turns = [];
  loaded_threads = [];
  queued_prompts = [];
  client = AppServer.new_client;
  emitted = [];
}

abbrev pub Run : Type 0
Run = Effect CodexAdapter (Unit {0})

abbrev pub put_client :
    {A : Type 0} → CodexAdapter → AppServer × Outcome A → CodexAdapter × Outcome A
put_client s (c, r) = (record s { client = c }, r)

abbrev pub with_client : {A : Type 0} → Effect AppServer A → Effect CodexAdapter A
with_client m s = put_client s (m s.client)

abbrev pub settled_as : ℕ → Outcome (Option Json) → Settled
settled_as id (ok r) = AppServer.resolved id r
settled_as id (throws e) = AppServer.rejected id e

-- `await this.client.request(method, params)`; without a process it fails at once.
unfoldable pub call :
    (method : Text)
    → (params : Json) → (reply : Outcome (Option Json)) → Effect CodexAdapter (Option Json)
call method params reply s =
    let t = request method params s.client in
    if s.client.running
    then (record s { client = settle t.1 (settled_as t.1 reply) t.0 }, reply)
    else (record s { client = t.0 }, throws (text "Codex App Server is not running"))

abbrev pub status_event : SessionStatus → Option Text → NormalizedEvent
status_event s detail = session_status_changed (record { status = s; detail = detail })

abbrev pub thread_params : (thread_id : Text) → Json
thread_params thread_id = obj (object ((text "threadId", str thread_id) ∷ []))

abbrev text_input : Text → Json
text_input prompt = arr (
    cons
      (obj (
        object (
          (text "type", str (text "text"))
          ∷ (text "text", str prompt)
          ∷ (text "text_elements", arr nil)
          ∷ [])))
      nil)

abbrev pub start_params : (thread_id prompt : Text) → Json
start_params thread_id prompt =
    obj (object ((text "threadId", str thread_id) ∷ (text "input", text_input prompt) ∷ []))

abbrev pub steer_params : (thread_id turn_id prompt : Text) → Json
steer_params thread_id turn_id prompt = obj (
    object (
      (text "threadId", str thread_id)
      ∷ (text "expectedTurnId", str turn_id)
      ∷ (text "input", text_input prompt)
      ∷ []))

abbrev list_params : Json
list_params = obj (
    object (
      (text "limit", num (text "50"))
      ∷ (text "sortKey", str (text "updated_at"))
      ∷ (text "sortDirection", str (text "desc"))
      ∷ (text "archived", bool false)
      ∷ []))

-- The replies of the Codex process to the calls of one operation.
pub record Replies : Type 0 where
  pub resume : Outcome (Option Json)
  pub turn : Outcome (Option Json)

abbrev pub set_loaded : Text → Run
set_loaded id = modify (λ s. record s { loaded_threads = insert id tt s.loaded_threads })

unfoldable pub ensure_loaded : (thread_id : Text) → Outcome (Option Json) → Run
ensure_loaded thread_id resume = do
  s ← get
  when (not (is_some (lookup thread_id s.loaded_threads)))
      (do _ ← call (text "thread/resume") (thread_params thread_id) resume; set_loaded thread_id)

unfoldable pub start_turn : (thread_id prompt : Text) → Replies → Run
start_turn thread_id prompt r = do
  ensure_loaded thread_id r.resume
  _ ← call (text "turn/start") (start_params thread_id prompt) r.turn
  return tt

-- A prompt waits behind the others of its thread, of which the last 20 are kept.
unfoldable pub enqueue_prompt : (thread_id prompt : Text) → Run
enqueue_prompt thread_id prompt = modify (λ s. record s {
  queued_prompts =
      insert thread_id
        (slice_last 20 (or_else (lookup thread_id s.queued_prompts) [] ++ prompt ∷ []))
        s.queued_prompts;
})

abbrev pub prompt_turn : (thread_id prompt : Text) → PromptBehavior → Replies → Option Text → Run
prompt_turn thread_id prompt behavior r none = start_turn thread_id prompt r
prompt_turn thread_id prompt PromptBehavior.steer r (some turn_id) = do
  _ ← call (text "turn/steer") (steer_params thread_id turn_id prompt) r.turn
  return tt
prompt_turn thread_id prompt PromptBehavior.queue r (some turn_id) = enqueue_prompt thread_id prompt

unfoldable pub send_prompt : (thread_id prompt : Text) → PromptBehavior → Replies → Run
send_prompt thread_id prompt behavior r = do
  s ← get
  prompt_turn thread_id prompt behavior r (lookup thread_id s.active_turns)

abbrev pub interrupt_turn : (thread_id : Text) → Replies → Option Text → Run
interrupt_turn thread_id r none = throw (text "Session has no active turn")
interrupt_turn thread_id r (some turn_id) = do
  _ ←
      call (text "turn/interrupt")
        (obj (object ((text "threadId", str thread_id) ∷ (text "turnId", str turn_id) ∷ []))) r.turn
  return tt

abbrev forget_approval : Text → Run
forget_approval id = modify (λ s. record s { pending_approvals = remove id s.pending_approvals })

abbrev pub granted : ApprovalDecision → Option Fields → Fields
granted ApprovalDecision.approve_once (some fs) = granted_permissions fs
granted _ _ = end

-- What Codex is answered.
abbrev pub decision_result : RequestKind → ApprovalDecision → Option Fields → Json
decision_result permissions d asked =
    obj (
      object ((text "permissions", obj (granted d asked)) ∷ (text "scope", str (text "turn")) ∷ []))
decision_result _ d asked = obj (object ((text "decision", str (approval_decision d)) ∷ []))

module _ (accepts : Option Text → NormalizedEvent → Bool) where
  unfoldable pub emit : Option Text → NormalizedEvent → Run
  emit session_id e = do
    s ← get
    require (is_some s.context) (text "Codex adapter is not started")
    require (accepts session_id e) (text "Invalid event")
    modify (λ s. record s { emitted = s.emitted ++ (session_id, e) ∷ [] })

  -- The id of a thread as the session of an event: a value that is no string fails the event's schema.
  abbrev thread_session : Option Json → Outcome (Option Text)
  thread_session none = ok none
  thread_session (some (str id)) = ok (some id)
  thread_session (some _) = throws (text "Invalid event")

  abbrev id_title : Option Json → Outcome Text
  id_title (some (str id)) = ok (limit_codex_string id session_title)
  id_title _ = throws (text "value.slice is not a function")

  abbrev thread_title : Option Text → Option Json → Outcome Text
  thread_title (some t) id = ok t
  thread_title none id = id_title id

  unfoldable pub emit_thread : Fields → Run
  emit_thread fs = do
    title ← λ s. (
      s,
      thread_title
          (first_string (optional_limited_string (member (text "name") fs) session_title)
            (optional_limited_string (member (text "preview") fs) session_title))
          (member (text "id") fs),
    )
    session_id ← λ s. (s, thread_session (member (text "id") fs))
    emit session_id (
        session_upserted (record {
          title = title;
          cwd = optional_limited_string (member (text "cwd") fs) cwd_limit;
          source = text "codex";
          status = map_thread_status (member (text "status") fs);
        }))

  unfoldable pub emit_threads : List Json → Run
  emit_threads [] = return tt
  emit_threads (j ∷ js) = do emit_thread (as_record (some j)); emit_threads js

  abbrev pub initialize : Option ℕ → Outcome (Option Json) → Run
  initialize none reply = return tt
  initialize (some id) reply = do
    result ← λ s. (record s { client = settle id (settled_as id reply) s.client }, reply)
    with_client (AppServer.initialized result)

  -- `start`, with the replies to `initialize` and to `thread/list`.
  unfoldable pub start : (host_id : Text) → (init threads : Outcome (Option Json)) → Run
  start host_id init threads = do
    modify (λ s. record s { context = some host_id })
    started ← λ s. let t = AppServer.start s.client in (record s { client = t.0 }, ok t.1)
    initialize started init
    response ← call (text "thread/list") list_params threads
    emit_threads (or_else (as_array (member (text "data") (as_record response))) [])

  unfoldable pub stop : Run
  stop = modify (λ s. record s { client = AppServer.stop s.client })

  abbrev pub resolve_pending :
      (iso : ℕ → Text)
      → (now : ℕ) → (session_id : Text) → ApprovalResolve
      → Option PendingCodexApproval
      → Run
  resolve_pending iso now session_id p none = throw (text "Approval is no longer pending")
  resolve_pending iso now session_id p (some a) =
      if not (same a.session_id session_id)
      then throw (text "Approval session mismatch")
      else if leb a.expires_at now
      then (do forget_approval a.approval_id; throw (text "Approval request has expired"))
      else if not (same a.digest p.request_digest)
      then throw (text "Approval request digest mismatch")
      else (do
        forget_approval a.approval_id
        with_client
            (respond a.request_id (decision_result a.kind p.decision a.requested_permissions))
        emit (some session_id) (
            approval_resolved (record {
              approval_id = a.approval_id;
              decision = p.decision;
              resolved_at = iso now;
            })))

  unfoldable pub resolve_approval :
      (iso : ℕ → Text) → (now : ℕ) → (session_id : Text) → ApprovalResolve → Run
  resolve_approval iso now session_id p = do
    s ← get
    resolve_pending iso now session_id p (lookup p.approval_id s.pending_approvals)

  abbrev pub dispatch :
      (iso : ℕ → Text) → (now : ℕ) → Replies → (session_id : Text) → NormalizedCommand → Run
  dispatch iso now r session_id (approval_resolve p) = resolve_approval iso now session_id p
  dispatch iso now r session_id session_interrupt = do
    s ← get
    interrupt_turn session_id r (lookup session_id s.active_turns)
  dispatch iso now r session_id (session_prompt prompt behavior) =
      send_prompt session_id prompt behavior r

  unfoldable pub handle_command : (iso : ℕ → Text) → (now : ℕ) → Replies → CommandEnvelope → Run
  handle_command iso now r c = dispatch iso now r c.session_id c.command

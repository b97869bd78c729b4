-- ===== src/Agent/Demo.antt =====
-- apps/agent/src/demo-adapter.ts: a scripted session that asks for one approval. `hash` is SHA-256 in
-- hexadecimal, `iso` is `toISOString`, and `accepts` tells which events the context's `emit` takes: it
-- throws on the others. Random ids and times are arguments. Timers of one kind and delay are alike.
pub mod Resolution
pub mod Integrity
mod Tests
use steerloop.Common.{
  ℕ, ◌+◌, ◌*◌, Text, text, same, List, [], ◌∷◌, ◌++◌, Option, none, some, Bool, true, false, ◌&&◌,
  ◌||◌, not, leb, if◌then◌else◌,
}
use steerloop.Common.Effects.{
  Effect, Outcome, ok, throws, ◌>>=◌, ◌>>◌, return, throw, get, modify, require,
}
use steerloop.Protocol.Schema.{
  SessionStatus, ApprovalKind, ApprovalDecision, ActivityKind, PromptBehavior, NormalizedEvent,
  session_upserted, session_activity, session_status_changed, session_diff_updated,
  approval_requested, approval_resolved, ApprovalRequested, ApprovalResolve, NormalizedCommand,
  approval_resolve, session_interrupt, session_prompt, CommandEnvelope,
}
use steerloop.Protocol.Approval.{ApprovalDigestMaterial, canonicalize_approval}

pub record PendingApproval : Type 0 where
  pub id : Text
  pub digest : Text
  pub expires_at : ℕ

pub data Timer : Type 0 where
  asks_approval completes : Timer

pub record DemoAdapter : Type 0 where
  pub context : Option Text
  pub session_id : Text
  pub pending : Option PendingApproval
  pub timers : List Timer
  pub emitted : List (Text × NormalizedEvent)

abbrev pub new_adapter : DemoAdapter
new_adapter = record { context = none; session_id = []; pending = none; timers = []; emitted = [] }

abbrev is_timer : Timer → Timer → Bool
is_timer asks_approval asks_approval = true
is_timer completes completes = true
is_timer _ _ = false

-- `this.timers.delete(timer)`
unfoldable pub without_timer : Timer → List Timer → List Timer
without_timer t [] = []
without_timer t (u ∷ us) = if is_timer t u then us else u ∷ without_timer t us

abbrev pub activity : (id : Text) → ActivityKind → (summary : Text) → Option Text → NormalizedEvent
activity id kind summary detail =
    session_activity (record { activity_id = id; kind = kind; summary = summary; detail = detail })

abbrev pub status : SessionStatus → Text → NormalizedEvent
status s detail = session_status_changed (record { status = s; detail = some detail })

abbrev pub Run : Type 0
Run = Effect DemoAdapter (Unit {0})

abbrev schedule : Timer → Run
schedule t = modify (λ s. record s { timers = s.timers ++ t ∷ [] })

abbrev set_pending : Option PendingApproval → Run
set_pending p = modify (λ s. record s { pending = p })

-- What is asked of the user, as it enters the digest.
abbrev pub request_material : Text → ApprovalDigestMaterial
request_material id = record {
  approval_id = id;
  kind = ApprovalKind.command;
  command = some (text "npm run check");
  cwd = some (text "/workspace/steerloop");
  grant_root = none;
  network_host = none;
  network_protocol = none;
  reason = some (text "Run the repository quality gates before completing the milestone");
  requested_permissions = none;
}

abbrev pub request_payload : (id digest expires_at : Text) → ApprovalRequested
request_payload id digest expires_at = record {
  approval_id = id;
  kind = ApprovalKind.command;
  title = text "Run repository quality gates";
  reason = some (text "Run tests, type checking, and production builds");
  command = some (text "npm run check");
  cwd = some (text "/workspace/steerloop");
  grant_root = none;
  network_host = none;
  network_protocol = none;
  requested_permissions = none;
  request_digest = digest;
  expires_at = expires_at;
}

abbrev has_context : Option Text → Bool
has_context none = false
has_context (some h) = true

abbrev prompt_summary : PromptBehavior → Text
prompt_summary PromptBehavior.steer = text "Guidance injected into the active run"
prompt_summary PromptBehavior.queue = text "Guidance queued for the next turn"

module _ (accepts : Text → NormalizedEvent → Bool) where
  unfoldable pub emit : NormalizedEvent → Run
  emit e = do
    s ← get
    require (has_context s.context) (text "Demo adapter is not started")
    require (accepts s.session_id e) (text "Invalid event")
    modify (λ s. record s { emitted = s.emitted ++ (s.session_id, e) ∷ [] })

  unfoldable pub start : (host_id activity_id : Text) → Run
  start host_id activity_id = do
    modify (λ s. record s { context = some host_id; session_id = text "demo-" ++ host_id })
    emit (
        session_upserted (record {
          title = text "Prepare the Steerloop alpha";
          cwd = some (text "/workspace/steerloop");
          source = text "demo";
          status = SessionStatus.running;
        }))
    emit (
        activity activity_id ActivityKind.analysis
          (text "Reviewing the implementation plan and repository state") none)
    schedule asks_approval

  unfoldable pub stop : Run
  stop = modify (λ s. record s { timers = [] })

  unfoldable pub request_approval :
      (nfc hash : Text → Text) (iso : ℕ → Text) → (id : Text) → (now : ℕ) → Run
  request_approval nfc hash iso id now = do
    let digest = hash (canonicalize_approval nfc (request_material id))
    let expires_at : ℕ = now + 5 * 60000
    set_pending (some (record { id = id; digest = digest; expires_at = expires_at }))
    emit (approval_requested (request_payload id digest (iso expires_at)))

  abbrev pub after_decision : ApprovalDecision → (activity_id : Text) → Run
  after_decision ApprovalDecision.approve_once activity_id = do
    emit (
        activity activity_id ActivityKind.test (text "Running type checks, tests, and builds")
          (some (text "npm run check")))
    schedule completes
  after_decision _ activity_id =
      emit (status SessionStatus.interrupted (text "The requested command was not approved"))

  -- With the pending approval at hand.
  abbrev pub resolve_pending :
      (iso : ℕ → Text)
      → (now : ℕ) → (activity_id : Text) → ApprovalResolve
      → Option PendingApproval
      → Run
  resolve_pending iso now activity_id p none = throw (text "No approval is pending")
  resolve_pending iso now activity_id p (some a) =
      if leb a.expires_at now
      then (do set_pending none; throw (text "Approval request has expired"))
      else if not (same p.approval_id a.id) || not (same p.request_digest a.digest)
      then throw (text "Approval request digest mismatch")
      else (do
        set_pending none
        emit (
            approval_resolved
              (record { approval_id = a.id; decision = p.decision; resolved_at = iso now }))
        after_decision p.decision activity_id)

  unfoldable pub resolve_approval :
      (iso : ℕ → Text) → (now : ℕ) → (activity_id : Text) → ApprovalResolve → Run
  resolve_approval iso now activity_id p = do
    s ← get
    resolve_pending iso now activity_id p s.pending

  abbrev pub dispatch :
      (iso : ℕ → Text) → (now : ℕ) → (activity_id : Text) → NormalizedCommand → Run
  dispatch iso now activity_id (approval_resolve p) = resolve_approval iso now activity_id p
  dispatch iso now activity_id session_interrupt = do
    set_pending none
    stop
    emit (status SessionStatus.interrupted (text "Interrupted from Steerloop"))
  dispatch iso now activity_id (session_prompt prompt behavior) =
      emit (activity activity_id ActivityKind.message (prompt_summary behavior) (some prompt))

  unfoldable pub handle_command :
      (iso : ℕ → Text) → (now : ℕ) → (activity_id : Text) → CommandEnvelope → Run
  handle_command iso now activity_id c = do
    s ← get
    require (same c.session_id s.session_id) (text "Unknown demo session")
    dispatch iso now activity_id c.command

  -- The session ends well.
  unfoldable pub complete : Run
  complete = do
    emit (
        session_diff_updated (record {
          summary = text "Protocol, relay, agent, and mobile console prepared";
          files_changed = some 18;
          additions = some 1240;
          deletions = some 0;
        }))
    emit (status SessionStatus.completed (text "All quality gates passed"))

  -- A timer fires; the id is that of a new approval.
  unfoldable pub on_timer :
      (nfc hash : Text → Text) (iso : ℕ → Text) → (id : Text) → (now : ℕ) → Timer → Run
  on_timer nfc hash iso id now asks_approval = do
    modify (λ s. record s { timers = without_timer asks_approval s.timers })
    request_approval nfc hash iso id now
  on_timer nfc hash iso id now completes = do
    modify (λ s. record s { timers = without_timer completes s.timers })
    complete

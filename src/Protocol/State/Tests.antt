-- ===== src/Protocol/State/Tests.antt =====
-- The reducer on concrete events, and each theorem at such an input.
use steerloop.Common.{
  ℕ, ◌<◌, Text, text, same, text_dec, [], ◌∷◌, Option, none, some, true, false, ◌&&◌, ◌≡◌, ◌≢◌,
  refl, arith, lookup, insert, values, put_each, sweep, slice_last, length, if◌then◌else◌, swept?,
}
use steerloop.Protocol.Schema.{
  SessionStatus, ApprovalKind, ApprovalDecision, ApprovalRequested, ApprovalResolved,
  NormalizedEvent, host_connected, host_disconnected, approval_requested, approval_resolved,
  EventEnvelope,
}
use steerloop.Protocol.View.{
  SessionView, ApprovalView, resolved, ControlPlaneState, create_empty_state, placeholder_session,
}
use steerloop.Protocol.Handlers.{
  disconnected_session, requested_approval, apply_event, existing_session, on_host_connected,
  on_host_heartbeat, host_offline, on_host_disconnected, on_session_upserted, on_approval_requested,
  resume_session, on_approval_resolved, on_session_message_delta,
}
use steerloop.Protocol.State.{
  includes, is_host_connected, is_pending, restarted_session, cancelled_approval, last_sequence,
  note_event, restart_host, host_restarted, is_dropped, accept_event, reduce_event, reduce_all,
  reduce_events,
}
use steerloop.Protocol.State.Replay.{reduce_event_redelivered}
use steerloop.Protocol.State.Sequence.{accepted_in_order}
use steerloop.Protocol.State.Writes.{WellFormed}
use steerloop.Protocol.State.Invariant.{reduce_event-WellFormed, reduce_events-WellFormed}
use steerloop.Protocol.State.Approvals.{resumed?, reduce_event_resolved, reduce_event_requested}
use steerloop.Protocol.State.Restart.{
  reduce_event_restart, reduce_event_disconnect, reduce_event_isolated,
}

reducer : Unit {0}
unfolding text_dec lookup insert values put_each sweep slice_last create_empty_state
    placeholder_session apply_event existing_session on_host_connected on_host_heartbeat
    host_offline on_host_disconnected on_session_upserted on_approval_requested resume_session
    on_approval_resolved on_session_message_delta includes note_event restart_host host_restarted
    is_dropped accept_event reduce_event reduce_all reduce_events
reducer = tt

-- A time is as late as its text is long.
abbrev clock : Text → Option ℕ
clock t = some (length t)

abbrev at : ℕ → Text → Text → Option Text → NormalizedEvent → EventEnvelope
at n id time session ev = record {
  event_id = id;
  sequence = n;
  host_id = text "h";
  session_id = session;
  emitted_at = time;
  event = ev;
}

abbrev connect : NormalizedEvent
connect = host_connected (record {
  name = text "host";
  platform = text "linux";
  agent_version = text "0.1.0";
  capabilities = [];
})

abbrev request : ApprovalRequested
request = record {
  approval_id = text "a";
  kind = ApprovalKind.command;
  title = text "Allow";
  reason = none;
  command = some (text "ls");
  cwd = none;
  grant_root = none;
  network_host = none;
  network_protocol = none;
  requested_permissions = none;
  request_digest = text "d";
  expires_at = text "1111";
}

abbrev approve : ApprovalResolved
approve = record {
  approval_id = text "a";
  decision = ApprovalDecision.approve_once;
  resolved_at = text "111";
}

abbrev hello : EventEnvelope
hello = at 1 (text "e1") (text "1") none connect

abbrev ask : EventEnvelope
ask = at 2 (text "e2") (text "11") (some (text "s")) (approval_requested request)

abbrev answer : EventEnvelope
answer = at 3 (text "e3") (text "111") (some (text "s")) (approval_resolved approve)

abbrev bye : EventEnvelope
bye = at 3 (text "e4") (text "111") none (host_disconnected none)

abbrev hello_again : EventEnvelope
hello_again = at 1 (text "e5") (text "111") none connect

abbrev before_ask : ControlPlaneState
before_ask = reduce_events clock (hello ∷ [])

abbrev asked : ControlPlaneState
asked = reduce_events clock (hello ∷ ask ∷ [])

abbrev asked_approval : ApprovalView
asked_approval = requested_approval ask request (text "s")

status_of : ControlPlaneState → Option SessionStatus
status_of s = elim (lookup (text "s") s.sessions) [ none ↦ none | some v ↦ some v.status ]

reducer_tests :
    (status_of asked ≡ some SessionStatus.waiting_approval)
    × (status_of (reduce_event clock asked answer) ≡ some SessionStatus.running)
    × (status_of (reduce_event clock asked bye) ≡ some SessionStatus.offline)
    × (status_of (reduce_event clock asked hello_again) ≡ some SessionStatus.offline)
    × (reduce_event clock asked ask ≡ asked)
unfolding reducer status_of
reducer_tests = (refl, refl, refl, refl, refl)

fresh_ask : is_dropped clock before_ask ask ≡ false
unfolding reducer
fresh_ask = refl

fresh_answer : is_dropped clock asked answer ≡ false
unfolding reducer
fresh_answer = refl

fresh_bye : is_dropped clock asked bye ≡ false
unfolding reducer
fresh_bye = refl

fresh_again :
    (is_dropped clock asked hello_again ≡ false) × (host_restarted clock asked hello_again ≡ true)
unfolding reducer
fresh_again = (refl, refl)

stored : lookup (text "a") asked.approvals ≡ some asked_approval
unfolding reducer
stored = refl

-- Another host connects.
abbrev other_hello : EventEnvelope
other_hello = record hello { host_id = text "g"; event_id = text "other" }

other_host : ◌≢◌ {A = Text} (text "g") (text "h")
other_host e = ground arith

other_plain : text "g" ≡ text "h" → is_host_connected other_hello.event ≡ false
other_plain is = absurd (other_host is)

answer_after_other :
    is_dropped clock
      (reduce_all clock (reduce_event clock before_ask ask) (other_hello ∷ []))
      answer
    ≡ false
unfolding reducer
answer_after_other = refl

asked-WellFormed : WellFormed asked
asked-WellFormed = reduce_events-WellFormed clock (hello ∷ ask ∷ [])

reduce_event_redelivered_example :
    let t = reduce_all clock (reduce_event clock before_ask ask) (answer ∷ hello_again ∷ []) in
    reduce_event clock t ask ≡ t
reduce_event_redelivered_example =
    reduce_event_redelivered clock before_ask ask (answer ∷ hello_again ∷ []) fresh_ask
      (omega arith)

accepted_in_order_example : ◌<◌ 2 3
accepted_in_order_example =
    accepted_in_order clock before_ask ask answer (other_hello ∷ []) fresh_ask (other_plain, tt)
      refl refl answer_after_other

reduce_event-WellFormed_example : WellFormed (reduce_event clock asked answer)
reduce_event-WellFormed_example = reduce_event-WellFormed clock asked answer asked-WellFormed

reduce_events-WellFormed_example : WellFormed (reduce_events clock (hello ∷ ask ∷ answer ∷ []))
reduce_events-WellFormed_example = reduce_events-WellFormed clock (hello ∷ ask ∷ answer ∷ [])

reduce_event_resolved_example :
    let t = reduce_event clock asked answer in
    ((j : Text)
      → lookup j t.approvals ≡ (
          if same (text "a") j
          then some (record asked_approval {
            status = resolved ApprovalDecision.approve_once;
            resolved_at = some (text "111");
          })
          else lookup j asked.approvals))
    × ((j : Text)
        → lookup j t.sessions ≡ (
            if same (text "s") j
            then resumed? answer ApprovalDecision.approve_once (lookup j asked.sessions)
            else lookup j asked.sessions))
reduce_event_resolved_example =
    reduce_event_resolved clock asked asked-WellFormed answer fresh_answer approve asked_approval
      refl stored

reduce_event_requested_example :
    let t = reduce_event clock before_ask ask in
    ((j : Text)
      → lookup j t.approvals
        ≡ (if same (text "a") j then some asked_approval else lookup j before_ask.approvals))
    × ((v : SessionView) × (lookup (text "s") t.sessions ≡ some v)
        × (v.status ≡ SessionStatus.waiting_approval))
    × ((j : Text) → j ≢ text "s" → lookup j t.sessions ≡ lookup j before_ask.sessions)
reduce_event_requested_example =
    reduce_event_requested clock before_ask (reduce_events-WellFormed clock (hello ∷ [])) ask
      fresh_ask request (text "s") refl refl

reduce_event_restart_example :
    let t = reduce_event clock asked hello_again in
    ((j : Text)
      → lookup j t.sessions
        ≡ swept?
            (λ v. v.id)
            (λ v. same v.host_id (text "h"))
            (restarted_session (text "111"))
            (lookup j asked.sessions))
    × ((j : Text)
        → lookup j t.approvals
          ≡ swept?
              (λ a. a.id)
              (λ a. same a.host_id (text "h") && is_pending a.status)
              (cancelled_approval (text "111"))
              (lookup j asked.approvals))
reduce_event_restart_example =
    reduce_event_restart clock asked asked-WellFormed hello_again fresh_again.0 fresh_again.1

reduce_event_disconnect_example :
    let t = reduce_event clock asked bye in
    ((j : Text)
      → lookup j t.sessions
        ≡ swept?
            (λ v. v.id)
            (λ v. same v.host_id (text "h"))
            (disconnected_session (text "111"))
            (lookup j asked.sessions))
    × ((j : Text)
        → lookup j t.hosts
          ≡ swept?
              (λ h. h.id)
              (λ h. same h.id (text "h"))
              (λ h. record h { online = false; last_seen_at = text "111" })
              (lookup j asked.hosts))
    × (t.approvals ≡ asked.approvals)
reduce_event_disconnect_example =
    reduce_event_disconnect clock asked asked-WellFormed bye fresh_bye none refl

reduce_event_isolated_example :
    let t = reduce_event clock asked answer in
    (lookup (text "g") t.hosts ≡ lookup (text "g") asked.hosts)
    × (last_sequence t (text "g") ≡ last_sequence asked (text "g"))
reduce_event_isolated_example = reduce_event_isolated clock asked answer (text "g") other_host

-- ===== src/Protocol/Handlers/Frame.antt =====
-- The handlers and the fields by which the reducer tells old events from new ones.
use steerloop.Common.{ℕ, Text, List, Option, none, some, arith, ◌≡◌, refl, Assoc}
use steerloop.Protocol.Schema.{
  ApprovalDecision, ApprovalResolved, NormalizedEvent, host_connected, host_heartbeat,
  host_disconnected, session_upserted, approval_requested, approval_resolved, EventEnvelope,
}
use steerloop.Protocol.View.{SessionView, ControlPlaneState}
use steerloop.Protocol.Handlers.{
  dispatch, apply_event, existing_session, on_host_connected, on_host_heartbeat,
  on_host_disconnected, on_session_upserted, on_session_status_changed, on_session_activity,
  on_session_message_delta, on_session_diff_updated, on_approval_requested, resume_session,
  on_approval_resolved,
}

abbrev pub log : ControlPlaneState → Assoc ℕ × List Text
log s = (s.last_sequence_by_host, s.recent_event_ids)

resume_session-log :
    (e : EventEnvelope) (d : ApprovalDecision) (id : Text) (s : ControlPlaneState)
    → log (resume_session e d id s) ≡ log s
unfolding resume_session
resume_session-log e d id s = ground arith

on_approval_resolved-log :
    (e : EventEnvelope) (p : ApprovalResolved) (s : ControlPlaneState)
    → log (on_approval_resolved e p s) ≡ log s
unfolding on_approval_resolved
on_approval_resolved-log e p s = ground arith

dispatch-log :
    (e : EventEnvelope) (ev : NormalizedEvent) (v : Option SessionView) (s : ControlPlaneState)
    → log (dispatch e ev v s) ≡ log s
unfolding on_host_connected on_host_heartbeat on_host_disconnected on_session_upserted
    on_session_status_changed on_session_activity on_session_message_delta on_session_diff_updated
    on_approval_requested
dispatch-log e (approval_resolved p) v s = on_approval_resolved-log e p s
dispatch-log e (approval_requested p) v s = ground arith
dispatch-log e (session_upserted p) v s = ground arith
dispatch-log e (host_heartbeat at) v s = ground arith
dispatch-log e (host_disconnected r) v s = ground arith
dispatch-log e (host_connected p) v s = refl
dispatch-log e _ none s = refl
dispatch-log e _ (some v) s = refl

pub apply_event-log : (e : EventEnvelope) (s : ControlPlaneState) → log (apply_event e s) ≡ log s
unfolding apply_event
apply_event-log e s = dispatch-log e e.event (existing_session s e) s

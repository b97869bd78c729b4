-- ===== src/Protocol/Handlers.antt =====
-- packages/protocol/src/state.ts: what `reduceEvent` does for each type of event, and its `switch`.
pub mod Frame
use steerloop.Common.{
  Text, same, [], ◌∷◌, ◌++◌, Option, none, some, Bool, true, false, if◌then◌else◌, or_else, lookup,
  insert, sweep, slice_last,
}
use steerloop.Protocol.Schema.{
  SessionStatus, ApprovalDecision, HostConnected, SessionUpserted, StatusChanged, Activity,
  MessageDelta, DiffUpdated, ApprovalRequested, ApprovalResolved, NormalizedEvent, host_connected,
  host_heartbeat, host_disconnected, session_upserted, session_status_changed, session_activity,
  session_message_delta, session_diff_updated, approval_requested, approval_resolved, EventEnvelope,
}
use steerloop.Protocol.View.{
  HostView, ActivityView, SessionView, pending, resolved, ApprovalView, ControlPlaneState,
  max_activities, max_message, placeholder_session,
}

abbrev pub is_waiting : SessionStatus → Bool
is_waiting SessionStatus.waiting_approval = true
is_waiting _ = false

abbrev pub is_approved : ApprovalDecision → Bool
is_approved ApprovalDecision.approve_once = true
is_approved _ = false

abbrev pub disconnected_session : Text → SessionView → SessionView
disconnected_session at v = record v { status = SessionStatus.offline; updated_at = at }

unfoldable pub existing_session : ControlPlaneState → EventEnvelope → Option SessionView
unfolding placeholder_session
existing_session s e = elim e.session_id [
  | none ↦ none
  | some id ↦ some (or_else (lookup id s.sessions) (placeholder_session e id))
]

abbrev pub put_session : SessionView → ControlPlaneState → ControlPlaneState
put_session v s = record s { sessions = insert v.id v s.sessions }

abbrev pub put_host : Text → HostView → ControlPlaneState → ControlPlaneState
put_host h v s = record s { hosts = insert h v s.hosts }

unfoldable pub on_host_connected :
    EventEnvelope → HostConnected → ControlPlaneState → ControlPlaneState
on_host_connected e p s =
    put_host e.host_id
      (record {
        id = e.host_id;
        name = p.name;
        platform = p.platform;
        agent_version = p.agent_version;
        capabilities = p.capabilities;
        online = true;
        last_seen_at = e.emitted_at;
      })
      s

unfoldable pub on_host_heartbeat : EventEnvelope → Text → ControlPlaneState → ControlPlaneState
on_host_heartbeat e at s = elim (lookup e.host_id s.hosts) [
  | none ↦ s
  | some h ↦ put_host e.host_id (record h { online = true; last_seen_at = at }) s
]

unfoldable pub host_offline : EventEnvelope → ControlPlaneState → ControlPlaneState
host_offline e s = elim (lookup e.host_id s.hosts) [
  | none ↦ s
  | some h ↦ put_host e.host_id (record h { online = false; last_seen_at = e.emitted_at }) s
]

unfoldable pub on_host_disconnected : EventEnvelope → ControlPlaneState → ControlPlaneState
unfolding host_offline
on_host_disconnected e s =
    let t = host_offline e s in
    record t {
      sessions =
          sweep (λ v. v.id) (λ v. same v.host_id e.host_id) (disconnected_session e.emitted_at)
            t.sessions;
    }

unfoldable pub on_session_upserted :
    EventEnvelope → SessionUpserted → Text → SessionView → ControlPlaneState → ControlPlaneState
on_session_upserted e p session_id v s = record s {
  sessions =
      insert session_id
        (record v {
          id = session_id;
          host_id = e.host_id;
          title = p.title;
          source = p.source;
          status = p.status;
          cwd = p.cwd;
          updated_at = e.emitted_at;
        })
        s.sessions;
}

unfoldable pub on_session_status_changed :
    EventEnvelope → StatusChanged → SessionView → ControlPlaneState → ControlPlaneState
on_session_status_changed e p v s =
    put_session (record v { status = p.status; detail = p.detail; updated_at = e.emitted_at }) s

unfoldable pub on_session_activity :
    EventEnvelope → Activity → SessionView → ControlPlaneState → ControlPlaneState
on_session_activity e p v s =
    put_session
      (record v {
        activities = slice_last max_activities (v.activities ++ activity ∷ []);
        updated_at = e.emitted_at;
      })
      s
  where
    activity : ActivityView
    activity = record {
      id = p.activity_id;
      kind = p.kind;
      summary = p.summary;
      detail = p.detail;
      emitted_at = e.emitted_at;
    }

unfoldable pub on_session_message_delta :
    EventEnvelope → MessageDelta → SessionView → ControlPlaneState → ControlPlaneState
on_session_message_delta e p v s =
    put_session
      (record v {
        latest_message = slice_last max_message (v.latest_message ++ p.delta);
        updated_at = e.emitted_at;
      })
      s

unfoldable pub on_session_diff_updated :
    EventEnvelope → DiffUpdated → SessionView → ControlPlaneState → ControlPlaneState
on_session_diff_updated e p v s =
    put_session (record v { diff = some p; updated_at = e.emitted_at }) s

abbrev pub requested_approval : EventEnvelope → ApprovalRequested → Text → ApprovalView
requested_approval e p session_id = record {
  id = p.approval_id;
  host_id = e.host_id;
  session_id = session_id;
  kind = p.kind;
  title = p.title;
  request_digest = p.request_digest;
  expires_at = p.expires_at;
  requested_at = e.emitted_at;
  status = pending;
  reason = p.reason;
  command = p.command;
  cwd = p.cwd;
  grant_root = p.grant_root;
  network_host = p.network_host;
  network_protocol = p.network_protocol;
  requested_permissions = p.requested_permissions;
  resolved_at = none;
}

unfoldable pub on_approval_requested :
    EventEnvelope → ApprovalRequested → Text → SessionView → ControlPlaneState → ControlPlaneState
on_approval_requested e p session_id v s =
    put_session (record v { status = SessionStatus.waiting_approval; updated_at = e.emitted_at })
      (record s {
        approvals = insert p.approval_id (requested_approval e p session_id) s.approvals;
      })

-- The session that waited for the decision goes on, or stops.
unfoldable pub resume_session :
    EventEnvelope → ApprovalDecision → Text → ControlPlaneState → ControlPlaneState
resume_session e d session_id s = elim (lookup session_id s.sessions) [
  | none ↦ s
  | some v ↦
      if is_waiting v.status
      then put_session
          (record v {
            status = if is_approved d then SessionStatus.running else SessionStatus.interrupted;
            updated_at = e.emitted_at;
          })
          s
      else s
]

unfoldable pub on_approval_resolved :
    EventEnvelope → ApprovalResolved → ControlPlaneState → ControlPlaneState
unfolding resume_session
on_approval_resolved e p s = elim (lookup p.approval_id s.approvals) [
  | none ↦ s
  | some a ↦ resume_session e p.decision a.session_id (record s {
    approvals =
        insert a.id (record a { status = resolved p.decision; resolved_at = some p.resolved_at })
          s.approvals;
  })
]

-- A handler that runs only where the event names a session.
abbrev for_session :
    (SessionView → ControlPlaneState → ControlPlaneState)
    → Option SessionView
    → ControlPlaneState
    → ControlPlaneState
for_session f none s = s
for_session f (some v) s = f v s

abbrev pub for_named_session :
    (Text → SessionView → ControlPlaneState → ControlPlaneState)
    → Option Text
    → Option SessionView
    → ControlPlaneState
    → ControlPlaneState
for_named_session f (some id) (some v) s = f id v s
for_named_session f _ _ s = s

-- The `switch` over the event's type.
abbrev pub dispatch :
    EventEnvelope → NormalizedEvent → Option SessionView → ControlPlaneState → ControlPlaneState
dispatch e (host_connected p) v s = on_host_connected e p s
dispatch e (host_heartbeat at) v s = on_host_heartbeat e at s
dispatch e (host_disconnected reason) v s = on_host_disconnected e s
dispatch e (session_upserted p) v s = for_named_session (on_session_upserted e p) e.session_id v s
dispatch e (session_status_changed p) v s = for_session (on_session_status_changed e p) v s
dispatch e (session_activity p) v s = for_session (on_session_activity e p) v s
dispatch e (session_message_delta p) v s = for_session (on_session_message_delta e p) v s
dispatch e (session_diff_updated p) v s = for_session (on_session_diff_updated e p) v s
dispatch e (approval_requested p) v s =
    for_named_session (on_approval_requested e p) e.session_id v s
dispatch e (approval_resolved p) v s = on_approval_resolved e p s

unfoldable pub apply_event : EventEnvelope → ControlPlaneState → ControlPlaneState
apply_event e s = dispatch e e.event (existing_session s e) s

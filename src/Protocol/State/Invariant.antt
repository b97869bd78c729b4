-- ===== src/Protocol/State/Invariant.antt =====
-- packages/protocol/src/state.ts: the well-formedness of the view over events.
use steerloop.Common.{
  ℕ, Text, List, [], ◌∷◌, Option, none, some, if◌then◌else◌, if_either, or_else, Option-cases, inl,
  inr, arith, refl, lookup, length-slice_last-le, lookup-Every,
}
use steerloop.Protocol.Schema.{
  NormalizedEvent, host_connected, host_heartbeat, host_disconnected, ApprovalResolved,
  ApprovalDecision, session_upserted, session_status_changed, session_activity,
  session_message_delta, session_diff_updated, approval_requested, approval_resolved, EventEnvelope,
}
use steerloop.Protocol.View.{
  SessionView, ControlPlaneState, max_activities, max_message, max_event_ids, create_empty_state,
  placeholder_session,
}
use steerloop.Protocol.Handlers.{
  dispatch, for_named_session, disconnected_session, requested_approval, apply_event,
  existing_session, on_host_connected, on_host_heartbeat, on_host_disconnected, on_session_upserted,
  on_session_status_changed, on_session_activity, on_session_message_delta, on_session_diff_updated,
  on_approval_requested, resume_session, on_approval_resolved, host_offline,
}
use steerloop.Protocol.State.{
  cancelled_approval, restarted_session, note_event, restart_host, host_restarted, is_dropped,
  accept_event, reduce_event, reduce_all, reduce_events,
}
use steerloop.Protocol.State.Writes.{
  IsSession, IsHost, WellFormed, put_host-WellFormed, put_session-WellFormed,
  put_approval-WellFormed, sweep_sessions-WellFormed, sweep_approvals-WellFormed,
}

module _ (e : EventEnvelope) (s : ControlPlaneState) (w : WellFormed s) where
  host_offline-WellFormed : WellFormed (host_offline e s)
  unfolding host_offline
  host_offline-WellFormed = elim (Option-cases (lookup e.host_id s.hosts)) [
    | inl missing ↦ rw (missing, host_offline) w
    | inr (h, found) ↦
        rw (found, host_offline)
          (put_host-WellFormed s e.host_id _ (lookup-Every IsHost e.host_id s.hosts h found w.hosts)
            w)
  ]

  on_host_heartbeat-WellFormed : (at : Text) → WellFormed (on_host_heartbeat e at s)
  unfolding on_host_heartbeat
  on_host_heartbeat-WellFormed at = elim (Option-cases (lookup e.host_id s.hosts)) [
    | inl missing ↦ rw (missing, on_host_heartbeat) w
    | inr (h, found) ↦
        rw (found, on_host_heartbeat)
          (put_host-WellFormed s e.host_id _ (lookup-Every IsHost e.host_id s.hosts h found w.hosts)
            w)
  ]

  resume_session-WellFormed :
      (d : ApprovalDecision) (id : Text) → WellFormed (resume_session e d id s)
  unfolding resume_session
  resume_session-WellFormed d id = elim (Option-cases (lookup id s.sessions)) [
    | inl missing ↦ rw (missing, resume_session) w
    | inr (v, found) ↦
        let v_ok = lookup-Every IsSession id s.sessions v found w.sessions in
        rw (found, resume_session)
          (if_either WellFormed _
            (put_session-WellFormed s v.id _
              (record { id = refl; activities = v_ok.activities; message = v_ok.message }) w)
            w)
  ]

on_approval_resolved-WellFormed :
    (e : EventEnvelope) (p : ApprovalResolved) (s : ControlPlaneState)
    → WellFormed s
    → WellFormed (on_approval_resolved e p s)
unfolding on_approval_resolved
on_approval_resolved-WellFormed e p s w = elim (Option-cases (lookup p.approval_id s.approvals)) [
  | inl missing ↦ rw (missing, on_approval_resolved) w
  | inr (a, found) ↦
      rw (found, on_approval_resolved)
        (resume_session-WellFormed e _
          (put_approval-WellFormed s a.id _ (record { id = refl; resolution = refl }) w) p.decision
          a.session_id)
]

-- The session that an event works on, found or made up, is a good one.
abbrev IsGood : Option SessionView → Type 0
IsGood none = Unit
IsGood (some v) = IsSession v.id v

existing_session-IsGood :
    (e : EventEnvelope) (s : ControlPlaneState) → WellFormed s → IsGood (existing_session s e)
unfolding existing_session
existing_session-IsGood e s w = go e.session_id
  where
    go :
        (o : Option Text)
        → IsGood (elim o [
          | none ↦ none
          | some id ↦ some (or_else (lookup id s.sessions) (placeholder_session e id))
        ])
    go none = tt
    go (some id) = elim (Option-cases (lookup id s.sessions)) [
      | inl missing ↦
          rw missing (record { id = refl; activities = omega arith; message = omega arith })
      | inr (v, found) ↦
          let v_ok = lookup-Every IsSession id s.sessions v found w.sessions in
          rw found (record { id = refl; activities = v_ok.activities; message = v_ok.message })
    ]

for_named_session-WellFormed :
    (f : Text → SessionView → ControlPlaneState → ControlPlaneState) (s : ControlPlaneState)
    → ((id : Text) (v : SessionView) → IsSession v.id v → WellFormed (f id v s))
    → (o : Option Text) (v : Option SessionView) → IsGood v
    → WellFormed s
    → WellFormed (for_named_session f o v s)
for_named_session-WellFormed f s h (some id) (some v) g w = h id v g
for_named_session-WellFormed f s h none v g w = w
for_named_session-WellFormed f s h _ none g w = w

dispatch-WellFormed :
    (e : EventEnvelope) (ev : NormalizedEvent) (v : Option SessionView) (s : ControlPlaneState)
    → IsGood v
    → WellFormed s
    → WellFormed (dispatch e ev v s)
unfolding on_host_connected on_host_disconnected on_session_upserted on_session_status_changed
    on_session_activity on_session_message_delta on_session_diff_updated on_approval_requested
dispatch-WellFormed e (host_connected p) v s g w = put_host-WellFormed s e.host_id _ refl w
dispatch-WellFormed e (host_heartbeat at) v s g w = on_host_heartbeat-WellFormed e s w at
dispatch-WellFormed e (host_disconnected r) v s g w =
    sweep_sessions-WellFormed (host_offline e s) _ (disconnected_session e.emitted_at)
      (λ k v h. record { id = h.id; activities = h.activities; message = h.message })
      (host_offline-WellFormed e s w)
dispatch-WellFormed e (session_upserted p) v s g w =
    for_named_session-WellFormed (on_session_upserted e p) s
      (λ id v h.
        put_session-WellFormed s id _
          (record { id = refl; activities = h.activities; message = h.message }) w)
      e.session_id v g w
dispatch-WellFormed e (approval_requested p) v s g w =
    for_named_session-WellFormed (on_approval_requested e p) s
      (λ id v h.
        put_session-WellFormed _ v.id _
          (record { id = refl; activities = h.activities; message = h.message })
          (put_approval-WellFormed s p.approval_id (requested_approval e p id)
            (record { id = refl; resolution = refl }) w))
      e.session_id v g w
dispatch-WellFormed e (approval_resolved p) v s g w = on_approval_resolved-WellFormed e p s w
dispatch-WellFormed e _ none s g w = w
dispatch-WellFormed e (session_status_changed p) (some v) s g w =
    put_session-WellFormed s v.id _
      (record { id = refl; activities = g.activities; message = g.message }) w
dispatch-WellFormed e (session_activity p) (some v) s g w =
    put_session-WellFormed s v.id _
      (record {
        id = refl;
        activities = length-slice_last-le max_activities _;
        message = g.message;
      })
      w
dispatch-WellFormed e (session_message_delta p) (some v) s g w =
    put_session-WellFormed s v.id _
      (record {
        id = refl;
        activities = g.activities;
        message = length-slice_last-le max_message _;
      })
      w
dispatch-WellFormed e (session_diff_updated p) (some v) s g w =
    put_session-WellFormed s v.id _
      (record { id = refl; activities = g.activities; message = g.message }) w

pub note_event-WellFormed :
    (e : EventEnvelope) (s : ControlPlaneState) → WellFormed s → WellFormed (note_event s e)
unfolding note_event
note_event-WellFormed e s w = record {
  hosts = w.hosts;
  hosts_distinct = w.hosts_distinct;
  sessions = w.sessions;
  sessions_distinct = w.sessions_distinct;
  approvals = w.approvals;
  approvals_distinct = w.approvals_distinct;
  ids = length-slice_last-le max_event_ids _;
}

pub restart_host-WellFormed :
    (e : EventEnvelope) (s : ControlPlaneState) → WellFormed s → WellFormed (restart_host e s)
unfolding restart_host
restart_host-WellFormed e s w =
    sweep_approvals-WellFormed _ _ (cancelled_approval e.emitted_at)
      (λ k a h. record { id = h.id; resolution = refl })
      (sweep_sessions-WellFormed s _ (restarted_session e.emitted_at)
        (λ k v h. record { id = h.id; activities = h.activities; message = h.message }) w)

module _ (date_parse : Text → Option ℕ) where
  pub prepared-WellFormed :
      (e : EventEnvelope) (s : ControlPlaneState)
      → WellFormed s
      → WellFormed (
          if host_restarted date_parse s e then restart_host e (note_event s e) else note_event s e)
  prepared-WellFormed e s w =
      let noted = note_event-WellFormed e s w in
      if_either WellFormed (host_restarted date_parse s e)
        (restart_host-WellFormed e (note_event s e) noted) noted

  accept_event-WellFormed :
      (s : ControlPlaneState) (e : EventEnvelope)
      → WellFormed s
      → WellFormed (accept_event date_parse s e)
  unfolding accept_event apply_event
  accept_event-WellFormed s e w =
      let t = prepared-WellFormed e s w in
      dispatch-WellFormed e e.event _ _ (existing_session-IsGood e _ t) t

  -- Every event keeps the view well formed: entries stand under their own ids, which are distinct;
  -- an approval has a time of resolution exactly when it is not pending; histories, messages and
  -- the record of event ids stay within their limits.
  pub reduce_event-WellFormed :
      (s : ControlPlaneState) (e : EventEnvelope)
      → WellFormed s
      → WellFormed (reduce_event date_parse s e)
  unfolding reduce_event
  reduce_event-WellFormed s e w =
      if_either WellFormed (is_dropped date_parse s e) w (accept_event-WellFormed s e w)

  reduce_all-WellFormed :
      (s : ControlPlaneState) (es : List EventEnvelope)
      → WellFormed s
      → WellFormed (reduce_all date_parse s es)
  unfolding reduce_all
  reduce_all-WellFormed s [] w = w
  reduce_all-WellFormed s (e ∷ es) w =
      reduce_all-WellFormed (reduce_event date_parse s e) es (reduce_event-WellFormed s e w)

  -- So the view of any stream of events, such as a snapshot, is well formed.
  pub reduce_events-WellFormed :
      (es : List EventEnvelope) → WellFormed (reduce_events date_parse es)
  unfolding reduce_events create_empty_state
  reduce_events-WellFormed es = reduce_all-WellFormed create_empty_state es (record {
    hosts = tt;
    hosts_distinct = tt;
    sessions = tt;
    sessions_distinct = tt;
    approvals = tt;
    approvals_distinct = tt;
    ids = omega arith;
  })

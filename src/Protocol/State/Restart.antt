-- ===== src/Protocol/State/Restart.antt =====
-- packages/protocol/src/state.ts: a host that goes away, comes back, or is another's.
use steerloop.Common.{
  ℕ, Text, same, Option, none, some, true, false, ◌&&◌, if_either, Option-cases, inl, inr, arith,
  ◌≡◌, ◌≢◌, refl, ap, ◌∙◌, lookup, lookup-insert, lookup-insert_ne, lookup-sweep, swept?, Every,
  lookup-Every,
}
use steerloop.Protocol.Schema.{
  NormalizedEvent, host_connected, host_heartbeat, host_disconnected, session_upserted,
  approval_requested, approval_resolved, EventEnvelope,
}
use steerloop.Protocol.View.{HostView, SessionView, ControlPlaneState}
use steerloop.Protocol.Handlers.{
  disconnected_session, dispatch, apply_event, existing_session, on_host_connected,
  on_host_heartbeat, host_offline, on_host_disconnected, on_session_upserted,
  on_session_status_changed, on_session_activity, on_session_message_delta, on_session_diff_updated,
  on_approval_requested, resume_session, on_approval_resolved,
}
use steerloop.Protocol.State.{
  is_host_connected, is_pending, restarted_session, cancelled_approval, note_event, restart_host,
  host_restarted, is_dropped, accept_event, reduce_event, last_sequence,
}
use steerloop.Protocol.State.Writes.{IsHost, WellFormed, sessions-Keyed, approvals-Keyed}
use steerloop.Protocol.State.Sequence.{last_sequence-accept_event}
use steerloop.Protocol.State.Steps.{
  connected_of_restarted, reduce_event_plain, reduce_event_restarted,
}

connected-dispatch :
    (e : EventEnvelope) (ev : NormalizedEvent) (v : Option SessionView) (s : ControlPlaneState)
    → is_host_connected ev ≡ true
    → ((dispatch e ev v s).sessions ≡ s.sessions) × ((dispatch e ev v s).approvals ≡ s.approvals)
unfolding on_host_connected
connected-dispatch e (host_connected p) v s h = (refl, refl)
connected-dispatch e _ v s h = cc

connected-apply_event :
    (e : EventEnvelope) (s : ControlPlaneState)
    → is_host_connected e.event ≡ true
    → ((apply_event e s).sessions ≡ s.sessions) × ((apply_event e s).approvals ≡ s.approvals)
unfolding apply_event
connected-apply_event e s h = connected-dispatch e e.event (existing_session s e) s h

host_offline-sessions :
    (e : EventEnvelope) (s : ControlPlaneState) → (host_offline e s).sessions ≡ s.sessions
unfolding host_offline
host_offline-sessions e s = ground arith

host_offline-approvals :
    (e : EventEnvelope) (s : ControlPlaneState) → (host_offline e s).approvals ≡ s.approvals
unfolding host_offline
host_offline-approvals e s = ground arith

abbrev offline_host : Text → HostView → HostView
offline_host at h = record h { online = false; last_seen_at = at }

host_offline-lookup :
    (e : EventEnvelope) (j : Text) (s : ControlPlaneState)
    → Every IsHost s.hosts
    → lookup j (host_offline e s).hosts
      ≡ swept? (λ h. h.id) (λ h. same h.id e.host_id) (offline_host e.emitted_at) (lookup j s.hosts)
unfolding host_offline
host_offline-lookup e j s w = elim (Option-cases (lookup e.host_id s.hosts)) [
  | inl unknown ↦
      rw (unknown, host_offline)
        (elim (Option-cases (lookup j s.hosts)) [
          | inl none_j ↦ rw none_j
          | inr (g, some_j) ↦
              ground (arith, unknown, some_j, lookup-Every IsHost j s.hosts g some_j w)
        ])
  | inr (h, known) ↦
      rw (known, host_offline)
        (elim (Option-cases (lookup j s.hosts)) [
          | inl none_j ↦ ground (
            arith,
            known,
            none_j,
            lookup-insert e.host_id j (offline_host e.emitted_at h) s.hosts,
          )
          | inr (g, some_j) ↦ ground (
            arith,
            known,
            some_j,
            lookup-Every IsHost j s.hosts g some_j w,
            lookup-insert e.host_id j (offline_host e.emitted_at h) s.hosts,
          )
        ])
]

module _ (date_parse : Text → Option ℕ) (s : ControlPlaneState) (w : WellFormed s)
    (e : EventEnvelope) (fresh : is_dropped date_parse s e ≡ false) where
  -- When an accepted event restarts its host, every session of that host goes offline and every
  -- pending approval of that host is cancelled; all other sessions and approvals stay as they were.
  pub reduce_event_restart :
      host_restarted date_parse s e ≡ true
      → let t = reduce_event date_parse s e in
        ((j : Text)
          → lookup j t.sessions
            ≡ swept?
                (λ v. v.id)
                (λ v. same v.host_id e.host_id)
                (restarted_session e.emitted_at)
                (lookup j s.sessions))
        × ((j : Text)
            → lookup j t.approvals
              ≡ swept?
                  (λ a. a.id)
                  (λ a. same a.host_id e.host_id && is_pending a.status)
                  (cancelled_approval e.emitted_at)
                  (lookup j s.approvals))
  unfolding note_event restart_host
  reduce_event_restart again =
      let t = restart_host e (note_event s e) in
      let (same_sessions, same_approvals) =
        connected-apply_event e t (connected_of_restarted date_parse s e again) in
      rw (reduce_event_restarted date_parse s e again fresh) (
        λ j.
            ap (lookup j) same_sessions
            ∙ lookup-sweep _ _ _ j s.sessions (sessions-Keyed s.sessions w.sessions)
                w.sessions_distinct,
        λ j.
            ap (lookup j) same_approvals
            ∙ lookup-sweep _ _ _ j s.approvals (approvals-Keyed s.approvals w.approvals)
                w.approvals_distinct,
      )

  -- When an accepted event says that its host disconnected, the host is offline if it is known, and
  -- every session of it goes offline; all other hosts and sessions, and all approvals, stay.
  pub reduce_event_disconnect :
      (reason : Option Text)
      → e.event ≡ host_disconnected reason
      → let t = reduce_event date_parse s e in
        ((j : Text)
          → lookup j t.sessions
            ≡ swept?
                (λ v. v.id)
                (λ v. same v.host_id e.host_id)
                (disconnected_session e.emitted_at)
                (lookup j s.sessions))
        × ((j : Text)
            → lookup j t.hosts
              ≡ swept?
                  (λ h. h.id)
                  (λ h. same h.id e.host_id)
                  (λ h. record h { online = false; last_seen_at = e.emitted_at })
                  (lookup j s.hosts))
        × (t.approvals ≡ s.approvals)
  unfolding note_event on_host_disconnected
  reduce_event_disconnect reason is =
      rw (reduce_event_plain date_parse s e (host_disconnected reason) is refl fresh) (
        λ j. rw (host_offline-sessions e (note_event s e)) (
            lookup-sweep _ _ _ j s.sessions (sessions-Keyed s.sessions w.sessions)
              w.sessions_distinct),
        λ j. host_offline-lookup e j (note_event s e) w.hosts,
        host_offline-approvals e (note_event s e),
      )

dispatch-hosts :
    (e : EventEnvelope) (j : Text) (ev : NormalizedEvent) (v : Option SessionView)
    (s : ControlPlaneState)
    → j ≢ e.host_id
    → lookup j (dispatch e ev v s).hosts ≡ lookup j s.hosts
unfolding on_host_connected on_host_heartbeat host_offline on_host_disconnected on_session_upserted
    on_session_status_changed on_session_activity on_session_message_delta on_session_diff_updated
    on_approval_requested resume_session on_approval_resolved
dispatch-hosts e j (host_connected p) v s h = lookup-insert_ne e.host_id j _ s.hosts h
dispatch-hosts e j (host_heartbeat at) v s h = elim (Option-cases (lookup e.host_id s.hosts)) [
  | inl unknown ↦ rw (unknown, on_host_heartbeat)
  | inr (g, known) ↦ rw (known, on_host_heartbeat) (lookup-insert_ne e.host_id j _ s.hosts h)
]
dispatch-hosts e j (host_disconnected r) v s h = elim (Option-cases (lookup e.host_id s.hosts)) [
  | inl unknown ↦ rw (unknown, host_offline)
  | inr (g, known) ↦ rw (known, host_offline) (lookup-insert_ne e.host_id j _ s.hosts h)
]
dispatch-hosts e j (approval_resolved p) v s h = ground arith
dispatch-hosts e j (approval_requested p) v s h = ground arith
dispatch-hosts e j (session_upserted p) v s h = ground arith
dispatch-hosts e j _ none s h = refl
dispatch-hosts e j _ (some v) s h = refl

module _ (date_parse : Text → Option ℕ) where
  accept_event-hosts :
      (s : ControlPlaneState) (e : EventEnvelope) (j : Text)
      → j ≢ e.host_id
      → lookup j (accept_event date_parse s e).hosts ≡ lookup j s.hosts
  unfolding accept_event apply_event restart_host note_event
  accept_event-hosts s e j h =
      dispatch-hosts e j e.event _ _ h
      ∙ if_either {A = ControlPlaneState} (λ t. lookup j t.hosts ≡ lookup j s.hosts)
          (host_restarted date_parse s e) {x = restart_host e (note_event s e)} {y = note_event s e}
          refl refl

  -- An event of one host changes neither the view of another host nor its sequence number, whether
  -- it is accepted or dropped.
  pub reduce_event_isolated :
      (s : ControlPlaneState) (e : EventEnvelope) (j : Text)
      → j ≢ e.host_id
      → let t = reduce_event date_parse s e in
        (lookup j t.hosts ≡ lookup j s.hosts) × (last_sequence t j ≡ last_sequence s j)
  unfolding reduce_event
  reduce_event_isolated s e j h = (
    if_either {A = ControlPlaneState} (λ t. lookup j t.hosts ≡ lookup j s.hosts)
        (is_dropped date_parse s e) refl (accept_event-hosts s e j h),
    if_either {A = ControlPlaneState} (λ t. last_sequence t j ≡ last_sequence s j)
        (is_dropped date_parse s e) refl
        (ground (arith, h, last_sequence-accept_event date_parse s e j)),
  )

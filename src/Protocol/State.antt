-- ===== src/Protocol/State.antt =====
-- packages/protocol/src/state.ts: the reducer that turns a stream of events into the view.
-- `date_parse` is `Date.parse`, with `none` for NaN.
pub mod Replay
pub mod Sequence
pub mod Writes
pub mod Invariant
mod Steps
pub mod Approvals
pub mod Restart
mod Tests
use steerloop.Common.{
  ℕ, Text, text, same, List, [], ◌∷◌, ◌++◌, Option, none, some, Bool, true, false, ◌&&◌, ◌||◌, not,
  leb, if◌then◌else◌, or_else, after, lookup, insert, sweep, slice_last,
}
use steerloop.Protocol.Schema.{
  SessionStatus, ApprovalDecision, NormalizedEvent, host_connected, EventEnvelope,
}
use steerloop.Protocol.View.{
  HostView, SessionView, ApprovalStatus, pending, resolved, ApprovalView, ControlPlaneState,
  max_event_ids, create_empty_state,
}
use steerloop.Protocol.Handlers.{apply_event}

-- `recentEventIds.includes(id)`
unfoldable pub includes : List Text → Text → Bool
includes [] id = false
includes (x ∷ xs) id = same x id || includes xs id

abbrev pub last_sequence : ControlPlaneState → Text → ℕ
last_sequence s h = or_else (lookup h s.last_sequence_by_host) 0

abbrev pub is_host_connected : NormalizedEvent → Bool
is_host_connected (host_connected p) = true
is_host_connected _ = false

abbrev pub is_pending : ApprovalStatus → Bool
is_pending pending = true
is_pending (resolved d) = false

-- The state with the event's sequence number and id on record.
unfoldable pub note_event : ControlPlaneState → EventEnvelope → ControlPlaneState
note_event s e = record s {
  last_sequence_by_host = insert e.host_id e.sequence s.last_sequence_by_host;
  recent_event_ids = slice_last max_event_ids (s.recent_event_ids ++ e.event_id ∷ []);
}

abbrev pub restarted_session : Text → SessionView → SessionView
restarted_session at v = record v {
  status = SessionStatus.offline;
  detail = some (text "Host agent restarted");
  updated_at = at;
}

abbrev pub cancelled_approval : Text → ApprovalView → ApprovalView
cancelled_approval at a = record a {
  status = resolved ApprovalDecision.cancel;
  resolved_at = some at;
}

-- The loops of a restart: every session of the host goes offline, every pending approval is
-- cancelled.
unfoldable pub restart_host : EventEnvelope → ControlPlaneState → ControlPlaneState
restart_host e s = record s {
  sessions =
      sweep (λ v. v.id) (λ v. same v.host_id e.host_id) (restarted_session e.emitted_at) s.sessions;
  approvals =
      sweep (λ a. a.id) (λ a. same a.host_id e.host_id && is_pending a.status)
        (cancelled_approval e.emitted_at) s.approvals;
}

module _ (date_parse : Text → Option ℕ) where
  abbrev seen_before : Text → Option HostView → Bool
  seen_before at none = false
  seen_before at (some h) = after (date_parse at) (date_parse h.last_seen_at)

  unfoldable pub host_restarted : ControlPlaneState → EventEnvelope → Bool
  host_restarted s e =
      is_host_connected e.event
      && leb e.sequence (last_sequence s e.host_id)
      && seen_before e.emitted_at (lookup e.host_id s.hosts)

  -- An event is dropped if its id is on record, or its sequence number is not new and the host did
  -- not restart.
  unfoldable pub is_dropped : ControlPlaneState → EventEnvelope → Bool
  is_dropped s e =
      includes s.recent_event_ids e.event_id
      || (leb e.sequence (last_sequence s e.host_id) && not (host_restarted s e))

  -- What an accepted event makes of the state.
  unfoldable pub accept_event : ControlPlaneState → EventEnvelope → ControlPlaneState
  accept_event s e =
      let t = note_event s e in apply_event e (if host_restarted s e then restart_host e t else t)

  unfoldable pub reduce_event : ControlPlaneState → EventEnvelope → ControlPlaneState
  reduce_event s e = if is_dropped s e then s else accept_event s e

  -- `events.reduce(reduceEvent, state)`
  unfoldable pub reduce_all : ControlPlaneState → List EventEnvelope → ControlPlaneState
  reduce_all s [] = s
  reduce_all s (e ∷ es) = reduce_all (reduce_event s e) es

  unfoldable pub reduce_events : List EventEnvelope → ControlPlaneState
  unfolding create_empty_state
  reduce_events es = reduce_all create_empty_state es

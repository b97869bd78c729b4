-- ===== src/Protocol/State/Steps.antt =====
-- packages/protocol/src/state.ts: an accepted event, with and without a restart of its host.
use steerloop.Common.{ℕ, Text, Option, true, false, if◌then◌else◌, arith, ◌≡◌}
use steerloop.Protocol.Schema.{EventEnvelope, NormalizedEvent}
use steerloop.Protocol.View.{ControlPlaneState}
use steerloop.Protocol.Handlers.{dispatch, apply_event, existing_session}
use steerloop.Protocol.State.{
  is_host_connected, note_event, restart_host, host_restarted, is_dropped, accept_event,
  reduce_event,
}

module _ (date_parse : Text → Option ℕ) (s : ControlPlaneState) (e : EventEnvelope) where
  pub not_restarted : is_host_connected e.event ≡ false → host_restarted date_parse s e ≡ false
  unfolding host_restarted
  not_restarted h = rw h

  pub connected_of_restarted :
      host_restarted date_parse s e ≡ true → is_host_connected e.event ≡ true
  unfolding host_restarted
  connected_of_restarted h = ground arith

  -- The events that cannot restart a host meet the state as it was, but for the log.
  pub reduce_event_plain :
      (ev : NormalizedEvent)
      → e.event ≡ ev
      → is_host_connected ev ≡ false
      → is_dropped date_parse s e ≡ false
      → reduce_event date_parse s e
        ≡ dispatch e ev (existing_session (note_event s e) e) (note_event s e)
  unfolding reduce_event accept_event apply_event
  reduce_event_plain ev same_event c fresh = rw (fresh, not_restarted (rw same_event c), same_event)

  pub reduce_event_accepted :
      is_dropped date_parse s e ≡ false
      → reduce_event date_parse s e
        ≡ apply_event e (
            if host_restarted date_parse s e
            then restart_host e (note_event s e)
            else note_event s e)
  unfolding reduce_event accept_event
  reduce_event_accepted fresh = rw fresh

  pub reduce_event_restarted :
      host_restarted date_parse s e ≡ true
      → is_dropped date_parse s e ≡ false
      → reduce_event date_parse s e ≡ apply_event e (restart_host e (note_event s e))
  reduce_event_restarted again fresh = rw (reduce_event_accepted fresh, again)

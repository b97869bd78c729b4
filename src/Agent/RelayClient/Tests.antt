-- ===== src/Agent/RelayClient/Tests.antt =====
-- The client on concrete frames, and each theorem at such an input.
use Prim.Native.Nat.{min}
use steerloop.Common.{
  ℕ, ◌*◌, ◌^◌, ◌++◌, Text, text, text_dec, [], ◌∷◌, map, Option, none, some, true, false, not,
  is_some, ◌⊎◌, ◌≡◌, ◌≢◌, refl, arith, length, slice_last, lookup, insert, at_most,
}
use steerloop.Protocol.Schema.{CommandEnvelope, CommandResult, session_interrupt}
use steerloop.Agent.RelayClient.{
  RelayClient, Link, AuthenticatedFrame, offer, result, sends, on_authenticated, on_command,
  is_open, max_queue, new_client, does, publish, flush_queue, schedule_reconnect, start, stop,
  connect_once, on_open, on_auth_result, on_timer, on_close, handle_command, close_socket, fail,
}
use steerloop.Agent.RelayClient.Queue.{publish_all, queued_then_flushed}
use steerloop.Agent.RelayClient.Backoff.{retry, retries, backoff, restart_never_retries}
use steerloop.Agent.RelayClient.Commands.{handle_command_answers}

relay_client : Unit {0}
unfolding text_dec lookup insert slice_last publish flush_queue schedule_reconnect connect_once
    on_open on_auth_result on_timer on_close handle_command close_socket fail
relay_client = tt

abbrev fresh : RelayClient
fresh = new_client (text "t") (text "h") 500 15000

abbrev link : Link
link = record { state = is_open; ready = false; settled = false }

-- The first socket is open and has not been let in.
abbrev waiting : RelayClient
waiting = record fresh { socket = some (text "s"); links = (text "s", link) ∷ [] }

abbrev code : AuthenticatedFrame
code = offer (record { host_id = text "h"; code = text "ABCDEF"; expires_at = text "1" })

waiting_tests :
    ((on_open (text "s") (connect_once (text "s") fresh)).links ≡ waiting.links)
    × ((on_close (text "s") waiting).reconnect_timer ≡ some 500)
    × ((on_close (text "s") waiting).reconnect_delay_ms ≡ 1000)
unfolding relay_client
waiting_tests = (refl, refl, refl)

waiting_facts : (lookup (text "s") waiting.links ≡ some link)
unfolding relay_client
waiting_facts = refl

queued_then_flushed_example :
    let c' = on_auth_result (text "s") true (publish_all (code ∷ []) waiting) in
    (c'.queue ≡ [])
    × (c'.done
        ≡ ([] ++ map (sends (text "s")) (slice_last max_queue ([] ++ code ∷ [])))
          ++ on_authenticated ∷ [])
queued_then_flushed_example =
    queued_then_flushed (code ∷ []) (text "s") link waiting refl (omega arith) refl waiting_facts
      refl

backoff_example :
    (retry (text "c") (retries (text "a" ∷ text "b" ∷ []) fresh)).reconnect_timer
    ≡ some (min (500 * 2 ^ length (text "a" ∷ text "b" ∷ [])) 15000)
backoff_example = backoff (text "a" ∷ text "b" ∷ []) (text "c") fresh refl (omega arith)

abbrev retrying : RelayClient
retrying = record waiting { reconnect_timer = some 500 }

restart_never_retries_example :
    schedule_reconnect (start (text "n") (stop retrying)) ≡ start (text "n") (stop retrying)
restart_never_retries_example = restart_never_retries (text "n") 500 retrying refl

-- A time is as late as its text is long.
abbrev clock : Text → Option ℕ
clock t = some (length t)

abbrev interrupt : CommandEnvelope
interrupt = record {
  command_id = text "c";
  host_id = text "h";
  session_id = text "s";
  issued_at = text "1";
  expires_at = text "12345";
  command = session_interrupt;
}

handle_command_answers_example :
    let c' = handle_command clock 3 none interrupt waiting in
    (r : CommandResult) × (r.command_id ≡ text "c")
    × (r.host_id ≡ text "h")
    × ((at_most (clock interrupt.expires_at) 3 ≡ false)
          × (interrupt.host_id ≡ waiting.host_id)
          × (r.ok ≡ not (is_some {A = Text} none))
          × (c' ≡ publish (result r) (does (on_command interrupt) waiting))
        ⊎ ((at_most (clock interrupt.expires_at) 3 ≡ true) ⊎ (interrupt.host_id ≢ waiting.host_id))
          × (r.ok ≡ false)
          × (c' ≡ publish (result r) waiting))
handle_command_answers_example = handle_command_answers clock 3 none interrupt waiting

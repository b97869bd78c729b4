-- ===== src/Web/Connection/Tests.antt =====
-- The browser's connection on concrete frames, and each theorem at such an input.
use steerloop.Common.{
  ℕ, Text, text, text_dec, List, [], ◌∷◌, ◌++◌, Option, none, some, false, ◌≡◌, refl, length,
  lookup, insert,
}
use steerloop.Common.Effects.{ok, throws}
use steerloop.Protocol.Schema.{EventEnvelope, host_heartbeat, RelayToClient}
use steerloop.Protocol.View.{create_empty_state}
use steerloop.Protocol.State.{reduce_events}
use steerloop.Agent.RelayClient.{is_open}
use steerloop.Web.Connection.{
  on_connection, ConnectionStatus, ConnectionTarget, ControlClient, Message, invalid_frame, frame,
  new_client, schedule_reconnect, open_relay, close_socket, disconnect, connect, on_open, on_close,
  handle_message,
}
use steerloop.Web.Connection.Stream.{Displays, receive_all, events_from, shows_received}
use steerloop.Web.Connection.Leaving.{
  opens, timer_fires, told, happen, happen_all, disconnect_for_good,
}
use steerloop.Web.Connection.Invariant
use steerloop.Web.Connection.Invariant.{Sound, Reaches-Sound}

browser : Unit {0}
unfolding text_dec lookup insert create_empty_state schedule_reconnect open_relay close_socket
    disconnect connect on_open on_close handle_message
browser = tt

abbrev clock : Text → Option ℕ
clock t = some (length t)

abbrev target : ConnectionTarget
target = record { url = text "wss://h/ws"; token = text "t" }

abbrev connected_client : ControlClient
connected_client = on_open (text "s") (connect (ok (text "s")) target new_client)

-- The socket logs in when it opens; a frame that is refused leaves it open, as its code is not allowed.
connected_tests :
    (connected_client.socket ≡ some (text "s"))
    × (lookup (text "s") connected_client.links
        ≡ some (record { state = is_open; token = text "t" }))
    × (handle_message clock (text "s") invalid_frame connected_client ≡ connected_client)
    × ((on_close (text "s") connected_client).reconnect_timer ≡ some 750)
unfolding browser
connected_tests = (refl, refl, refl, refl)

connected_socket : connected_client.socket ≡ some (text "s")
unfolding browser
connected_socket = refl

abbrev beat : ℕ → Text → EventEnvelope
beat n id = record {
  event_id = id;
  sequence = n;
  host_id = text "h";
  session_id = none;
  emitted_at = text "1";
  event = host_heartbeat (text "1");
}

abbrev messages : List (Text × Message)
messages =
    (text "old", frame (RelayToClient.event (beat 7 (text "x"))))
    ∷ (text "s", frame (RelayToClient.event (beat 2 (text "b"))))
    ∷ []

shows_received_example :
    Displays clock
      (text "s")
      (reduce_events clock ((beat 1 (text "a") ∷ []) ++ events_from (text "s") messages))
      (receive_all clock
        ((text "s", frame (RelayToClient.snapshot (beat 1 (text "a") ∷ []))) ∷ messages)
        connected_client)
shows_received_example =
    shows_received clock (text "s") (beat 1 (text "a") ∷ []) messages connected_client
      connected_socket ((λ own. refl), ((λ own. refl), tt))

disconnect_for_good_example :
    let d =
      happen_all clock
        (opens (text "s") ∷ timer_fires (ok (text "n")) ∷ [])
        (disconnect connected_client) in
    (d.socket ≡ none)
    × (d.should_reconnect ≡ false)
    × (d.authenticated ≡ false)
    × (d.state ≡ connected_client.state)
    × (told d.done
        ≡ told connected_client.done
          ++ on_connection (record { status = ConnectionStatus.disconnected; detail = none }) ∷ [])
disconnect_for_good_example =
    disconnect_for_good clock (opens (text "s") ∷ timer_fires (ok (text "n")) ∷ []) connected_client

abbrev dialled : ControlClient
dialled = connect (throws (text "Invalid relay URL")) target new_client

Reaches-Sound_example : Sound (happen clock (timer_fires (ok (text "s"))) dialled)
Reaches-Sound_example =
    Reaches-Sound clock {c = happen clock (timer_fires (ok (text "s"))) dialled} (
      Invariant.happens (timer_fires (ok (text "s"))) dialled
        (Invariant.connects (throws (text "Invalid relay URL")) target new_client Invariant.starts))

-- ===== src/Web/Connection/Invariant.antt =====
-- What always holds of the browser's connection: the wait before an attempt, and which socket is logged in.
use Prim.Native.Nat.{min}
use steerloop.Common.{
  ℕ, ◌*◌, ◌≤◌, Text, text, Option, none, some, Bool, true, false, ◌||◌, ◌&&◌, not, is_some,
  if_either, if_cases, or_else, arith, ◌≡◌, refl, lookup,
}
use steerloop.Common.Effects.{Outcome, ok, throws}
use steerloop.Protocol.Schema.{RelayToClient, AuthResult, CommandEnvelope}
use steerloop.Protocol.Schema.Checks.{command_envelope_schema}
use steerloop.Web.Connection.{
  ControlClient, ConnectionTarget, ConnectionStatus, Link, Message, binary, invalid_json,
  invalid_frame, frame, is_current, is_allowed, is_live, close_link, close_current, close_socket,
  schedule_reconnect, open_socket, open_target, open_relay, disconnect, connect, open_link,
  mark_closed, on_open, on_error, lose_socket, on_close, on_timer, on_auth_result,
  on_current_message, handle_message, reconnect_min_ms, reconnect_max_ms, tells, new_client,
  send_on, send, link_open,
}
use steerloop.Web.Connection.Leaving.{
  Happening, opens, receives, errs, closes_down, timer_fires, happen,
}

abbrev InBounds : ℕ → Type 0
InBounds d = (reconnect_min_ms ≤ d) × (d ≤ reconnect_max_ms)

abbrev TimerInBounds : Option ℕ → Type 0
TimerInBounds none = Unit
TimerInBounds (some d) = InBounds d

abbrev SoundFields : ℕ → Option ℕ → Option Text → Bool → Type 0
SoundFields delay timer socket authenticated =
    InBounds delay
    × TimerInBounds timer
    × (is_some timer ≡ true → socket ≡ none)
    × (socket ≡ none → authenticated ≡ false)

-- The next wait and the one that runs are in their bounds; while one runs there is no socket, and
-- without a socket the client is not logged in.
abbrev pub Sound : ControlClient → Type 0
Sound c = SoundFields c.reconnect_delay c.reconnect_timer c.socket c.authenticated

abbrev Alike : ControlClient → ControlClient → Type 0
Alike c d =
    (d.reconnect_delay ≡ c.reconnect_delay)
    × (d.reconnect_timer ≡ c.reconnect_timer)
    × (d.socket ≡ c.socket)
    × (d.authenticated ≡ c.authenticated)

Alike-Sound : (c d : ControlClient) → Alike c d → Sound c → Sound d
Alike-Sound c d a w = rw (a.0, a.1, a.2, a.3) w

close_link-Alike :
    (o : Option Link) (s : Text) (code : ℕ) (c : ControlClient) → Alike c (close_link o s code c)
close_link-Alike none s code c = (refl, refl, refl, refl)
close_link-Alike (some l) s code c =
    if_either {A = ControlClient} (Alike c) (is_allowed code && is_live l.state)
      (refl, refl, refl, refl) (refl, refl, refl, refl)

close_socket-Sound :
    (s : Text) (code : ℕ) (c : ControlClient) → Sound c → Sound (close_socket s code c)
unfolding close_socket
close_socket-Sound s code c w =
    Alike-Sound c (close_link (lookup s c.links) s code c)
      (close_link-Alike (lookup s c.links) s code c) w

close_current-Sound : (o : Option Text) (c : ControlClient) → Sound c → Sound (close_current o c)
close_current-Sound none c w = w
close_current-Sound (some s) c w = close_socket-Sound s 1000 c w

doubled-InBounds : (d : ℕ) → InBounds d → InBounds (min (d * 2) reconnect_max_ms)
doubled-InBounds d b = (omega (arith, b.0, b.1), omega arith)

schedule_reconnect-Sound :
    (c : ControlClient) → c.socket ≡ none → Sound c → Sound (schedule_reconnect c)
unfolding schedule_reconnect
schedule_reconnect-Sound c gone w =
    if_either {A = ControlClient} Sound (is_some c.reconnect_timer || not c.should_reconnect) w
      (doubled-InBounds c.reconnect_delay w.0, w.0, (λ h. gone), w.3)

open_socket-Sound :
    (created : Outcome Text) (t : ConnectionTarget) (c : ControlClient)
    → c.socket ≡ none
    → c.reconnect_timer ≡ none
    → Sound c
    → Sound (open_socket created t c)
open_socket-Sound (throws e) t c gone idle w =
    schedule_reconnect-Sound (tells ConnectionStatus.error (some e) c) gone w
open_socket-Sound (ok s) t c gone idle w = (w.0, w.1, (λ h. ground (arith, h, idle)), λ h. w.3 gone)

open_target-Sound :
    (created : Outcome Text) (status : ConnectionStatus) (o : Option ConnectionTarget)
    (c : ControlClient)
    → c.socket ≡ none
    → c.reconnect_timer ≡ none
    → Sound c
    → Sound (open_target created status o c)
open_target-Sound created status none c gone idle w = w
open_target-Sound created status (some t) c gone idle w =
    if_either {A = ControlClient} Sound c.should_reconnect
      (open_socket-Sound created t (tells status none c) gone idle w) w

on_timer-Sound :
    (created : Outcome Text) (c : ControlClient)
    → c.socket ≡ none
    → Sound c
    → Sound (on_timer created c)
unfolding on_timer open_relay
on_timer-Sound created c gone w =
    open_target-Sound created ConnectionStatus.reconnecting c.target
      (record c { reconnect_timer = none }) gone refl (w.0, tt, (λ h. gone), w.3)

disconnect-Sound : (c : ControlClient) → Sound c → Sound (disconnect c)
unfolding disconnect
disconnect-Sound c w =
    close_current-Sound c.socket
      (record c {
        should_reconnect = false;
        authenticated = false;
        reconnect_timer = none;
        socket = none;
      })
      (w.0, tt, (λ h. refl), λ h. refl)

close_current-Alike : (o : Option Text) (c : ControlClient) → Alike c (close_current o c)
unfolding close_socket
close_current-Alike none c = (refl, refl, refl, refl)
close_current-Alike (some s) c = close_link-Alike (lookup s c.links) s 1000 c

connect-Sound :
    (created : Outcome Text) (t : ConnectionTarget) (c : ControlClient)
    → Sound c
    → Sound (connect created t c)
unfolding connect open_relay disconnect
connect-Sound created t c w =
    let c1 = record c {
      should_reconnect = false;
      authenticated = false;
      reconnect_timer = none;
      socket = none;
    } in
    let a = close_current-Alike c.socket c1 in
    let d = record (disconnect c) { target = some t; should_reconnect = true } in
    open_target-Sound created ConnectionStatus.connecting (some t) d a.2 a.1 (disconnect-Sound c w)

on_open-Sound : (s : Text) (c : ControlClient) → Sound c → Sound (on_open s c)
unfolding on_open
on_open-Sound s c w = open_link-Sound (lookup s c.links)
  where
    open_link-Sound : (o : Option Link) → Sound (open_link o s c)
    open_link-Sound none = w
    open_link-Sound (some l) = w

mark_closed-Alike : (o : Option Link) (s : Text) (c : ControlClient) → Alike c (mark_closed o s c)
mark_closed-Alike none s c = (refl, refl, refl, refl)
mark_closed-Alike (some l) s c = (refl, refl, refl, refl)

lose_socket-Sound : (c : ControlClient) → Sound c → Sound (lose_socket c)
lose_socket-Sound c w =
    let c1 = record c { socket = none; authenticated = false } in
    let w1 : Sound c1 = (w.0, w.1, (λ h. refl), λ h. refl) in
    if_either {A = ControlClient} Sound c.should_reconnect (schedule_reconnect-Sound c1 refl w1) w1

on_close-Sound : (s : Text) (c : ControlClient) → Sound c → Sound (on_close s c)
unfolding on_close
on_close-Sound s c w =
    let c1 = mark_closed (lookup s c.links) s c in
    let w1 = Alike-Sound c c1 (mark_closed-Alike (lookup s c.links) s c) w in
    if_either {A = ControlClient} Sound (is_current c1.socket s) (lose_socket-Sound c1 w1) w1

on_error-Sound : (s : Text) (c : ControlClient) → Sound c → Sound (on_error s c)
unfolding on_error
on_error-Sound s c w = if_either {A = ControlClient} Sound (is_current c.socket s) w w

on_auth_result-Sound :
    (s : Text) (a : AuthResult) (ok : Bool) (c : ControlClient)
    → is_current c.socket s ≡ true
    → Sound c
    → Sound (on_auth_result s a ok c)
on_auth_result-Sound s a false c own w =
    close_socket-Sound s 1008
      (tells ConnectionStatus.error (some (or_else a.error (text "Relay authentication failed")))
        (record c { should_reconnect = false }))
      w
on_auth_result-Sound s a true c own w =
    ((omega arith, omega arith), w.1, w.2, λ h. ground (arith, h, own))

module _ (date_parse : Text → Option ℕ) where
  on_current_message-Sound :
      (s : Text) (m : Message) (c : ControlClient)
      → is_current c.socket s ≡ true
      → Sound c
      → Sound (on_current_message date_parse s m c)
  on_current_message-Sound s binary c own w = w
  on_current_message-Sound s invalid_json c own w = close_socket-Sound s 1007 c w
  on_current_message-Sound s invalid_frame c own w = close_socket-Sound s 1008 c w
  on_current_message-Sound s (frame (RelayToClient.auth_result a)) c own w =
      on_auth_result-Sound s a a.ok c own w
  on_current_message-Sound s (frame (RelayToClient.snapshot es)) c own w = w
  on_current_message-Sound s (frame (RelayToClient.event e)) c own w = w
  on_current_message-Sound s (frame (RelayToClient.result r)) c own w = w

  happen-Sound : (h : Happening) (c : ControlClient) → Sound c → Sound (happen date_parse h c)
  unfolding happen handle_message
  happen-Sound (opens s) c w = on_open-Sound s c w
  happen-Sound (receives s m) c w =
      if_cases {A = ControlClient} Sound (is_current c.socket s)
        (λ own. on_current_message-Sound s m c own w) (λ other. w)
  happen-Sound (errs s) c w = on_error-Sound s c w
  happen-Sound (closes_down s) c w = on_close-Sound s c w
  happen-Sound (timer_fires created) c w =
      if_cases {A = ControlClient} Sound (is_some c.reconnect_timer)
        (λ runs. on_timer-Sound created c (w.2 runs) w) (λ idle. w)

  send_on-Sound :
      (is_datetime : Text → Bool) (o : Option Text) (k : CommandEnvelope) (c : ControlClient)
      → Sound c
      → Sound (send_on is_datetime o k c).0
  send_on-Sound is_datetime none k c w = w
  send_on-Sound is_datetime (some s) k c w =
      if_either {A = ControlClient × Outcome (Unit {0})} (λ r. Sound r.0)
        (not (c.authenticated && link_open (lookup s c.links))) w
        (if_either {A = ControlClient × Outcome (Unit {0})} (λ r. Sound r.0)
          (command_envelope_schema is_datetime k) w w)

  -- The clients that calls of the owner, and what happens between them, lead to.
  pub data Reaches : ControlClient → Type 0 where
    starts : Reaches new_client
    connects :
        (created : Outcome Text)
        → (t : ConnectionTarget) → (c : ControlClient) → Reaches c
        → Reaches (connect created t c)
    disconnects : (c : ControlClient) → Reaches c → Reaches (disconnect c)
    sends :
        (is_datetime : Text → Bool)
        → (k : CommandEnvelope) → (c : ControlClient) → Reaches c
        → Reaches (send is_datetime k c).0
    happens : (h : Happening) → (c : ControlClient) → Reaches c → Reaches (happen date_parse h c)

  -- In every client that calls and happenings lead to, in any order: the wait before the next attempt,
  -- and that of a timer that runs, are between 750 and 10,000 milliseconds; no timer runs while there
  -- is a socket; and a client without a socket is not logged in.
  pub Reaches-Sound : {c : ControlClient} → Reaches c → Sound c
  unfolding send
  Reaches-Sound starts = ((omega arith, omega arith), tt, (λ h. refl), λ h. refl)
  Reaches-Sound (connects created t c r) = connect-Sound created t c (Reaches-Sound r)
  Reaches-Sound (disconnects c r) = disconnect-Sound c (Reaches-Sound r)
  Reaches-Sound (sends is_datetime k c r) = send_on-Sound is_datetime c.socket k c (Reaches-Sound r)
  Reaches-Sound (happens h c r) = happen-Sound h c (Reaches-Sound r)

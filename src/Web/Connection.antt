-- ===== src/Web/Connection.antt =====
-- apps/web/src/connection.ts: the browser's connection to the relay. A socket is named by a text; what
-- the client does is recorded in `done`, the latest last. `created` is what the constructor of a
-- socket gives: its name, or the error it throws.
pub mod Stream
pub mod Leaving
pub mod Invariant
mod Tests
use Prim.Native.Nat.{min}
use steerloop.Common.{
  ℕ, ◌*◌, Text, text, same, List, [], ◌∷◌, ◌++◌, Option, none, some, Bool, true, false, ◌&&◌, ◌||◌,
  not, ◌==◌, leb, is_some, or_else, if◌then◌else◌, Assoc, lookup, insert,
}
use steerloop.Common.Effects.{Outcome, ok, throws}
use steerloop.Protocol.Schema.{
  EventEnvelope, CommandEnvelope, CommandResult, AuthFrame, AuthResult, RelayToClient,
}
use steerloop.Protocol.Schema.Checks.{command_envelope_schema}
use steerloop.Protocol.View.{ControlPlaneState, create_empty_state}
use steerloop.Protocol.State.{reduce_event, reduce_events}
use steerloop.Agent.RelayClient.{ReadyState, is_open, closing, closed, state_is_open}

pub data ConnectionStatus : Type 0 where
  disconnected connecting connected reconnecting error : ConnectionStatus

pub record ConnectionUpdate : Type 0 where
  pub status : ConnectionStatus
  pub detail : Option Text

pub record ConnectionTarget : Type 0 where
  pub url : Text
  pub token : Text

pub data Effect : Type 0 where
  logs_in : (socket : Text) → AuthFrame → Effect
  sends : (socket : Text) → CommandEnvelope → Effect
  closes : (socket : Text) → (code : ℕ) → Effect
  on_state : ControlPlaneState → Effect
  on_connection : ConnectionUpdate → Effect
  on_command_result : CommandResult → Effect

-- A socket and the token that it logs in with.
pub record Link : Type 0 where
  pub state : ReadyState
  pub token : Text

pub record ControlClient : Type 0 where
  pub links : Assoc Link
  pub socket : Option Text
  pub target : Option ConnectionTarget
  pub reconnect_timer : Option ℕ
  pub reconnect_delay : ℕ
  pub should_reconnect : Bool
  pub authenticated : Bool
  pub state : ControlPlaneState
  pub done : List Effect

abbrev pub reconnect_min_ms : ℕ
reconnect_min_ms = 750

abbrev pub reconnect_max_ms : ℕ
reconnect_max_ms = 10000

abbrev pub new_client : ControlClient
new_client = record {
  links = [];
  socket = none;
  target = none;
  reconnect_timer = none;
  reconnect_delay = reconnect_min_ms;
  should_reconnect = false;
  authenticated = false;
  state = create_empty_state;
  done = [];
}

abbrev pub does : Effect → ControlClient → ControlClient
does e c = record c { done = c.done ++ e ∷ [] }

abbrev pub tells : ConnectionStatus → Option Text → ControlClient → ControlClient
tells status detail c = does (on_connection (record { status = status; detail = detail })) c

unfoldable pub schedule_reconnect : ControlClient → ControlClient
schedule_reconnect c =
    if is_some c.reconnect_timer || not c.should_reconnect
    then c
    else record (tells reconnecting none c) {
      reconnect_timer = some c.reconnect_delay;
      reconnect_delay = min (c.reconnect_delay * 2) reconnect_max_ms;
    }

abbrev pub open_socket : Outcome Text → ConnectionTarget → ControlClient → ControlClient
open_socket (throws e) t c = schedule_reconnect (tells error (some e) c)
open_socket (ok s) t c = record c {
  socket = some s;
  links = insert s (record { state = ReadyState.connecting; token = t.token }) c.links;
}

abbrev pub open_target :
    Outcome Text → ConnectionStatus → Option ConnectionTarget → ControlClient → ControlClient
open_target created status none c = c
open_target created status (some t) c =
    if c.should_reconnect then open_socket created t (tells status none c) else c

unfoldable pub open_relay : Outcome Text → ConnectionStatus → ControlClient → ControlClient
open_relay created status c = open_target created status c.target c

-- `readyState < CLOSING`
abbrev pub is_live : ReadyState → Bool
is_live ReadyState.connecting = true
is_live is_open = true
is_live _ = false

-- The codes that a browser lets a page close a socket with.
abbrev pub is_allowed : (code : ℕ) → Bool
is_allowed code = (code == 1000) || (leb 3000 code && leb code 4999)

-- A call of `close` on a socket: with a code that is not allowed it throws, which nothing catches and
-- nothing follows; on a socket that is closing or closed it does nothing more.
abbrev pub close_link : Option Link → Text → (code : ℕ) → ControlClient → ControlClient
close_link none s code c = c
close_link (some l) s code c =
    if is_allowed code && is_live l.state
    then does (closes s code) (record c { links = insert s (record l { state = closing }) c.links })
    else c

unfoldable pub close_socket : Text → (code : ℕ) → ControlClient → ControlClient
close_socket s code c = close_link (lookup s c.links) s code c

abbrev pub close_current : Option Text → ControlClient → ControlClient
close_current none c = c
close_current (some s) c = close_socket s 1000 c

unfoldable pub disconnect : ControlClient → ControlClient
disconnect c = tells disconnected none (
    close_current c.socket (record c {
      should_reconnect = false;
      authenticated = false;
      reconnect_timer = none;
      socket = none;
    }))

unfoldable pub connect : Outcome Text → ConnectionTarget → ControlClient → ControlClient
connect created t c =
    open_relay created connecting
      (record (disconnect c) { target = some t; should_reconnect = true })

abbrev pub link_open : Option Link → Bool
link_open none = false
link_open (some l) = state_is_open l.state

abbrev not_connected : Text
not_connected = text "Relay is not connected"

abbrev pub send_on :
    (is_datetime : Text → Bool)
    → Option Text
    → CommandEnvelope
    → ControlClient
    → ControlClient × Outcome (Unit {0})
send_on is_datetime none k c = (c, throws not_connected)
send_on is_datetime (some s) k c =
    if not (c.authenticated && link_open (lookup s c.links))
    then (c, throws not_connected)
    else if command_envelope_schema is_datetime k
    then (does (sends s k) c, ok tt)
    else (c, throws (text "Invalid command"))

unfoldable pub send :
    (is_datetime : Text → Bool)
    → CommandEnvelope
    → ControlClient
    → ControlClient × Outcome (Unit {0})
send is_datetime k c = send_on is_datetime c.socket k c

abbrev pub is_current : Option Text → Text → Bool
is_current none s = false
is_current (some t) s = same t s

-- What a socket receives; `invalid_frame` is JSON that is not of the schema.
pub data Message : Type 0 where
  binary invalid_json invalid_frame : Message
  frame : RelayToClient → Message

abbrev pub open_link : Option Link → Text → ControlClient → ControlClient
open_link none s c = c
open_link (some l) s c =
    does (logs_in s (AuthFrame.client l.token))
      (record c { links = insert s (record l { state = is_open }) c.links })

unfoldable pub on_open : Text → ControlClient → ControlClient
on_open s c = open_link (lookup s c.links) s c

unfoldable pub on_error : Text → ControlClient → ControlClient
on_error s c =
    if is_current c.socket s then tells error (some (text "Could not reach the relay")) c else c

abbrev pub mark_closed : Option Link → Text → ControlClient → ControlClient
mark_closed none s c = c
mark_closed (some l) s c = record c { links = insert s (record l { state = closed }) c.links }

abbrev pub lose_socket : ControlClient → ControlClient
lose_socket c =
    let c1 = record c { socket = none; authenticated = false } in
    if c1.should_reconnect then schedule_reconnect c1 else c1

unfoldable pub on_close : Text → ControlClient → ControlClient
on_close s c =
    let c1 = mark_closed (lookup s c.links) s c in
    if is_current c1.socket s then lose_socket c1 else c1

-- The timer fires.
unfoldable pub on_timer : Outcome Text → ControlClient → ControlClient
on_timer created c = open_relay created reconnecting (record c { reconnect_timer = none })

abbrev pub on_auth_result : Text → AuthResult → Bool → ControlClient → ControlClient
on_auth_result s a false c = close_socket s 1008 (
    tells error (some (or_else a.error (text "Relay authentication failed")))
      (record c { should_reconnect = false }))
on_auth_result s a true c =
    tells connected none (record c { authenticated = true; reconnect_delay = reconnect_min_ms })

-- A new state is kept and shown.
abbrev pub show_state : ControlPlaneState → ControlClient → ControlClient
show_state v c = does (on_state v) (record c { state = v })

module _ (date_parse : Text → Option ℕ) where
  abbrev pub on_frame : Text → RelayToClient → ControlClient → ControlClient
  on_frame s (RelayToClient.auth_result a) c = on_auth_result s a a.ok c
  on_frame s (RelayToClient.snapshot es) c = show_state (reduce_events date_parse es) c
  on_frame s (RelayToClient.event e) c = show_state (reduce_event date_parse c.state e) c
  on_frame s (RelayToClient.result r) c = does (on_command_result r) c

  abbrev pub on_current_message : Text → Message → ControlClient → ControlClient
  on_current_message s binary c = c
  on_current_message s invalid_json c = close_socket s 1007 c
  on_current_message s invalid_frame c = close_socket s 1008 c
  on_current_message s (frame f) c = on_frame s f c

  unfoldable pub handle_message : Text → Message → ControlClient → ControlClient
  handle_message s m c = if is_current c.socket s then on_current_message s m c else c

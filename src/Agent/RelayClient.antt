-- ===== src/Agent/RelayClient.antt =====
-- apps/agent/src/relay-client.ts: the agent's connection to the relay, with the queue of frames that
-- wait for it and the backoff between attempts; apps/agent/src/event-factory.ts: the numbering of
-- events. A socket is named by a text; what it does is recorded in `done`, the latest last. A settled
-- promise of `connectOnce` ignores a second outcome.
pub mod Queue
pub mod Backoff
pub mod Commands
mod Tests
use Prim.Native.Nat.{min}
use steerloop.Common.{
  ℕ, ◌+◌, ◌*◌, Text, text, same, List, [], ◌∷◌, ◌++◌, map, Option, none, some, Bool, true, false,
  ◌&&◌, ◌||◌, not, is_some, if◌then◌else◌, at_most, slice_last, Assoc, lookup, insert,
}
use steerloop.Protocol.Schema.{
  EventEnvelope, NormalizedEvent, CommandEnvelope, CommandResult, PairingOffer, AuthFrame,
  AuthResult, RelayToAgent,
}

pub data ReadyState : Type 0 where
  connecting is_open closing closed : ReadyState

-- A socket, whether it was let in, and whether its promise is settled.
pub record Link : Type 0 where
  pub state : ReadyState
  pub ready : Bool
  pub settled : Bool

pub data AuthenticatedFrame : Type 0 where
  event : EventEnvelope → AuthenticatedFrame
  result : CommandResult → AuthenticatedFrame
  offer : PairingOffer → AuthenticatedFrame

pub data Effect : Type 0 where
  logs_in : (socket : Text) → AuthFrame → Effect
  sends : (socket : Text) → AuthenticatedFrame → Effect
  closes : (socket : Text) → (code : ℕ) → Effect
  on_authenticated : Effect
  on_command : CommandEnvelope → Effect

pub record RelayClient : Type 0 where
  pub token : Text
  pub host_id : Text
  pub reconnect_min_ms : ℕ
  pub reconnect_max_ms : ℕ
  pub links : Assoc Link
  pub socket : Option Text
  pub authenticated : Bool
  pub stopped : Bool
  pub reconnect_delay_ms : ℕ
  pub reconnect_timer : Option ℕ
  pub queue : List AuthenticatedFrame
  pub done : List Effect

abbrev pub max_queue : ℕ
max_queue = 1000

abbrev pub new_client : (token host_id : Text) → (min_ms max_ms : ℕ) → RelayClient
new_client token host_id min_ms max_ms = record {
  token = token;
  host_id = host_id;
  reconnect_min_ms = min_ms;
  reconnect_max_ms = max_ms;
  links = [];
  socket = none;
  authenticated = false;
  stopped = false;
  reconnect_delay_ms = min_ms;
  reconnect_timer = none;
  queue = [];
  done = [];
}

abbrev pub does : Effect → RelayClient → RelayClient
does e c = record c { done = c.done ++ e ∷ [] }

abbrev pub state_is_open : ReadyState → Bool
state_is_open is_open = true
state_is_open _ = false

abbrev pub link_open : Option Link → Bool
link_open none = false
link_open (some l) = state_is_open l.state

-- The socket that frames can be sent on now.
abbrev pub usable : Option Text → Assoc Link → Bool → Option Text
usable none links authenticated = none
usable (some s) links authenticated =
    if link_open (lookup s links) && authenticated then some s else none

abbrev pub sender : RelayClient → Option Text
sender c = usable c.socket c.links c.authenticated

abbrev pub publish_on : Option Text → AuthenticatedFrame → RelayClient → RelayClient
publish_on (some s) f c = does (sends s f) c
publish_on none f c = record c { queue = slice_last max_queue (c.queue ++ f ∷ []) }

unfoldable pub publish : AuthenticatedFrame → RelayClient → RelayClient
publish f c = publish_on (sender c) f c

abbrev pub flush_on : Option Text → RelayClient → RelayClient
flush_on none c = c
flush_on (some s) c = record c { queue = []; done = c.done ++ map (sends s) c.queue }

unfoldable pub flush_queue : RelayClient → RelayClient
flush_queue c = flush_on (sender c) c

unfoldable pub schedule_reconnect : RelayClient → RelayClient
schedule_reconnect c = if is_some c.reconnect_timer || c.stopped then c else record c {
  reconnect_timer = some c.reconnect_delay_ms;
  reconnect_delay_ms = min (c.reconnect_delay_ms * 2) c.reconnect_max_ms;
}

-- `connectOnce`, up to its first event: the new socket is the current one.
unfoldable pub connect_once : Text → RelayClient → RelayClient
connect_once s c = record c {
  socket = some s;
  links = insert s (record { state = connecting; ready = false; settled = false }) c.links;
}

unfoldable pub start : Text → RelayClient → RelayClient
start s c = connect_once s (record c { stopped = false })

abbrev pub is_closed : ReadyState → Bool
is_closed closed = true
is_closed _ = false

abbrev pub close_link : Option Link → Text → (code : ℕ) → RelayClient → RelayClient
close_link none s code c = c
close_link (some l) s code c =
    if is_closed l.state
    then c
    else does (closes s code) (record c { links = insert s (record l { state = closing }) c.links })

unfoldable pub close_socket : Text → (code : ℕ) → RelayClient → RelayClient
close_socket s code c = close_link (lookup s c.links) s code c

abbrev pub close_current : Option Text → RelayClient → RelayClient
close_current none c = c
close_current (some s) c = close_socket s 1000 c

-- The timeout is cleared, but the field that names it stays as it is.
unfoldable pub stop : RelayClient → RelayClient
stop c = close_current c.socket (record c { stopped = true; socket = none; authenticated = false })

-- A promise that fails for the first time asks for another attempt.
abbrev pub fail_link : Option Link → Text → RelayClient → RelayClient
fail_link none s c = c
fail_link (some l) s c =
    if l.settled
    then c
    else schedule_reconnect (record c { links = insert s (record l { settled = true }) c.links })

unfoldable pub fail : Text → RelayClient → RelayClient
fail s c = fail_link (lookup s c.links) s c

abbrev pub open_link : Option Link → Text → RelayClient → RelayClient
open_link none s c = c
open_link (some l) s c =
    does (logs_in s (AuthFrame.agent c.token c.host_id))
      (record c { links = insert s (record l { state = is_open }) c.links })

unfoldable pub on_open : Text → RelayClient → RelayClient
on_open s c = open_link (lookup s c.links) s c

-- The socket is let in.
abbrev pub admit_link : Option Link → Text → RelayClient → RelayClient
admit_link none s c = c
admit_link (some l) s c = record c {
  links = insert s (record l { ready = true; settled = true }) c.links;
  authenticated = true;
  reconnect_delay_ms = c.reconnect_min_ms;
}

unfoldable pub on_auth_result : Text → Bool → RelayClient → RelayClient
on_auth_result s true c = does on_authenticated (flush_queue (admit_link (lookup s c.links) s c))
on_auth_result s false c = close_socket s 1008 (fail s c)

abbrev pub link_ready : Option Link → Bool
link_ready none = false
link_ready (some l) = l.ready

unfoldable pub on_error : Text → RelayClient → RelayClient
on_error s c = if link_ready (lookup s c.links) then c else fail s c

abbrev pub mark_closed : Option Link → Text → RelayClient → RelayClient
mark_closed none s c = c
mark_closed (some l) s c = record c { links = insert s (record l { state = closed }) c.links }

unfoldable pub on_close : Text → RelayClient → RelayClient
on_close s c =
    let c1 = record (mark_closed (lookup s c.links) s c) { authenticated = false } in
    let c2 = if c1.stopped then c1 else schedule_reconnect c1 in
    if link_ready (lookup s c.links) then c2 else fail s c2

-- The timer fires; the new socket is named.
unfoldable pub on_timer : Text → RelayClient → RelayClient
on_timer s c = connect_once s (record c { reconnect_timer = none })

-- `invalid_frame` is JSON that is not of the schema.
pub data Message : Type 0 where
  binary invalid_json invalid_frame : Message
  frame : RelayToAgent → Message

module _ (date_parse : Text → Option ℕ) where
  abbrev pub command_result : RelayClient → CommandEnvelope → Option Text → CommandResult
  command_result c k error = record {
    command_id = k.command_id;
    host_id = c.host_id;
    ok = not (is_some error);
    error = error;
  }

  -- `handleCommand`; `outcome` is what `onCommand` throws, `none` where it does not.
  unfoldable pub handle_command :
      (now : ℕ) → (outcome : Option Text) → CommandEnvelope → RelayClient → RelayClient
  handle_command now outcome k c =
      if at_most (date_parse k.expires_at) now
      then publish (result (command_result c k (some (text "Command has expired")))) c
      else if same k.host_id c.host_id
      then publish (result (command_result c k outcome)) (does (on_command k) c)
      else publish (result (command_result c k (some (text "Host identity mismatch")))) c

  unfoldable pub on_message :
      (now : ℕ) → (outcome : Option Text) → Text → Message → RelayClient → RelayClient
  on_message now outcome s binary c = c
  on_message now outcome s invalid_json c = close_socket s 1007 c
  on_message now outcome s invalid_frame c = close_socket s 1008 c
  on_message now outcome s (frame (RelayToAgent.auth_result a)) c = on_auth_result s a.ok c
  on_message now outcome s (frame (RelayToAgent.command k)) c = handle_command now outcome k c

-- `EventFactory`: the host and the number of its last event.
pub record EventFactory : Type 0 where
  pub host_id : Text
  pub sequence : ℕ

-- `create`, with the random id and the time as arguments, and the schema as the test `valid`; the
-- event is `none` where the schema throws, after the number is used.
unfoldable pub create :
    (valid : EventEnvelope → Bool)
    → (id now : Text) → Option Text
    → NormalizedEvent
    → EventFactory
    → EventFactory × Option EventEnvelope
create valid id now session e f =
    let envelope : EventEnvelope = record {
      event_id = id;
      sequence = f.sequence + 1;
      host_id = f.host_id;
      session_id = session;
      emitted_at = now;
      event = e;
    } in
    (record f { sequence = f.sequence + 1 }, if valid envelope then some envelope else none)

-- ===== src/Relay/Sockets.antt =====
-- apps/relay/src/server.ts: the state of the relay and what it does to sockets. A socket is named by
-- a text. What is sent and closed is recorded in `sent`, the latest first.
use steerloop.Common.{
  ℕ, Text, same, List, [], ◌∷◌, Option, none, some, Bool, false, ◌||◌, if◌then◌else◌, at_most,
  Assoc, lookup, insert,
}
use steerloop.Protocol.Schema.{
  EventEnvelope, CommandEnvelope, CommandResult, PairingOffer, AuthFrame, ClientToRelay,
  AgentToRelay,
}
use steerloop.Relay.Journal.{Store}
use steerloop.Relay.Devices.{DeviceRegistry, PublicKey}

-- What the relay relies on and does not define: the bytes and the hash of a text, Unicode's
-- normal form and upper case, the dates, the check of a signature and the writing of an event.
pub record Runtime : Type 0 where
  pub utf8 : Text → Text
  pub hash : Text → Text
  pub nfc : Text → Text
  pub to_upper : Text → Text
  pub date_parse : Text → Option ℕ
  pub iso : ℕ → Text
  pub check : PublicKey → Text → Text → Bool
  pub encode : EventEnvelope → Text

pub data Peer : Type 0 where
  unauthenticated : Peer
  agent : (host_id : Text) → Peer
  client : (device_id : Option Text) → Peer

pub record Connection : Type 0 where
  pub peer : Peer
  pub is_open : Bool

pub data Frame : Type 0 where
  auth_result : Option Text → Frame
  snapshot : List EventEnvelope → Frame
  event : EventEnvelope → Frame
  result : CommandResult → Frame
  command : CommandEnvelope → Frame

pub data Action : Type 0 where
  sends : (socket : Text) → Frame → Action
  closes : (socket : Text) → (code : ℕ) → Action

-- A JSON value, as the union of frames of each side reads it: `none` where it is not of the schema.
pub record Value : Type 0 where
  pub as_auth : Option AuthFrame
  pub as_agent : Option AgentToRelay
  pub as_client : Option ClientToRelay

pub data Message : Type 0 where
  binary invalid_json : Message
  json : Value → Message

pub data Task : Type 0 where
  agent_frame : (socket host_id : Text) → Value → Task
  client_frame : (socket : Text) → (device_id : Option Text) → Value → Task

pub record RelayServer : Type 0 where
  pub token : Text
  pub max_history : ℕ
  pub sockets : Assoc Connection
  pub agents : Assoc Text
  pub clients : Assoc {0} Unit
  pub pairing_offers : Assoc PairingOffer
  pub history : List EventEnvelope
  pub journal : Option Store
  pub registry : Option DeviceRegistry
  pub queue : List Task
  pub sent : List Action

abbrev pub ready : Option Connection → Bool
ready none = false
ready (some c) = c.is_open

abbrev pub peer_of : Option Connection → Peer
peer_of none = unauthenticated
peer_of (some c) = c.peer

abbrev pub record_action : Action → RelayServer → RelayServer
record_action a r = record r { sent = a ∷ r.sent }

unfoldable pub send : Text → Frame → RelayServer → RelayServer
send s f r = if ready (lookup s r.sockets) then record_action (sends s f) r else r

-- `socket.close`: the socket is no longer open for sending.
abbrev pub shut : Option Connection → Text → Assoc Connection → Assoc Connection
shut none s m = m
shut (some c) s m = insert s (record c { is_open = false }) m

unfoldable pub close : Text → ℕ → RelayServer → RelayServer
close s code r =
    record_action (closes s code) (record r { sockets = shut (lookup s r.sockets) s r.sockets })

unfoldable pub broadcast : Frame → Assoc {0} Unit → RelayServer → RelayServer
broadcast f [] r = r
broadcast f ((c, _) ∷ cs) r = broadcast f cs (send c f r)

unfoldable pub reject : Text → Text → RelayServer → RelayServer
reject s error r = close s 1008 (send s (auth_result (some error)) r)

unfoldable pub command_error : Text → Text → Text → CommandResult
command_error command_id host_id error = record {
  command_id = command_id;
  host_id = host_id;
  ok = false;
  error = some error;
}

-- The existing offers of the host, and those that are over, are deleted first.
unfoldable pub live_offers :
    (Text → Option ℕ) → Text → (now : ℕ) → Assoc PairingOffer → Assoc PairingOffer
live_offers date_parse host now [] = []
live_offers date_parse host now ((code, o) ∷ os) =
    let rest = live_offers date_parse host now os in
    if same o.host_id host || at_most (date_parse o.expires_at) now then rest else (code, o) ∷ rest

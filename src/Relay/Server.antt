-- ===== src/Relay/Server.antt =====
-- apps/relay/src/server.ts: the relay between agents and clients, on the state of Relay/Sockets. A
-- frame of an authenticated socket waits in `queue` until the frames before it are done with.
pub mod Http
pub mod Lifetime
pub mod Invariant
pub mod Login
pub mod Tasks
pub mod Requests
pub mod Steps
pub mod Credentials
pub mod Routing
pub mod Pairing
mod Tests
use steerloop.Common.{
  ℕ, Text, text, same, List, [], ◌∷◌, ◌++◌, Option, none, some, Bool, true, false, ◌&&◌, ◌||◌, not,
  if◌then◌else◌, at_most, slice_last, Assoc, lookup, insert, remove,
}
use steerloop.Protocol.Schema.{
  EventEnvelope, CommandEnvelope, CommandResult, PairingOffer, AuthFrame, ApprovalResolve,
  Authorization, NormalizedCommand, ClientToRelay, AgentToRelay,
}
use steerloop.Protocol.Approval.{canonicalize_approval_decision}
use steerloop.Relay.Journal.{Store, WriteOutcome, CompactOutcome, Result, ok, err, append}
use steerloop.Relay.Devices.{DeviceRegistry, DeviceView, PublicKey, verify, verify_signature}
use steerloop.Relay.Sockets.{
  Runtime, Peer, Connection, Frame, Action, Value, Message, Task, RelayServer, unauthenticated,
  agent, client, auth_result, snapshot, event, result, command, sends, closes, binary, invalid_json,
  json, agent_frame, client_frame, ready, peer_of, shut, send, close, broadcast, reject,
  command_error, live_offers,
}

module _ (rt : Runtime) where
  unfoldable pub token_matches : (expected received : Text) → Bool
  token_matches expected received = same (rt.utf8 expected) (rt.utf8 received)

  unfoldable pub register_pairing_offer : (now : ℕ) → PairingOffer → RelayServer → RelayServer
  register_pairing_offer now o r = record r {
    pairing_offers = insert o.code o (live_offers rt.date_parse o.host_id now r.pairing_offers);
  }

  abbrev pub verify_with :
      (now : ℕ) → Text → RelayServer → Option DeviceRegistry → RelayServer × Option DeviceView
  verify_with now token r none = (r, none)
  verify_with now token r (some devices) =
      let t = verify rt.hash devices token (rt.iso now) in (record r { registry = some t.0 }, t.1)

  -- `deviceRegistry?.verify(token)`
  unfoldable pub verify_token : (now : ℕ) → Text → RelayServer → RelayServer × Option DeviceView
  verify_token now token r = verify_with now token r r.registry

  abbrev pub device_of : RelayServer × Option DeviceView → RelayServer × Option (Option Text)
  device_of (r, none) = (r, none)
  device_of (r, some v) = (r, some (some v.id))

  -- `none` where the token is refused.
  unfoldable pub client_device : (now : ℕ) → Text → RelayServer → RelayServer × Option (Option Text)
  client_device now received r =
      if token_matches r.token received
      then (r, some none)
      else device_of (verify_token now received r)

  abbrev pub set_peer : Text → Peer → RelayServer → RelayServer
  set_peer s p r = record r {
    sockets = insert s (record { peer = p; is_open = ready (lookup s r.sockets) }) r.sockets;
  }

  abbrev pub invalid_credentials : Text
  invalid_credentials = text "Invalid credentials"

  -- An older connection of the host is closed.
  unfoldable pub replace_agent : Option Text → Text → RelayServer → RelayServer
  replace_agent none s r = r
  replace_agent (some old) s r = if same old s then r else close old 1012 r

  abbrev pub admit_agent : (host_id socket : Text) → RelayServer → RelayServer
  admit_agent host s r =
      send s (auth_result none)
        (set_peer s (agent host) (record r { agents = insert host s r.agents }))

  abbrev pub admit_client : Text → RelayServer × Option (Option Text) → RelayServer
  admit_client s (r, none) = reject s invalid_credentials r
  admit_client s (r, some device) = send s (snapshot r.history) (
      send s (auth_result none)
        (set_peer s (client device) (record r { clients = insert s tt r.clients })))

  unfoldable pub authenticate : (now : ℕ) → Text → AuthFrame → RelayServer → RelayServer
  authenticate now s (AuthFrame.agent token host) r =
      if token_matches r.token token
      then admit_agent host s (replace_agent (lookup host r.agents) s r)
      else reject s invalid_credentials r
  authenticate now s (AuthFrame.client token) r = admit_client s (client_device now token r)

  abbrev pub journaled :
      Text → EventEnvelope → RelayServer × Result (List EventEnvelope) → RelayServer
  journaled s e (r, err x) = close s 1011 r
  journaled s e (r, ok events) = broadcast (event e) r.clients (record r { history = events })

  abbrev pub take_event_in :
      WriteOutcome
      → CompactOutcome
      → Text
      → EventEnvelope
      → RelayServer
      → Option Store
      → RelayServer
  take_event_in write outcome s e r none =
      journaled s e (r, ok (slice_last r.max_history (r.history ++ e ∷ [])))
  take_event_in write outcome s e r (some st) =
      let t = append rt.encode write outcome st e in
      journaled s e (record r { journal = some t.0 }, t.1)

  -- An event goes to the journal, where there is one, and then to every client.
  unfoldable pub take_event :
      WriteOutcome → CompactOutcome → Text → EventEnvelope → RelayServer → RelayServer
  take_event write outcome s e r = take_event_in write outcome s e r r.journal

  abbrev pub mismatch : (host_id own : Text) → Text → RelayServer → RelayServer → RelayServer
  mismatch host own s r r' = if same host own then r' else close s 1008 r

  unfoldable pub handle_agent_frame :
      (now : ℕ)
      → WriteOutcome
      → CompactOutcome
      → (socket host_id : Text) → Option AgentToRelay
      → RelayServer
      → RelayServer
  handle_agent_frame now write outcome s own none r = close s 1008 r
  handle_agent_frame now write outcome s own (some (AgentToRelay.auth a)) r = close s 1008 r
  handle_agent_frame now write outcome s own (some (AgentToRelay.offer o)) r =
      mismatch o.host_id own s r (register_pairing_offer now o r)
  handle_agent_frame now write outcome s own (some (AgentToRelay.event e)) r =
      mismatch e.host_id own s r (take_event write outcome s e r)
  handle_agent_frame now write outcome s own (some (AgentToRelay.result c)) r =
      mismatch c.host_id own s r (broadcast (result c) r.clients r)

  abbrev pub signed_by_registry : Option DeviceRegistry → Text → Text → Text → Bool
  signed_by_registry none device material signature = false
  signed_by_registry (some devices) device material signature =
      verify_signature rt.check devices device material signature

  -- What a device signs: the whole decision and the command that carries it.
  abbrev pub signed_material :
      CommandEnvelope → ApprovalResolve → (device_id : Text) → Authorization → Text
  signed_material c p device a = canonicalize_approval_decision rt.nfc (record {
    command_id = c.command_id;
    host_id = c.host_id;
    session_id = c.session_id;
    approval_id = p.approval_id;
    request_digest = p.request_digest;
    decision = p.decision;
    device_id = device;
    issued_at = c.issued_at;
    expires_at = c.expires_at;
    signed_at = a.signed_at;
  })

  unfoldable pub signature_error :
      CommandEnvelope
      → ApprovalResolve
      → Option DeviceRegistry
      → Text
      → Option Authorization
      → Option Text
  signature_error c p devices own none = some (text "Missing device approval signature")
  signature_error c p devices own (some a) =
      if same a.device_id own
      then if signed_by_registry devices own (signed_material c p a.device_id a) a.signature
        then none
        else some (text "Invalid approval signature")
      else some (text "Approval signature device mismatch")

  -- `verifyApprovalAuthorization`; the algorithm is always the one the schema admits.
  unfoldable pub verify_approval_authorization :
      Option DeviceRegistry → Option Text → CommandEnvelope → NormalizedCommand → Option Text
  verify_approval_authorization devices none c _ = none
  verify_approval_authorization devices (some own) c (NormalizedCommand.approval_resolve p) =
      signature_error c p devices own p.authorization
  verify_approval_authorization devices (some own) c _ = none

  abbrev pub answer_error : Text → CommandEnvelope → Text → RelayServer → RelayServer
  answer_error s c error r = send s (result (command_error c.command_id c.host_id error)) r

  -- The command goes to the open connection of its host.
  abbrev pub forward : Text → CommandEnvelope → Option Text → RelayServer → RelayServer
  forward s c none r = answer_error s c (text "Host is offline") r
  forward s c (some a) r =
      if ready (lookup a r.sockets)
      then send a (command c) r
      else answer_error s c (text "Host is offline") r

  abbrev pub unless_refused :
      Text → (now : ℕ) → CommandEnvelope → Option Text → RelayServer → RelayServer
  unless_refused s now c (some error) r = answer_error s c error r
  unless_refused s now c none r =
      if at_most (rt.date_parse c.expires_at) now
      then answer_error s c (text "Command has expired") r
      else forward s c (lookup c.host_id r.agents) r

  unfoldable pub handle_client_frame :
      (now : ℕ) → Text → Option Text → Option ClientToRelay → RelayServer → RelayServer
  handle_client_frame now s device none r = close s 1008 r
  handle_client_frame now s device (some (ClientToRelay.auth a)) r = close s 1008 r
  handle_client_frame now s device (some (ClientToRelay.command c)) r =
      unless_refused s now c (verify_approval_authorization r.registry device c c.command) r

  -- A new connection.
  unfoldable pub on_connection : Text → RelayServer → RelayServer
  on_connection s r = record r {
    sockets = insert s (record { peer = unauthenticated; is_open = true }) r.sockets;
  }

  abbrev pub enqueue : Task → RelayServer → RelayServer
  enqueue t r = record r { queue = r.queue ++ t ∷ [] }

  abbrev pub first_frame : (now : ℕ) → Text → Option AuthFrame → RelayServer → RelayServer
  first_frame now s none r = reject s (text "Authentication must be the first frame") r
  first_frame now s (some a) r = authenticate now s a r

  abbrev pub receive : (now : ℕ) → Text → Value → Peer → RelayServer → RelayServer
  receive now s v unauthenticated r = first_frame now s v.as_auth r
  receive now s v (agent host) r = enqueue (agent_frame s host v) r
  receive now s v (client device) r = enqueue (client_frame s device v) r

  unfoldable pub on_message : (now : ℕ) → Text → Message → RelayServer → RelayServer
  on_message now s binary r = close s 1003 r
  on_message now s invalid_json r = close s 1007 r
  on_message now s (json v) r = receive now s v (peer_of (lookup s r.sockets)) r

  -- The timer of a socket that is not authenticated yet.
  abbrev pub time_out : Text → Peer → RelayServer → RelayServer
  time_out s unauthenticated r = close s 1008 r
  time_out s _ r = r

  unfoldable pub on_auth_timeout : Text → RelayServer → RelayServer
  on_auth_timeout s r = time_out s (peer_of (lookup s r.sockets)) r

  abbrev pub forget_agent : Option Text → Text → Text → RelayServer → RelayServer
  forget_agent none host s r = r
  forget_agent (some a) host s r =
      if same a s then record r { agents = remove host r.agents } else r

  abbrev pub forget : Text → Peer → RelayServer → RelayServer
  forget s unauthenticated r = r
  forget s (agent host) r = forget_agent (lookup host r.agents) host s r
  forget s (client device) r = record r { clients = remove s r.clients }

  -- The socket is closed: it is open no more and no longer registered.
  unfoldable pub on_close : Text → RelayServer → RelayServer
  on_close s r =
      forget s (peer_of (lookup s r.sockets))
        (record r { sockets = shut (lookup s r.sockets) s r.sockets })

  abbrev pub run_task : (now : ℕ) → WriteOutcome → CompactOutcome → Task → RelayServer → RelayServer
  run_task now write outcome (agent_frame s host v) r =
      handle_agent_frame now write outcome s host v.as_agent r
  run_task now write outcome (client_frame s device v) r =
      handle_client_frame now s device v.as_client r

  -- The first task of the queue.
  abbrev pub run_queue :
      (now : ℕ) → WriteOutcome → CompactOutcome → List Task → RelayServer → RelayServer
  run_queue now write outcome [] r = r
  run_queue now write outcome (t ∷ ts) r = run_task now write outcome t (record r { queue = ts })

  unfoldable pub next_task : (now : ℕ) → WriteOutcome → CompactOutcome → RelayServer → RelayServer
  next_task now write outcome r = run_queue now write outcome r.queue r

-- ===== src/Relay/Server/Tasks.antt =====
-- The handling of a frame, and the agreement of the registers of the relay with its sockets.
use steerloop.Common.{
  ℕ, Text, same, List, [], ◌∷◌, ◌++◌, Option, none, some, if_either, ◌≡◌, refl, lookup, All,
  All-append, at_most, subst, slice_last,
}
use steerloop.Protocol.Schema.{
  EventEnvelope, AuthFrame, ClientToRelay, AgentToRelay, CommandEnvelope,
}
use steerloop.Relay.Journal.{Store, WriteOutcome, CompactOutcome, Result, ok, err, append}
use steerloop.Relay.Sockets.{
  Runtime, Peer, Value, Task, RelayServer, unauthenticated, agent, client, event, result,
  agent_frame, client_frame, ready,
}
use steerloop.Relay.Server.{
  register_pairing_offer, first_frame, handle_agent_frame, handle_client_frame, take_event,
  take_event_in, journaled, unless_refused, forward, receive, run_task, run_queue,
}
use steerloop.Relay.Server.Invariant.{
  peer, TaskAgreed, Agreed, Quiet, send-Quiet, close-Quiet, Quiet-refl, Quiet-trans, Quiet-Agreed,
  broadcast-Quiet, reject-Quiet,
}
use steerloop.Relay.Server.Login.{authenticate-Agreed}

module _ (rt : Runtime) where
  journaled-Quiet :
      (s : Text) (e : EventEnvelope) (r : RelayServer)
      (t : RelayServer × Result (List EventEnvelope))
      → Quiet r t.0
      → Quiet r (journaled rt s e t)
  journaled-Quiet s e r (r', err x) q = Quiet-trans r r' _ q (close-Quiet s 1011 r')
  journaled-Quiet s e r (r', ok es) q =
      let r2 = record r' { history = es } in
      let b = broadcast-Quiet (event e) r'.clients r2 in
      Quiet-trans r r' _ q
        (record { agents = b.agents; clients = b.clients; queue = b.queue; peers = b.peers })

  take_event_in-Quiet :
      (write : WriteOutcome) (outcome : CompactOutcome) (s : Text) (e : EventEnvelope)
      (r : RelayServer) (o : Option Store)
      → Quiet r (take_event_in rt write outcome s e r o)
  take_event_in-Quiet write outcome s e r none =
      journaled-Quiet s e r (r, ok (slice_last r.max_history (r.history ++ e ∷ []))) (Quiet-refl r)
  take_event_in-Quiet write outcome s e r (some st) =
      let t = append rt.encode write outcome st e in
      journaled-Quiet s e r (record r { journal = some t.0 }, t.1)
        (record { agents = refl; clients = refl; queue = refl; peers = λ k. refl })

  handle_agent_frame-Quiet :
      (now : ℕ) (write : WriteOutcome) (outcome : CompactOutcome) (s host : Text)
      (f : Option AgentToRelay) (r : RelayServer)
      → Quiet r (handle_agent_frame rt now write outcome s host f r)
  unfolding handle_agent_frame take_event register_pairing_offer
  handle_agent_frame-Quiet now write outcome s host none r = close-Quiet s 1008 r
  handle_agent_frame-Quiet now write outcome s host (some (AgentToRelay.auth a)) r =
      close-Quiet s 1008 r
  handle_agent_frame-Quiet now write outcome s host (some (AgentToRelay.offer o)) r =
      if_either (Quiet r) (same o.host_id host)
        (record { agents = refl; clients = refl; queue = refl; peers = λ k. refl })
        (close-Quiet s 1008 r)
  handle_agent_frame-Quiet now write outcome s host (some (AgentToRelay.event e)) r =
      if_either (Quiet r) (same e.host_id host) (take_event_in-Quiet write outcome s e r r.journal)
        (close-Quiet s 1008 r)
  handle_agent_frame-Quiet now write outcome s host (some (AgentToRelay.result c)) r =
      if_either (Quiet r) (same c.host_id host) (broadcast-Quiet (result c) r.clients r)
        (close-Quiet s 1008 r)

  forward-Quiet :
      (s : Text) (c : CommandEnvelope) (a : Option Text) (r : RelayServer)
      → Quiet r (forward rt s c a r)
  forward-Quiet s c none r = send-Quiet s _ r
  forward-Quiet s c (some a) r =
      if_either (Quiet r) (ready (lookup a r.sockets)) (send-Quiet a _ r) (send-Quiet s _ r)

  unless_refused-Quiet :
      (s : Text) (now : ℕ) (c : CommandEnvelope) (o : Option Text) (r : RelayServer)
      → Quiet r (unless_refused rt s now c o r)
  unless_refused-Quiet s now c (some x) r = send-Quiet s _ r
  unless_refused-Quiet s now c none r =
      if_either (Quiet r) (at_most (rt.date_parse c.expires_at) now) (send-Quiet s _ r)
        (forward-Quiet s c (lookup c.host_id r.agents) r)

  handle_client_frame-Quiet :
      (now : ℕ) (s : Text) (d : Option Text) (f : Option ClientToRelay) (r : RelayServer)
      → Quiet r (handle_client_frame rt now s d f r)
  unfolding handle_client_frame
  handle_client_frame-Quiet now s d none r = close-Quiet s 1008 r
  handle_client_frame-Quiet now s d (some (ClientToRelay.auth a)) r = close-Quiet s 1008 r
  handle_client_frame-Quiet now s d (some (ClientToRelay.command c)) r =
      unless_refused-Quiet s now c _ r

  run_task-Quiet :
      (now : ℕ) (write : WriteOutcome) (outcome : CompactOutcome) (t : Task) (r : RelayServer)
      → Quiet r (run_task rt now write outcome t r)
  run_task-Quiet now write outcome (agent_frame s h v) r =
      handle_agent_frame-Quiet now write outcome s h v.as_agent r
  run_task-Quiet now write outcome (client_frame s d v) r =
      handle_client_frame-Quiet now s d v.as_client r

  pub run_queue-Agreed :
      (now : ℕ) (write : WriteOutcome) (outcome : CompactOutcome) (ts : List Task) (r : RelayServer)
      → r.queue ≡ ts
      → Agreed r
      → Agreed (run_queue rt now write outcome ts r)
  run_queue-Agreed now write outcome [] r e a = a
  run_queue-Agreed now write outcome (t ∷ ts) r e a =
      let r1 = record r { queue = ts } in
      let waiting : All (TaskAgreed r) (t ∷ ts) = subst (All (TaskAgreed r)) e a.queue in
      Quiet-Agreed r1 _ (run_task-Quiet now write outcome t r1)
        (record { agents = a.agents; clients = a.clients; queue = waiting.1 })

  enqueue-Agreed :
      (t : Task) (r : RelayServer)
      → TaskAgreed r t
      → Agreed r
      → Agreed (record r { queue = r.queue ++ t ∷ [] })
  enqueue-Agreed t r h a = record {
    agents = a.agents;
    clients = a.clients;
    queue = All-append (TaskAgreed r) r.queue (t ∷ []) a.queue (h, tt);
  }

  pub receive-Agreed :
      (now : ℕ) (s : Text) (v : Value) (p : Peer) (r : RelayServer)
      → peer r s ≡ p
      → Agreed r
      → Agreed (receive rt now s v p r)
  receive-Agreed now s v unauthenticated r e a = first v.as_auth
    where
      first : (o : Option AuthFrame) → Agreed (first_frame rt now s o r)
      first none = Quiet-Agreed r _ (reject-Quiet s _ r) a
      first (some f) = authenticate-Agreed rt now s f r e a
  receive-Agreed now s v (agent h) r e a = enqueue-Agreed (agent_frame s h v) r e a
  receive-Agreed now s v (client d) r e a = enqueue-Agreed (client_frame s d v) r e a

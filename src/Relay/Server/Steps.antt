-- ===== src/Relay/Server/Steps.antt =====
-- Everything that can happen to the relay, and the agreement of its registers with its sockets.
use steerloop.Common.{
  ℕ, Text, same, same→eq, [], Option, none, some, true, if_either, Bool-cases, inl, inr, arith, ◌≡◌,
  refl, lookup, lookup-insert, lookup-remove,
}
use steerloop.Relay.Journal.{WriteOutcome, CompactOutcome}
use steerloop.Relay.Sockets.{
  Runtime, Peer, Message, RelayServer, unauthenticated, agent, client, binary, invalid_json, json,
  shut,
}
use steerloop.Relay.Server.{
  on_connection, on_message, on_auth_timeout, on_close, next_task, forget, forget_agent, time_out,
}
use steerloop.Relay.Server.Http.{Fresh, Request, on_request}
use steerloop.Relay.Server.Invariant.{peer, Agreed, close-Quiet, Quiet-Agreed, shut_peer}
use steerloop.Relay.Server.Requests.{on_request-Quiet}
use steerloop.Relay.Server.Tasks.{run_queue-Agreed, receive-Agreed}

-- What can happen: a socket connects, sends, is too late, or is closed; the first waiting frame is
-- handled; a request arrives.
pub data Step : Type 0 where
  connects : (socket : Text) → Step
  receives : (socket : Text) → Message → Step
  times_out : (socket : Text) → Step
  ends : (socket : Text) → Step
  handles : WriteOutcome → CompactOutcome → Step
  requests : Fresh → Request → Step

-- A socket that connects is a new one.
abbrev pub Possible : RelayServer → Step → Type 0
Possible r (connects s) = lookup s r.sockets ≡ none
Possible r _ = Unit

module _ (rt : Runtime) (trim : Text → Text) where
  unfoldable pub step : (now : ℕ) → Step → RelayServer → RelayServer
  step now (connects s) r = on_connection rt s r
  step now (receives s m) r = on_message rt now s m r
  step now (times_out s) r = on_auth_timeout rt s r
  step now (ends s) r = on_close rt s r
  step now (handles write outcome) r = next_task rt now write outcome r
  step now (requests f q) r = (on_request rt trim f q r).0

  on_connection-Agreed :
      (s : Text) (r : RelayServer)
      → lookup s r.sockets ≡ none
      → Agreed r
      → Agreed (on_connection rt s r)
  unfolding on_connection
  on_connection-Agreed s r new a =
      Quiet-Agreed r _
        (record {
          agents = refl;
          clients = refl;
          queue = refl;
          peers = λ k. elim (Bool-cases (same s k)) [
            | inl hit ↦ ground (
              arith,
              hit,
              new,
              same→eq s k hit,
              lookup-insert s k (record { peer = unauthenticated; is_open = true }) r.sockets,
            )
            | inr miss ↦ ground (
              arith,
              miss,
              lookup-insert s k (record { peer = unauthenticated; is_open = true }) r.sockets,
            )
          ];
        })
        a

  on_message-Agreed :
      (now : ℕ) (s : Text) (m : Message) (r : RelayServer)
      → Agreed r
      → Agreed (on_message rt now s m r)
  unfolding on_message
  on_message-Agreed now s binary r a = Quiet-Agreed r _ (close-Quiet s 1003 r) a
  on_message-Agreed now s invalid_json r a = Quiet-Agreed r _ (close-Quiet s 1007 r) a
  on_message-Agreed now s (json v) r a = receive-Agreed rt now s v (peer r s) r refl a

  on_auth_timeout-Agreed : (s : Text) (r : RelayServer) → Agreed r → Agreed (on_auth_timeout rt s r)
  unfolding on_auth_timeout
  on_auth_timeout-Agreed s r a = go (peer r s)
    where
      go : (p : Peer) → Agreed (time_out rt s p r)
      go unauthenticated = Quiet-Agreed r _ (close-Quiet s 1008 r) a
      go (agent h) = a
      go (client d) = a

  forget_agent-Agreed :
      (o : Option Text) (h s : Text) (r : RelayServer) → Agreed r → Agreed (forget_agent rt o h s r)
  forget_agent-Agreed none h s r a = a
  forget_agent-Agreed (some k) h s r a =
      if_either {A = RelayServer} Agreed (same k s)
        (record {
          agents = λ j i found. a.agents j i (ground (arith, lookup-remove h j r.agents, found));
          clients = a.clients;
          queue = a.queue;
        })
        a

  forget-Agreed : (s : Text) (p : Peer) (r : RelayServer) → Agreed r → Agreed (forget rt s p r)
  forget-Agreed s unauthenticated r a = a
  forget-Agreed s (agent h) r a = forget_agent-Agreed (lookup h r.agents) h s r a
  forget-Agreed s (client d) r a = record {
    agents = a.agents;
    clients =
        λ k found. a.clients k (ground (arith, lookup-remove {V = Unit {0}} s k r.clients, found));
    queue = a.queue;
  }

  on_close-Agreed : (s : Text) (r : RelayServer) → Agreed r → Agreed (on_close rt s r)
  unfolding on_close
  on_close-Agreed s r a =
      forget-Agreed s (peer r s) (record r { sockets = shut (lookup s r.sockets) s r.sockets })
        (Quiet-Agreed r _
          (record {
            agents = refl;
            clients = refl;
            queue = refl;
            peers = λ k. shut_peer (lookup s r.sockets) s k r.sockets refl;
          })
          a)

  -- The registers agree with the sockets after everything that can happen.
  pub step-Agreed :
      (now : ℕ) (st : Step) (r : RelayServer) → Possible r st → Agreed r → Agreed (step now st r)
  unfolding step next_task
  step-Agreed now (connects s) r new a = on_connection-Agreed s r new a
  step-Agreed now (receives s m) r _ a = on_message-Agreed now s m r a
  step-Agreed now (times_out s) r _ a = on_auth_timeout-Agreed s r a
  step-Agreed now (ends s) r _ a = on_close-Agreed s r a
  step-Agreed now (handles write outcome) r _ a =
      run_queue-Agreed rt now write outcome r.queue r refl a
  step-Agreed now (requests f q) r _ a = Quiet-Agreed r _ (on_request-Quiet rt trim f q r) a

  -- What the relay can come to from `r`.
  pub data Reaches (r : RelayServer) : RelayServer → Type 0 where
    here : Reaches r r
    there :
        (q : RelayServer) (now : ℕ) (st : Step)
        → Reaches r q
        → Possible q st
        → Reaches r (step now st q)

  -- Whatever the relay comes to from a state without sockets, registers and waiting frames: the
  -- register of agents leads to sockets that were authenticated for their hosts, the set of clients
  -- holds sockets that were authenticated as clients, and every waiting frame is handled as what its
  -- socket was authenticated for.
  pub Reaches-Agreed :
      (r q : RelayServer) → r.agents ≡ [] → r.clients ≡ [] → r.queue ≡ [] → Reaches r q → Agreed q
  unfolding lookup
  Reaches-Agreed r q ea ec eq here = record {
    agents = λ h s found. cc (rw ea at found);
    clients = λ s found. cc (rw ec at found);
    queue = rw eq tt;
  }
  Reaches-Agreed r _ ea ec eq (there p now st steps can) =
      step-Agreed now st p can (Reaches-Agreed r p ea ec eq steps)

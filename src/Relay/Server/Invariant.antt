-- ===== src/Relay/Server/Invariant.antt =====
-- The agreement of the registers of the relay with the sockets.
use steerloop.Common.{
  ℕ, Text, same, same→eq, List, [], ◌∷◌, Option, none, some, false, if_cases, Bool-cases, inl, inr,
  arith, ◌≡◌, ◌≢◌, refl, sym, ap, ◌∙◌, Assoc, lookup, lookup-insert, All,
}
use steerloop.Relay.Sockets.{
  Peer, Connection, Frame, Task, RelayServer, unauthenticated, agent, client, agent_frame,
  client_frame, ready, peer_of, shut, send, close, broadcast, reject,
}

abbrev pub peer : RelayServer → Text → Peer
peer r s = peer_of (lookup s r.sockets)

abbrev pub IsClient : Peer → Type 0
IsClient p = (d : Option Text) × (p ≡ client d)

abbrev pub TaskAgreed : RelayServer → Task → Type 0
TaskAgreed r (agent_frame s host v) = peer r s ≡ agent host
TaskAgreed r (client_frame s d v) = peer r s ≡ client d

-- The register of agents holds sockets that were authenticated for their hosts, the set of clients
-- holds clients, and a waiting frame is handled as what its socket was authenticated for.
pub record Agreed (r : RelayServer) : Type 0 where
  pub agents : (h s : Text) → lookup h r.agents ≡ some s → peer r s ≡ agent h
  pub clients : (s : Text) → lookup s r.clients ≡ some tt → IsClient (peer r s)
  pub queue : All (TaskAgreed r) r.queue

-- The registers, the queue and the peer of every socket are as they were.
pub record Quiet (r r' : RelayServer) : Type 0 where
  pub agents : r'.agents ≡ r.agents
  pub clients : r'.clients ≡ r.clients
  pub queue : r'.queue ≡ r.queue
  pub peers : (s : Text) → peer r' s ≡ peer r s

pub Quiet-refl : (r : RelayServer) → Quiet r r
Quiet-refl r = record { agents = refl; clients = refl; queue = refl; peers = λ s. refl }

pub Quiet-trans : (a b c : RelayServer) → Quiet a b → Quiet b c → Quiet a c
Quiet-trans a b c p q = record {
  agents = q.agents ∙ p.agents;
  clients = q.clients ∙ p.clients;
  queue = q.queue ∙ p.queue;
  peers = λ s. q.peers s ∙ p.peers s;
}

pub send-Quiet : (s : Text) (f : Frame) (r : RelayServer) → Quiet r (send s f r)
unfolding send
send-Quiet s f r =
    if_cases (Quiet r) (ready (lookup s r.sockets))
      (λ h. record { agents = refl; clients = refl; queue = refl; peers = λ k. refl })
      (λ h. Quiet-refl r)

pub shut_peer :
    (c : Option Connection) (s k : Text) (m : Assoc Connection)
    → lookup s m ≡ c
    → peer_of (lookup k (shut c s m)) ≡ peer_of (lookup k m)
shut_peer none s k m h = refl
shut_peer (some c) s k m h = elim (Bool-cases (same s k)) [
  | inl hit ↦
      ground (arith, lookup-insert s k (record c { is_open = false }) m, hit, same→eq s k, h)
  | inr miss ↦ ground (arith, lookup-insert s k (record c { is_open = false }) m, miss)
]

pub close-Quiet : (s : Text) (code : ℕ) (r : RelayServer) → Quiet r (close s code r)
unfolding close
close-Quiet s code r = record {
  agents = refl;
  clients = refl;
  queue = refl;
  peers = λ k. shut_peer (lookup s r.sockets) s k r.sockets refl;
}

pub broadcast-Quiet :
    (f : Frame) (cs : Assoc {0} Unit) (r : RelayServer) → Quiet r (broadcast f cs r)
unfolding broadcast
broadcast-Quiet f [] r = Quiet-refl r
broadcast-Quiet f ((c, _) ∷ cs) r =
    Quiet-trans r (send c f r) _ (send-Quiet c f r) (broadcast-Quiet f cs (send c f r))

pub reject-Quiet : (s error : Text) (r : RelayServer) → Quiet r (reject s error r)
unfolding reject
reject-Quiet s error r = Quiet-trans r (send s _ r) _ (send-Quiet s _ r) (close-Quiet s 1008 _)

pub All-map :
    (P Q : Task → Type 0) (ts : List Task) → ((t : Task) → P t → Q t) → All P ts → All Q ts
All-map P Q [] f a = tt
All-map P Q (t ∷ ts) f a = (f t a.0, All-map P Q ts f a.1)

-- A task stays agreed where no authenticated socket changes its peer.
pub TaskAgreed-kept :
    (r r' : RelayServer)
    → ((s : Text) → peer r s ≢ unauthenticated → peer r' s ≡ peer r s)
    → (t : Task) → TaskAgreed r t
    → TaskAgreed r' t
TaskAgreed-kept r r' keeps (agent_frame s host v) h = keeps s (λ e. cc) ∙ h
TaskAgreed-kept r r' keeps (client_frame s d v) h = keeps s (λ e. cc) ∙ h

pub Quiet-Agreed : (r r' : RelayServer) → Quiet r r' → Agreed r → Agreed r'
Quiet-Agreed r r' q a = record {
  agents = λ h s found. q.peers s ∙ a.agents h s (sym (ap (lookup h) q.agents) ∙ found);
  clients = λ s found.
      let (d, is) = a.clients s (sym (ap (lookup s) q.clients) ∙ found) in (d, q.peers s ∙ is);
  queue = rw q.queue (
      All-map (TaskAgreed r) (TaskAgreed r') r.queue (TaskAgreed-kept r r' (λ s h. q.peers s))
        a.queue);
}

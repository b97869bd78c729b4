-- ===== src/Relay/Server/Login.antt =====
-- A login, and the agreement of the registers of the relay with its sockets.
use steerloop.Common.{
  ℕ, Text, same, same→eq, same_refl, Option, none, some, if◌then◌else◌, if_cases, Bool-cases, inl,
  inr, arith, ◌≡◌, ◌≢◌, refl, sym, ap, ◌∙◌, Assoc, lookup, insert, lookup-insert,
}
use steerloop.Protocol.Schema.{AuthFrame}
use steerloop.Relay.Devices.{DeviceRegistry, DeviceView}
use steerloop.Relay.Sockets.{
  Runtime, Peer, Connection, RelayServer, unauthenticated, agent, client, auth_result, ready,
  peer_of, send,
}
use steerloop.Relay.Server.{
  verify_token, verify_with, client_device, authenticate, replace_agent, set_peer, admit_client,
  token_matches, device_of,
}
use steerloop.Relay.Server.Invariant.{
  peer, TaskAgreed, Agreed, Quiet, send-Quiet, close-Quiet, Quiet-refl, Quiet-Agreed, reject-Quiet,
  TaskAgreed-kept, All-map,
}

peer_insert :
    (s k : Text) (c : Connection) (m : Assoc Connection)
    → peer_of (lookup k (insert s c m)) ≡ (if same s k then c.peer else peer_of (lookup k m))
peer_insert s k c m = elim (Bool-cases (same s k)) [
  | inl hit ↦ ground (arith, lookup-insert s k c m, hit)
  | inr miss ↦ ground (arith, lookup-insert s k c m, miss)
]

module _ (rt : Runtime) where
  pub replace_agent-Quiet :
      (o : Option Text) (s : Text) (r : RelayServer) → Quiet r (replace_agent rt o s r)
  unfolding replace_agent
  replace_agent-Quiet none s r = Quiet-refl r
  replace_agent-Quiet (some old) s r =
      if_cases (Quiet r) (same old s) (λ h. Quiet-refl r) (λ h. close-Quiet old 1012 r)

  pub verify_with-Quiet :
      (now : ℕ) (token : Text) (r : RelayServer) (o : Option DeviceRegistry)
      → Quiet r (verify_with rt now token r o).0
  verify_with-Quiet now token r none = Quiet-refl r
  verify_with-Quiet now token r (some d) = record {
    agents = refl;
    clients = refl;
    queue = refl;
    peers = λ k. refl;
  }

  device_of-Quiet :
      (r : RelayServer) (t : RelayServer × Option DeviceView)
      → Quiet r t.0
      → Quiet r (device_of rt t).0
  device_of-Quiet r (r', none) q = q
  device_of-Quiet r (r', some v) q = q

  pub client_device-Quiet :
      (now : ℕ) (token : Text) (r : RelayServer) → Quiet r (client_device rt now token r).0
  unfolding client_device verify_token
  client_device-Quiet now token r =
      if_cases {A = RelayServer × Option (Option Text)} (λ t. Quiet r t.0)
        (token_matches rt r.token token) (λ h. Quiet-refl r)
        (λ h. device_of-Quiet r _ (verify_with-Quiet now token r r.registry))

  kept :
      (r : RelayServer) (s : Text) (p : Peer) (k : Text)
      → peer r s ≡ unauthenticated
      → peer r k ≢ unauthenticated
      → peer (set_peer rt s p r) k ≡ peer r k
  kept r s p k new old = elim (Bool-cases (same s k)) [
    | inl hit ↦ absurd (old (ap (peer r) (sym (same→eq s k hit)) ∙ new))
    | inr miss ↦ ground (
      arith,
      peer_insert s k (record { peer = p; is_open = ready (lookup s r.sockets) }) r.sockets,
      miss,
    )
  ]

  pub set_peer_own : (r : RelayServer) (s : Text) (p : Peer) → peer (set_peer rt s p r) s ≡ p
  set_peer_own r s p = ground (
    arith,
    peer_insert s s (record { peer = p; is_open = ready (lookup s r.sockets) }) r.sockets,
    same_refl s,
  )

  set_agent-Agreed :
      (host s : Text) (r : RelayServer)
      → peer r s ≡ unauthenticated
      → Agreed r
      → Agreed (set_peer rt s (agent host) (record r { agents = insert host s r.agents }))
  set_agent-Agreed host s r new a =
      let r' = set_peer rt s (agent host) (record r { agents = insert host s r.agents }) in
      record {
        agents = λ h k found. elim (Bool-cases (same host h)) [
          | inl hit ↦ ground (
            arith,
            lookup-insert host h s r.agents,
            hit,
            found,
            same→eq host h hit,
            set_peer_own (record r { agents = insert host s r.agents }) s (agent host),
          )
          | inr miss ↦
              let old : lookup h r.agents ≡ some k =
                ground (arith, lookup-insert host h s r.agents, miss, found) in
              kept r s (agent host) k new (λ e. cc (a.agents h k old)) ∙ a.agents h k old
        ];
        clients = λ k found.
            let (d, is) = a.clients k found in (d, kept r s (agent host) k new (λ e. cc) ∙ is);
        queue =
            All-map (TaskAgreed r) (TaskAgreed r') r.queue
              (TaskAgreed-kept r r' (λ k. kept r s (agent host) k new)) a.queue;
      }

  set_client-Agreed :
      (s : Text) (d : Option Text) (r : RelayServer)
      → peer r s ≡ unauthenticated
      → Agreed r
      → Agreed (set_peer rt s (client d) (record r { clients = insert s tt r.clients }))
  set_client-Agreed s d r new a =
      let r' = set_peer rt s (client d) (record r { clients = insert s tt r.clients }) in
      record {
        agents = λ h k found.
            kept r s (client d) k new (λ e. cc (a.agents h k found)) ∙ a.agents h k found;
        clients = λ k found. elim (Bool-cases (same s k)) [
          | inl hit ↦ (d, ground (arith, hit, same→eq s k hit, set_peer_own r s (client d)))
          | inr miss ↦
              let (e, is) =
                a.clients k
                  (ground (arith, lookup-insert {V = Unit {0}} s k tt r.clients, miss, found)) in
              (e, kept r s (client d) k new (λ x. cc) ∙ is)
        ];
        queue =
            All-map (TaskAgreed r) (TaskAgreed r') r.queue
              (TaskAgreed-kept r r' (λ k. kept r s (client d) k new)) a.queue;
      }

  admit_client-Agreed :
      (s : Text) (r : RelayServer) (t : RelayServer × Option (Option Text))
      → Quiet r t.0
      → peer r s ≡ unauthenticated
      → Agreed r
      → Agreed (admit_client rt s t)
  admit_client-Agreed s r (r1, none) q new a =
      Quiet-Agreed r1 _ (reject-Quiet s _ r1) (Quiet-Agreed r r1 q a)
  admit_client-Agreed s r (r1, some d) q new a =
      let r2 = set_peer rt s (client d) (record r1 { clients = insert s tt r1.clients }) in
      let r3 = send s (auth_result none) r2 in
      Quiet-Agreed r3 _ (send-Quiet s _ r3) (
        Quiet-Agreed r2 r3 (send-Quiet s _ r2)
          (set_client-Agreed s d r1 (q.peers s ∙ new) (Quiet-Agreed r r1 q a)))

  pub authenticate-Agreed :
      (now : ℕ) (s : Text) (f : AuthFrame) (r : RelayServer)
      → peer r s ≡ unauthenticated
      → Agreed r
      → Agreed (authenticate rt now s f r)
  unfolding authenticate
  authenticate-Agreed now s (AuthFrame.agent token host) r new a =
      let r1 = replace_agent rt (lookup host r.agents) s r in
      let q = replace_agent-Quiet (lookup host r.agents) s r in
      if_cases {A = RelayServer} Agreed (token_matches rt r.token token)
        (λ h.
          Quiet-Agreed _ _ (send-Quiet s _ _)
            (set_agent-Agreed host s r1 (q.peers s ∙ new) (Quiet-Agreed r r1 q a)))
        (λ h. Quiet-Agreed r _ (reject-Quiet s _ r) a)
  authenticate-Agreed now s (AuthFrame.client token) r new a =
      admit_client-Agreed s r _ (client_device-Quiet now token r) new a

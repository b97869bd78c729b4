-- ===== src/Relay/Server/Credentials.antt =====
-- What a socket has to send to be authenticated.
use steerloop.Common.{
  ℕ, Text, Option, none, some, true, if_cases, ◌≡◌, refl, sym, ap, ◌∙◌, lookup, subst, insert,
}
use steerloop.Protocol.Schema.{AuthFrame}
use steerloop.Relay.Sockets.{
  Runtime, Peer, Message, RelayServer, unauthenticated, agent, client, auth_result, snapshot,
  binary, invalid_json, json, send,
}
use steerloop.Relay.Server.{
  client_device, authenticate, token_matches, replace_agent, on_message, first_frame, receive,
  admit_client, set_peer,
}
use steerloop.Relay.Server.Invariant.{peer, send-Quiet, close-Quiet, reject-Quiet, Quiet}
use steerloop.Relay.Server.Login.{set_peer_own, client_device-Quiet}

module _ (rt : Runtime) where
  -- What a login frame has to hold for its socket to become this peer.
  pub Grants : ℕ → RelayServer → Option AuthFrame → Peer → Type 0
  Grants now r f unauthenticated = Unit
  Grants now r f (agent host) =
      (token : Text) × (f ≡ some (AuthFrame.agent token host))
      × (token_matches rt r.token token ≡ true)
  Grants now r f (client device) =
      (token : Text) × (f ≡ some (AuthFrame.client token))
      × ((client_device rt now token r).1 ≡ some device)

  stays_out :
      (now : ℕ) (s : Text) (f : Option AuthFrame) (r r0 r' : RelayServer)
      → peer r s ≡ unauthenticated
      → Quiet r r'
      → Grants now r0 f (peer r' s)
  unfolding Grants
  stays_out now s f r r0 r' out q = rw (q.peers s, out) tt

  admit_client-Grants :
      (now : ℕ) (s token : Text) (r : RelayServer) (t : RelayServer × Option (Option Text))
      → (client_device rt now token r) ≡ t
      → Quiet r t.0
      → peer r s ≡ unauthenticated
      → Grants now r (some (AuthFrame.client token)) (peer (admit_client rt s t) s)
  unfolding Grants
  admit_client-Grants now s token r (q, none) is quiet out =
      stays_out now s _ q r _ (quiet.peers s ∙ out) (reject-Quiet s _ q)
  admit_client-Grants now s token r (q, some d) is quiet out =
      let q2 = set_peer rt s (client d) (record q { clients = insert s tt q.clients }) in
      let q3 = send s (auth_result none) q2 in
      let own : peer (send s (snapshot q2.history) q3) s ≡ client d =
        (send-Quiet s (snapshot q2.history) q3).peers s
        ∙ (send-Quiet s (auth_result none) q2).peers s
        ∙ set_peer_own rt (record q { clients = insert s tt q.clients }) s (client d) in
      subst (λ p. Grants now r (some (AuthFrame.client token)) p) (sym own)
        (token, refl, ap (λ x. x.1) is)

  authenticate-Grants :
      (now : ℕ) (s : Text) (f : AuthFrame) (r : RelayServer)
      → peer r s ≡ unauthenticated
      → Grants now r (some f) (peer (authenticate rt now s f r) s)
  unfolding authenticate Grants
  authenticate-Grants now s (AuthFrame.agent token host) r out =
      if_cases {A = RelayServer} (λ q. Grants now r (some (AuthFrame.agent token host)) (peer q s))
        (token_matches rt r.token token)
        (λ good.
          let r1 = replace_agent rt (lookup host r.agents) s r in
          let q = record r1 { agents = insert host s r1.agents } in
          subst (λ p. Grants now r (some (AuthFrame.agent token host)) p)
            (sym (
              (send-Quiet s (auth_result none) (set_peer rt s (agent host) q)).peers s
              ∙ set_peer_own rt q s (agent host)))
            (token, refl, good))
        (λ bad. stays_out now s _ r r _ out (reject-Quiet s _ r))
  authenticate-Grants now s (AuthFrame.client token) r out =
      admit_client-Grants now s token r _ refl (client_device-Quiet rt now token r) out

  abbrev pub login_frame : Message → Option AuthFrame
  login_frame (json v) = v.as_auth
  login_frame _ = none

  -- Whatever an unauthenticated socket sends, it becomes the agent of a host only by a login frame for
  -- that host with the token of the relay, and a client only by a login frame with the token of the
  -- relay or of a verified device, whose id it then has; it stays unauthenticated otherwise.
  pub on_message-Grants :
      (now : ℕ) (s : Text) (m : Message) (r : RelayServer)
      → peer r s ≡ unauthenticated
      → Grants now r (login_frame m) (peer (on_message rt now s m r) s)
  unfolding on_message
  on_message-Grants now s binary r out = stays_out now s _ r r _ out (close-Quiet s 1003 r)
  on_message-Grants now s invalid_json r out = stays_out now s _ r r _ out (close-Quiet s 1007 r)
  on_message-Grants now s (json v) r out =
      subst (λ p. Grants now r v.as_auth (peer (receive rt now s v p r) s)) (sym out)
        (first v.as_auth)
    where
      first : (o : Option AuthFrame) → Grants now r o (peer (first_frame rt now s o r) s)
      first none = stays_out now s _ r r _ out (reject-Quiet s _ r)
      first (some f) = authenticate-Grants now s f r out

-- ===== src/Web/Connection/Stream.antt =====
-- The state that the browser shows, as a function of what its current socket received.
use steerloop.Common.{
  ℕ, Text, text, same, same_refl, or_else, List, [], ◌∷◌, ◌++◌, Option, none, some, Bool, true,
  false, ◌&&◌, if◌then◌else◌, if_either, Bool-cases, inl, inr, ◌≡◌, refl, sym, ap, ◌∙◌, subst,
  lookup,
}
use steerloop.Protocol.Schema.{EventEnvelope, AuthResult, RelayToClient}
use steerloop.Protocol.View.{ControlPlaneState, create_empty_state}
use steerloop.Protocol.State.{reduce_event, reduce_all, reduce_events}
use steerloop.Web.Connection.{
  ControlClient, Link, Effect, on_state, on_connection, ConnectionStatus, ConnectionUpdate, Message,
  binary, invalid_json, invalid_frame, frame, is_allowed, is_live, close_link, close_socket,
  show_state, does, on_auth_result, on_current_message, handle_message,
}

-- The state that was shown last.
abbrev shown_by : Effect → Option ControlPlaneState → Option ControlPlaneState
shown_by (on_state v) o = some v
shown_by _ o = o

unfoldable pub last_shown : Option ControlPlaneState → List Effect → Option ControlPlaneState
last_shown o [] = o
last_shown o (e ∷ es) = last_shown (shown_by e o) es

last_shown-snoc :
    (o : Option ControlPlaneState) (es : List Effect) (e : Effect)
    → last_shown o (es ++ e ∷ []) ≡ shown_by e (last_shown o es)
unfolding last_shown
last_shown-snoc o [] e = refl
last_shown-snoc o (x ∷ xs) e = last_shown-snoc (shown_by x o) xs e

-- The events among what one socket receives.
abbrev pub message_events : Message → List EventEnvelope
message_events (frame (RelayToClient.event e)) = e ∷ []
message_events _ = []

abbrev pub has_snapshot : Message → Bool
has_snapshot (frame (RelayToClient.snapshot es)) = true
has_snapshot _ = false

unfoldable pub events_from : Text → List (Text × Message) → List EventEnvelope
events_from s [] = []
events_from s ((t, m) ∷ ms) =
    let rest = events_from s ms in if same s t then message_events m ++ rest else rest

-- The socket receives no further snapshot.
abbrev pub NoSnapshot : Text → List (Text × Message) → Type 0
NoSnapshot s [] = Unit
NoSnapshot s ((t, m) ∷ ms) = (same s t ≡ true → has_snapshot m ≡ false) × NoSnapshot s ms

abbrev Keeps : ControlClient → ControlClient → Type 0
Keeps c d =
    (d.socket ≡ c.socket) × (d.state ≡ c.state) × (last_shown none d.done ≡ last_shown none c.done)

close_socket-Keeps : (s : Text) (code : ℕ) (c : ControlClient) → Keeps c (close_socket s code c)
unfolding close_socket
close_socket-Keeps s code c = close_link-Keeps (lookup s c.links)
  where
    close_link-Keeps : (o : Option Link) → Keeps c (close_link o s code c)
    close_link-Keeps none = (refl, refl, refl)
    close_link-Keeps (some l) =
        if_either {A = ControlClient} (Keeps c) (is_allowed code && is_live l.state)
          (refl, refl, last_shown-snoc none c.done (Effect.closes s code)) (refl, refl, refl)

on_auth_result-Keeps :
    (s : Text) (a : AuthResult) (ok : Bool) (c : ControlClient) → Keeps c (on_auth_result s a ok c)
on_auth_result-Keeps s a true c = (refl, refl, last_shown-snoc none c.done _)
on_auth_result-Keeps s a false c =
    let update : ConnectionUpdate = record {
      status = ConnectionStatus.error;
      detail = some (or_else a.error (text "Relay authentication failed"));
    } in
    let c1 = record c { should_reconnect = false; done = c.done ++ on_connection update ∷ [] } in
    let k = close_socket-Keeps s 1008 c1 in
    (k.0, k.1, k.2 ∙ last_shown-snoc none c.done (on_connection update))

module _ (date_parse : Text → Option ℕ) where
  unfoldable pub receive_all : List (Text × Message) → ControlClient → ControlClient
  receive_all [] c = c
  receive_all ((s, m) ∷ ms) c = receive_all ms (handle_message date_parse s m c)

  -- One message: the events it carries are taken in, and what is kept is what is shown.
  abbrev Follows : List EventEnvelope → ControlClient → ControlClient → Type 0
  Follows es c d =
      (d.socket ≡ c.socket)
      × (d.state ≡ reduce_all date_parse c.state es)
      × (last_shown none c.done ≡ some c.state → last_shown none d.done ≡ some d.state)

  Keeps-Follows : (c d : ControlClient) → Keeps c d → Follows [] c d
  unfolding reduce_all
  Keeps-Follows c d k = (k.0, k.1, λ h. k.2 ∙ h ∙ ap some (sym k.1))

  on_current_message-Follows :
      (s : Text) (m : Message) (c : ControlClient)
      → has_snapshot m ≡ false
      → Follows (message_events m) c (on_current_message date_parse s m c)
  unfolding reduce_all
  on_current_message-Follows s binary c h = (refl, refl, λ x. x)
  on_current_message-Follows s invalid_json c h =
      Keeps-Follows c (close_socket s 1007 c) (close_socket-Keeps s 1007 c)
  on_current_message-Follows s invalid_frame c h =
      Keeps-Follows c (close_socket s 1008 c) (close_socket-Keeps s 1008 c)
  on_current_message-Follows s (frame (RelayToClient.auth_result a)) c h =
      Keeps-Follows c (on_auth_result s a a.ok c) (on_auth_result-Keeps s a a.ok c)
  on_current_message-Follows s (frame (RelayToClient.snapshot es)) c h = cc
  on_current_message-Follows s (frame (RelayToClient.event e)) c h =
      (refl, refl, λ x. last_shown-snoc none c.done _)
  on_current_message-Follows s (frame (RelayToClient.result r)) c h =
      Keeps-Follows c (does (Effect.on_command_result r) c)
        (refl, refl, last_shown-snoc none c.done (Effect.on_command_result r))

  reduce_all-append :
      (xs ys : List EventEnvelope) (v : ControlPlaneState)
      → reduce_all date_parse v (xs ++ ys) ≡ reduce_all date_parse (reduce_all date_parse v xs) ys
  unfolding reduce_all
  reduce_all-append [] ys v = refl
  reduce_all-append (x ∷ xs) ys v = reduce_all-append xs ys (reduce_event date_parse v x)

  Follows-trans :
      (xs ys : List EventEnvelope) (c d e : ControlClient)
      → Follows xs c d
      → Follows ys d e
      → Follows (xs ++ ys) c e
  Follows-trans xs ys c d e f g = (
    g.0 ∙ f.0,
    g.1 ∙ ap (λ v. reduce_all date_parse v ys) f.1 ∙ sym (reduce_all-append xs ys c.state),
    λ h. g.2 (f.2 h),
  )

  handle_message-Follows :
      (cur s : Text) (m : Message) (c : ControlClient)
      → c.socket ≡ some cur
      → (same cur s ≡ true → has_snapshot m ≡ false)
      → Follows (if same cur s then message_events m else []) c (handle_message date_parse s m c)
  unfolding handle_message reduce_all
  handle_message-Follows cur s m c at h = elim (Bool-cases (same cur s)) [
    | inl own ↦
        let e : handle_message date_parse s m c ≡ on_current_message date_parse s m c =
          rw (at, own) refl in
        rw (own, e) (on_current_message-Follows s m c (h own))
    | inr other ↦
        let e : handle_message date_parse s m c ≡ c = rw (at, other) refl in
        rw (other, e) (refl, refl, λ x. x)
  ]

  receive_all-Follows :
      (cur : Text) (ms : List (Text × Message)) (c : ControlClient)
      → c.socket ≡ some cur
      → NoSnapshot cur ms
      → Follows (events_from cur ms) c (receive_all ms c)
  unfolding receive_all events_from reduce_all
  receive_all-Follows cur [] c at h = (refl, refl, λ x. x)
  receive_all-Follows cur ((s, m) ∷ ms) c at h =
      let d = handle_message date_parse s m c in
      let f = handle_message-Follows cur s m c at h.0 in
      let g = receive_all-Follows cur ms d (f.0 ∙ at) h.1 in
      elim (Bool-cases (same cur s)) [
        | inl own ↦ rw own (
            Follows-trans (message_events m) (events_from cur ms) c d (receive_all ms d)
              (rw own at f) g)
        | inr other ↦
            rw other
              (Follows-trans [] (events_from cur ms) c d (receive_all ms d) (rw other at f) g)
      ]

  -- The client has the socket, and its state and what it showed last are `v`.
  abbrev pub Displays : Text → ControlPlaneState → ControlClient → Type 0
  Displays s v d = (d.socket ≡ some s) × (d.state ≡ v) × (last_shown none d.done ≡ some v)

  -- After a snapshot on its socket, and then any messages on any sockets, without another snapshot on
  -- that one, the client's state is the reduction of the snapshot's events followed by the events that
  -- came on its own socket; messages on other sockets count for nothing, and the state that the client
  -- showed last is this one.
  pub shows_received :
      (s : Text) (es : List EventEnvelope) (ms : List (Text × Message)) (c : ControlClient)
      → c.socket ≡ some s
      → NoSnapshot s ms
      → Displays s
          (reduce_events date_parse (es ++ events_from s ms))
          (receive_all ((s, frame (RelayToClient.snapshot es)) ∷ ms) c)
  unfolding receive_all handle_message reduce_events
  shows_received s es ms c at h =
      let v0 = reduce_events date_parse es in
      let c1 = show_state v0 c in
      let f = receive_all-Follows s ms c1 at h in
      let whole = f.1 ∙ sym (reduce_all-append es (events_from s ms) create_empty_state) in
      let first : handle_message date_parse s (frame (RelayToClient.snapshot es)) c ≡ c1 =
        rw (at, same_refl s) refl in
      let v = reduce_events date_parse (es ++ events_from s ms) in
      subst (λ x. Displays s v (receive_all ms x)) (sym first)
        (f.0 ∙ at, whole, f.2 (last_shown-snoc none c.done (on_state v0)) ∙ ap some whole)

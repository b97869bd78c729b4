-- ===== src/Web/Connection/Leaving.antt =====
-- The browser's connection over any sequence of what happens to its sockets and its timer.

use steerloop.Common.{
  ℕ, Text, List, [], ◌∷◌, ◌++◌, Option, none, some, false, ◌&&◌, is_some, if◌then◌else◌, if_either,
  if_false, ◌≡◌, refl, sym, ap, ◌∙◌, subst, lookup,
}
use mathlib.Core.List.{append-nil, append_assoc}
use steerloop.Common.Effects.{Outcome}
use steerloop.Protocol.Schema.{AuthFrame}
use steerloop.Web.Connection.{
  ControlClient, ConnectionTarget, ConnectionUpdate, ConnectionStatus, Link, Effect, on_state,
  on_connection, on_command_result, Message, is_current, is_allowed, is_live, close_link,
  close_current, close_socket, open_target, open_relay, disconnect, open_link, mark_closed, on_open,
  on_error, lose_socket, on_close, on_timer, handle_message,
}

-- What happens to the client apart from the calls of its owner.
pub data Happening : Type 0 where
  opens : (socket : Text) → Happening
  receives : (socket : Text) → Message → Happening
  errs : (socket : Text) → Happening
  closes_down : (socket : Text) → Happening
  timer_fires : (created : Outcome Text) → Happening

-- What the owner was told, by any of its callbacks.
abbrev told_of : Effect → List Effect
told_of (on_state s) = on_state s ∷ []
told_of (on_connection u) = on_connection u ∷ []
told_of (on_command_result r) = on_command_result r ∷ []
told_of _ = []

unfoldable pub told : List Effect → List Effect
told [] = []
told (e ∷ es) = told_of e ++ told es

told-snoc : (es : List Effect) (e : Effect) → told (es ++ e ∷ []) ≡ told es ++ told_of e
unfolding told
told-snoc [] e = append-nil (told_of e)
told-snoc (x ∷ xs) e =
    ap (λ us. told_of x ++ us) (told-snoc xs e)
    ∙ sym (append_assoc (told_of x) (told xs) (told_of e))

-- The client has no socket and seeks none.
pub record IsLeft (d : ControlClient) : Type 0 where
  pub no_socket : d.socket ≡ none
  pub no_retry : d.should_reconnect ≡ false
  pub logged_out : d.authenticated ≡ false

abbrev Quiet : ControlClient → ControlClient → Type 0
Quiet c d =
    (d.socket ≡ c.socket)
    × (d.should_reconnect ≡ c.should_reconnect)
    × (d.authenticated ≡ c.authenticated)
    × (d.state ≡ c.state)
    × (told d.done ≡ told c.done)

close_link-Quiet :
    (o : Option Link) (s : Text) (code : ℕ) (c : ControlClient) → Quiet c (close_link o s code c)
close_link-Quiet none s code c = (refl, refl, refl, refl, refl)
close_link-Quiet (some l) s code c =
    if_either {A = ControlClient} (Quiet c) (is_allowed code && is_live l.state)
      (refl, refl, refl, refl, told-snoc c.done (Effect.closes s code) ∙ append-nil (told c.done))
      (refl, refl, refl, refl, refl)

Quiet-trans : (c d e : ControlClient) → Quiet c d → Quiet d e → Quiet c e
Quiet-trans c d e f g = (g.0 ∙ f.0, g.1 ∙ f.1, g.2 ∙ f.2, g.3 ∙ f.3, g.4 ∙ f.4)

close_current-Quiet : (o : Option Text) (c : ControlClient) → Quiet c (close_current o c)
unfolding close_socket
close_current-Quiet none c = (refl, refl, refl, refl, refl)
close_current-Quiet (some s) c = close_link-Quiet (lookup s c.links) s 1000 c

open_link-Quiet : (o : Option Link) (s : Text) (c : ControlClient) → Quiet c (open_link o s c)
open_link-Quiet none s c = (refl, refl, refl, refl, refl)
open_link-Quiet (some l) s c = (
  refl,
  refl,
  refl,
  refl,
  told-snoc c.done (Effect.logs_in s (AuthFrame.client l.token)) ∙ append-nil (told c.done),
)

mark_closed-Quiet : (o : Option Link) (s : Text) (c : ControlClient) → Quiet c (mark_closed o s c)
mark_closed-Quiet none s c = (refl, refl, refl, refl, refl)
mark_closed-Quiet (some l) s c = (refl, refl, refl, refl, refl)

open_target-Quiet :
    (created : Outcome Text) (o : Option ConnectionTarget) (c : ControlClient)
    → c.should_reconnect ≡ false
    → open_target created ConnectionStatus.reconnecting o c ≡ c
open_target-Quiet created none c idle = refl
open_target-Quiet created (some t) c idle = rw idle refl

module _ (date_parse : Text → Option ℕ) where
  unfoldable pub happen : Happening → ControlClient → ControlClient
  happen (opens s) c = on_open s c
  happen (receives s m) c = handle_message date_parse s m c
  happen (errs s) c = on_error s c
  happen (closes_down s) c = on_close s c
  happen (timer_fires created) c = if is_some c.reconnect_timer then on_timer created c else c

  unfoldable pub happen_all : List Happening → ControlClient → ControlClient
  happen_all [] c = c
  happen_all (h ∷ hs) c = happen_all hs (happen h c)

  happen-Quiet : (h : Happening) (c : ControlClient) → IsLeft c → Quiet c (happen h c)
  unfolding happen on_open handle_message on_error on_close on_timer open_relay
  happen-Quiet (opens s) c left = open_link-Quiet (lookup s c.links) s c
  happen-Quiet (receives s m) c left = rw left.no_socket (refl, refl, refl, refl, refl)
  happen-Quiet (errs s) c left = rw left.no_socket (refl, refl, refl, refl, refl)
  happen-Quiet (closes_down s) c left =
      let q = mark_closed-Quiet (lookup s c.links) s c in
      let c1 = mark_closed (lookup s c.links) s c in
      subst (Quiet c)
        (sym (
          if_false (is_current c1.socket s) (lose_socket c1) c1
            (ap (λ o. is_current o s) (q.0 ∙ left.no_socket))))
        q
  happen-Quiet (timer_fires created) c left =
      if_either {A = ControlClient} (Quiet c) (is_some c.reconnect_timer)
        (rw (open_target-Quiet created c.target (record c { reconnect_timer = none }) left.no_retry)
          (refl, refl, refl, refl, refl))
        (refl, refl, refl, refl, refl)

  happen_all-Quiet :
      (hs : List Happening) (c : ControlClient) → IsLeft c → Quiet c (happen_all hs c)
  unfolding happen_all
  happen_all-Quiet [] c left = (refl, refl, refl, refl, refl)
  happen_all-Quiet (h ∷ hs) c left =
      let d = happen h c in
      let q = happen-Quiet h c left in
      let left' : IsLeft d = record {
        no_socket = q.0 ∙ left.no_socket;
        no_retry = q.1 ∙ left.no_retry;
        logged_out = q.2 ∙ left.logged_out;
      } in
      Quiet-trans c d (happen_all hs d) q (happen_all-Quiet hs d left')

  -- Whatever happens to the sockets and the timer after a client disconnects: it has no socket, is not
  -- logged in and does not reconnect, its state stays as it was, and no callback of its owner is called
  -- but for one that tells that it is disconnected.
  pub disconnect_for_good :
      (hs : List Happening) (c : ControlClient)
      → let d = happen_all hs (disconnect c) in
        (d.socket ≡ none)
        × (d.should_reconnect ≡ false)
        × (d.authenticated ≡ false)
        × (d.state ≡ c.state)
        × (told d.done
            ≡ told c.done
              ++ on_connection (record { status = ConnectionStatus.disconnected; detail = none })
                ∷ [])
  unfolding disconnect
  disconnect_for_good hs c =
      let c1 = record c {
        should_reconnect = false;
        authenticated = false;
        reconnect_timer = none;
        socket = none;
      } in
      let u : ConnectionUpdate = record { status = ConnectionStatus.disconnected; detail = none } in
      let k = close_current-Quiet c.socket c1 in
      let left : IsLeft (disconnect c) = record {
        no_socket = k.0;
        no_retry = k.1;
        logged_out = k.2;
      } in
      let q = happen_all-Quiet hs (disconnect c) left in
      (
        q.0 ∙ k.0,
        q.1 ∙ k.1,
        q.2 ∙ k.2,
        q.3 ∙ k.3,
        q.4
            ∙ told-snoc (close_current c.socket c1).done (on_connection u)
            ∙ ap (λ us. us ++ on_connection u ∷ []) k.4,
      )

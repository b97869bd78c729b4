-- ===== src/Agent/RelayClient/Backoff.antt =====
-- The time between attempts to reach the relay.
use Prim.Native.Nat.{min}
use native.Mathlib.Nat.{mul_assoc}
use steerloop.Common.{
  ℕ, zero, suc, ◌*◌, ◌^◌, ◌≤◌, Text, List, [], ◌∷◌, some, false, arith, ◌≡◌, refl, sym, ap, ◌∙◌,
  length, if_either, lookup, insert, lookup-insert_self, Bool, true, Option, none, some,
}
use steerloop.Agent.RelayClient.{
  RelayClient, Link, ReadyState, connecting, closed, start, stop, close_link, close_current,
  close_socket, is_closed, schedule_reconnect, on_timer, on_error, on_close, fail, connect_once,
}

-- The timer fires, and the new socket has an error before it is let in, and closes.
pub retry : Text → RelayClient → RelayClient
retry s c = on_close s (on_error s (on_timer s c))

abbrev attempt : (state : ReadyState) → (settled : Bool) → Link
attempt state settled = record { state = state; ready = false; settled = settled }

-- The client after the error.
abbrev failed : Text → RelayClient → RelayClient
failed s c = record c {
  socket = some s;
  links = insert s (attempt connecting true) (insert s (attempt connecting false) c.links);
  reconnect_timer = some c.reconnect_delay_ms;
  reconnect_delay_ms = min (c.reconnect_delay_ms * 2) c.reconnect_max_ms;
}

abbrev retried : Text → RelayClient → RelayClient
retried s c = record (failed s c) {
  links = insert s (attempt closed true) (failed s c).links;
  authenticated = false;
}

on_error-on_timer :
    (s : Text) (c : RelayClient) → c.stopped ≡ false → on_error s (on_timer s c) ≡ failed s c
unfolding on_error fail on_timer connect_once schedule_reconnect
on_error-on_timer s c go = rw (lookup-insert_self s (attempt connecting false) c.links, go) refl

on_close-failed :
    (s : Text) (c : RelayClient) → c.stopped ≡ false → on_close s (failed s c) ≡ retried s c
unfolding on_close fail schedule_reconnect
on_close-failed s c go =
    rw
      (
        lookup-insert_self s (attempt connecting true)
            (insert s (attempt connecting false) c.links),
        go,
        lookup-insert_self s (attempt closed true) (failed s c).links,
      )
      refl

retry_lem : (s : Text) (c : RelayClient) → c.stopped ≡ false → retry s c ≡ retried s c
unfolding retry
retry_lem s c go = ap (on_close s) (on_error-on_timer s c go) ∙ on_close-failed s c go

pub retries : List Text → RelayClient → RelayClient
retries [] c = c
retries (s ∷ ss) c = retries ss (retry s c)

doubled : ℕ → ℕ → ℕ
doubled zero d = d
doubled (suc n) d = doubled n (d * 2)

min-doubled : (n d m : ℕ) → min (doubled n (min d m)) m ≡ min (doubled n d) m
unfolding doubled
min-doubled zero d m = omega arith
min-doubled (suc n) d m =
    let a = min-doubled n (d * 2) m in
    let b = min-doubled n (min d m * 2) m in
    let e : min (min d m * 2) m ≡ min (d * 2) m = omega arith in
    sym b ∙ ap (λ x. min (doubled n x) m) e ∙ a

doubled_lem : (n d : ℕ) → doubled n d ≡ d * 2 ^ n
unfolding doubled
doubled_lem zero d = omega arith
doubled_lem (suc n) d =
    doubled_lem n (d * 2) ∙ mul_assoc d 2 (2 ^ n) ∙ ap (λ k. d * k) (omega arith)

retries-delay :
    (ss : List Text) (c : RelayClient)
    → c.stopped ≡ false
    → c.reconnect_delay_ms ≤ c.reconnect_max_ms
    → (retries ss c).reconnect_delay_ms
      ≡ min (doubled (length ss) c.reconnect_delay_ms) c.reconnect_max_ms
unfolding retries doubled
retries-delay [] c go h = omega arith
retries-delay (s ∷ ss) c go h =
    ap (λ x. (retries ss x).reconnect_delay_ms) (retry_lem s c go)
    ∙ retries-delay ss (retried s c) go (omega arith)
    ∙ min-doubled (length ss) (c.reconnect_delay_ms * 2) c.reconnect_max_ms

retries-stopped :
    (ss : List Text) (c : RelayClient) → c.stopped ≡ false → (retries ss c).stopped ≡ false
unfolding retries
retries-stopped [] c go = go
retries-stopped (s ∷ ss) c go =
    ap (λ x. (retries ss x).stopped) (retry_lem s c go) ∙ retries-stopped ss (retried s c) go

-- In a client that is not stopped and whose wait is within its limit: after n attempts in a row that
-- end with an error and the close of their socket, the next such attempt sets a timer 2 ^ n times as
-- long as the first one would have, but never longer than the limit.
pub backoff :
    (ss : List Text) (s : Text) (c : RelayClient)
    → c.stopped ≡ false
    → c.reconnect_delay_ms ≤ c.reconnect_max_ms
    → (retry s (retries ss c)).reconnect_timer
      ≡ some (min (c.reconnect_delay_ms * 2 ^ length ss) c.reconnect_max_ms)
backoff ss s c go h =
    ap (λ x. x.reconnect_timer) (retry_lem s (retries ss c) (retries-stopped ss c go))
    ∙ ap some (
        retries-delay ss c go h
        ∙ ap (λ x. min x c.reconnect_max_ms) (doubled_lem (length ss) c.reconnect_delay_ms))

close_link-timer :
    (o : Option Link) (s : Text) (code : ℕ) (c : RelayClient)
    → (close_link o s code c).reconnect_timer ≡ c.reconnect_timer
close_link-timer none s code c = refl
close_link-timer (some l) s code c =
    if_either {A = RelayClient} (λ x. x.reconnect_timer ≡ c.reconnect_timer) (is_closed l.state)
      refl refl

close_current-timer :
    (o : Option Text) (c : RelayClient) → (close_current o c).reconnect_timer ≡ c.reconnect_timer
unfolding close_socket
close_current-timer none c = refl
close_current-timer (some s) c = close_link-timer (lookup s c.links) s 1000 c

-- When a client is stopped while it waits to try again and is started once more, asking for another
-- attempt does nothing: the cleared timer still counts as set.
pub restart_never_retries :
    (s : Text) (d : ℕ) (c : RelayClient)
    → c.reconnect_timer ≡ some d
    → schedule_reconnect (start s (stop c)) ≡ start s (stop c)
unfolding schedule_reconnect start stop connect_once
restart_never_retries s d c set =
    let kept : (stop c).reconnect_timer ≡ some d = close_current-timer c.socket _ ∙ set in
    rw kept refl

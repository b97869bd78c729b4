-- ===== src/Agent/RelayClient/Queue.antt =====
-- Frames that are published while the relay cannot be reached.
use mathlib.Core.List.{append-nil, append_assoc}
use steerloop.Common.{
  ℕ, ◌≤◌, Text, List, [], ◌∷◌, ◌++◌, map, Option, none, some, true, false, Bool-cases, inl, inr,
  arith, ◌≡◌, refl, sym, ap, ◌∙◌, length, slice_last, slice_last_again, slice_last_short,
  length-slice_last-le, lookup, insert, lookup-insert_self,
}
use steerloop.Agent.RelayClient.{
  RelayClient, Link, AuthenticatedFrame, sends, on_authenticated, is_open, max_queue, publish,
  flush_queue, on_auth_result, usable, link_open, publish_on,
}

unfoldable pub publish_all : List AuthenticatedFrame → RelayClient → RelayClient
publish_all [] c = c
publish_all (f ∷ fs) c = publish_all fs (publish f c)

slice_last_all :
    {A : Type 0} (n : ℕ) (xs ys : List A)
    → 1 ≤ n
    → slice_last n (slice_last n xs ++ ys) ≡ slice_last n (xs ++ ys)
slice_last_all n xs [] h =
    ap (slice_last n) (append-nil (slice_last n xs))
    ∙ slice_last_short n (slice_last n xs) (length-slice_last-le n xs)
    ∙ ap (slice_last n) (sym (append-nil xs))
slice_last_all n xs (y ∷ ys) h =
    let one = y ∷ [] in
    ap (slice_last n) (sym (append_assoc (slice_last n xs) one ys))
    ∙ sym (slice_last_all n (slice_last n xs ++ one) ys h)
    ∙ ap (λ z. slice_last n (z ++ ys)) (slice_last_again n xs y h)
    ∙ slice_last_all n (xs ++ one) ys h
    ∙ ap (slice_last n) (append_assoc xs one ys)

publish-offline :
    (f : AuthenticatedFrame) (c : RelayClient)
    → c.authenticated ≡ false
    → publish f c ≡ record c { queue = slice_last max_queue (c.queue ++ f ∷ []) }
unfolding publish
publish-offline f c out = go c.socket
  where
    go :
        (o : Option Text)
        → publish_on (usable o c.links c.authenticated) f c
          ≡ record c { queue = slice_last max_queue (c.queue ++ f ∷ []) }
    go none = refl
    go (some s) = elim (Bool-cases (link_open (lookup s c.links))) [
      | inl up ↦ rw (up, out) refl
      | inr down ↦ rw down refl
    ]

publish_all-offline :
    (fs : List AuthenticatedFrame) (c : RelayClient)
    → c.authenticated ≡ false
    → length c.queue ≤ max_queue
    → publish_all fs c ≡ record c { queue = slice_last max_queue (c.queue ++ fs) }
unfolding publish_all
publish_all-offline [] c out small =
    ap (λ q. record c { queue = q })
      (sym (slice_last_short max_queue c.queue small)
        ∙ ap (slice_last max_queue) (sym (append-nil c.queue)))
publish_all-offline (f ∷ fs) c out small =
    let q1 = slice_last max_queue (c.queue ++ f ∷ []) in
    ap (publish_all fs) (publish-offline f c out)
    ∙ publish_all-offline fs (record c { queue = q1 }) out
        (length-slice_last-le max_queue (c.queue ++ f ∷ []))
    ∙ ap (λ q. record c { queue = q })
        (slice_last_all max_queue (c.queue ++ f ∷ []) fs (omega arith)
          ∙ ap (slice_last max_queue) (append_assoc c.queue (f ∷ []) fs))

flush-admitted :
    (s : Text) (l : Link) (c : RelayClient)
    → c.socket ≡ some s
    → lookup s c.links ≡ some l
    → l.state ≡ is_open
    → on_auth_result s true c ≡ record c {
      links = insert s (record l { ready = true; settled = true }) c.links;
      authenticated = true;
      reconnect_delay_ms = c.reconnect_min_ms;
      queue = [];
      done = (c.done ++ map (sends s) c.queue) ++ on_authenticated ∷ [];
    }
unfolding on_auth_result flush_queue
flush-admitted s l c current there up =
    let kept = lookup-insert_self s (record l { ready = true; settled = true }) c.links in
    rw (there, current, kept, up) refl

-- While the agent is not let in, every frame that is published waits; when its current socket, which
-- is open, is let in, the last 1000 of all waiting frames are sent on it, in the order in which they
-- were published, and none waits any more.
pub queued_then_flushed :
    (fs : List AuthenticatedFrame) (s : Text) (l : Link) (c : RelayClient)
    → c.authenticated ≡ false
    → length c.queue ≤ max_queue
    → c.socket ≡ some s
    → lookup s c.links ≡ some l
    → l.state ≡ is_open
    → let c' = on_auth_result s true (publish_all fs c) in
      (c'.queue ≡ [])
      × (c'.done
          ≡ (c.done ++ map (sends s) (slice_last max_queue (c.queue ++ fs)))
            ++ on_authenticated ∷ [])
queued_then_flushed fs s l c out small current there up =
    let q = record c { queue = slice_last max_queue (c.queue ++ fs) } in
    let e =
      ap (on_auth_result s true) (publish_all-offline fs c out small)
      ∙ flush-admitted s l q current there up in
    (ap (λ x. x.queue) e, ap (λ x. x.done) e)

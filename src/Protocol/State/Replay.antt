-- ===== src/Protocol/State/Replay.antt =====
-- packages/protocol/src/state.ts: events that are delivered more than once.
use mathlib.Core.List.{append_assoc}
use native.Mathlib.Nat.{add-zero}
use steerloop.Common.{
  ℕ, suc, ◌+◌, ◌-◌, ◌≤◌, ◌<◌, Text, List, [], ◌∷◌, ◌++◌, Option, true, false, if_either, Bool-cases,
  inl, inr, arith, ◌≡◌, ap, ◌∙◌, subst, slice_last, length, drop, length-append, drop-append_left,
  same_refl,
}
use steerloop.Protocol.Schema.{EventEnvelope}
use steerloop.Protocol.View.{ControlPlaneState, max_event_ids}
use steerloop.Protocol.Handlers.Frame.{log, apply_event-log}
use steerloop.Protocol.State.{
  includes, note_event, restart_host, host_restarted, is_dropped, accept_event, reduce_event,
  reduce_all,
}

includes-append : (xs ys : List Text) (y : Text) → includes (xs ++ y ∷ ys) y ≡ true
unfolding includes
includes-append [] ys y = ground (arith, same_refl y)
includes-append (x ∷ xs) ys y = ground (arith, includes-append xs ys y)

-- The id stands in the record, with at most `d` younger ones.
record IsRecent (y : Text) (d : ℕ) (ids : List Text) : Type 0 where
  older : List Text
  younger : List Text
  split : ids ≡ older ++ y ∷ younger
  depth : length younger ≤ d

IsRecent-includes : {y : Text} {d : ℕ} {ids : List Text} → IsRecent y d ids → includes ids y ≡ true
IsRecent-includes {y} r = rw r.split (includes-append r.older r.younger y)

-- One more id at the end, and the oldest ones cut off, leave it there.
IsRecent-push :
    {y : Text} {d : ℕ} {ids : List Text} (n : ℕ) (z : Text)
    → d + 2 ≤ n
    → IsRecent y d ids
    → IsRecent y (d + 1) (slice_last n (ids ++ z ∷ []))
unfolding slice_last
IsRecent-push {y} {d} {ids} n z h r =
    let cut : ℕ = length (ids ++ z ∷ []) - n in
    let whole : ids ++ z ∷ [] ≡ r.older ++ (y ∷ (r.younger ++ z ∷ [])) =
      rw r.split (append_assoc r.older (y ∷ r.younger) (z ∷ [])) in
    let size : length (ids ++ z ∷ []) ≡ length r.older + suc (length r.younger + 1) = rw whole (
      omega (
        arith,
        length-append r.older (y ∷ (r.younger ++ z ∷ [])),
        length-append r.younger (z ∷ []),
      )) in
    record {
      older = drop cut r.older;
      younger = r.younger ++ z ∷ [];
      split = ap (drop cut) whole ∙ drop-append_left cut r.older _ (omega arith);
      depth = omega (arith, length-append r.younger (z ∷ []));
    }

IsRecent-last :
    (n : ℕ) (z : Text) (ids : List Text) → 1 ≤ n → IsRecent z 0 (slice_last n (ids ++ z ∷ []))
unfolding slice_last
IsRecent-last n z ids h =
    let cut : ℕ = length (ids ++ z ∷ []) - n in
    record {
      older = drop cut ids;
      younger = [];
      split = drop-append_left cut ids (z ∷ []) (omega (arith, length-append ids (z ∷ [])));
      depth = omega arith;
    }

module _ (date_parse : Text → Option ℕ) where
  pub accept_event-log :
      (s : ControlPlaneState) (e : EventEnvelope)
      → log (accept_event date_parse s e) ≡ log (note_event s e)
  unfolding accept_event restart_host
  accept_event-log s e = elim (Bool-cases (host_restarted date_parse s e)) [
    | inl t ↦ rw t (apply_event-log e _)
    | inr f ↦ rw f (apply_event-log e _)
  ]

  pub accept_event-ids :
      (s : ControlPlaneState) (e : EventEnvelope)
      → (accept_event date_parse s e).recent_event_ids
        ≡ slice_last max_event_ids (s.recent_event_ids ++ e.event_id ∷ [])
  unfolding note_event
  accept_event-ids s e = ap (λ p. p.1) (accept_event-log s e)

  reduce_event-IsRecent :
      {y : Text} {d : ℕ} (s : ControlPlaneState) (e : EventEnvelope)
      → d + 2 ≤ max_event_ids
      → IsRecent y d s.recent_event_ids
      → IsRecent y (d + 1) (reduce_event date_parse s e).recent_event_ids
  unfolding reduce_event
  reduce_event-IsRecent {y} {d} s e h r =
      if_either {A = ControlPlaneState} (λ t. IsRecent y (d + 1) t.recent_event_ids)
        (is_dropped date_parse s e)
        (record {
          older = r.older;
          younger = r.younger;
          split = r.split;
          depth = omega (arith, r.depth);
        })
        (rw (accept_event-ids s e) (IsRecent-push max_event_ids e.event_id h r))

  reduce_all-IsRecent :
      {y : Text} (d : ℕ) (s : ControlPlaneState) (es : List EventEnvelope)
      → d + length es + 1 ≤ max_event_ids
      → IsRecent y d s.recent_event_ids
      → IsRecent y (d + length es) (reduce_all date_parse s es).recent_event_ids
  unfolding reduce_all
  reduce_all-IsRecent {y} d s [] h r = rw (add-zero d) r
  reduce_all-IsRecent {y} d s (e ∷ es) h r =
      let step =
        reduce_all-IsRecent (d + 1) (reduce_event date_parse s e) es (omega arith)
          (reduce_event-IsRecent s e (omega arith) r) in
      subst
        (λ k.
          IsRecent y k (reduce_all date_parse (reduce_event date_parse s e) es).recent_event_ids)
        (omega arith) step

  accepted-IsRecent :
      (s : ControlPlaneState) (e : EventEnvelope)
      → is_dropped date_parse s e ≡ false
      → IsRecent e.event_id 0 (reduce_event date_parse s e).recent_event_ids
  unfolding reduce_event
  accepted-IsRecent s e fresh =
      rw (fresh, accept_event-ids s e)
        (IsRecent-last max_event_ids e.event_id s.recent_event_ids (omega arith))

  is_dropped_of_recent :
      (s : ControlPlaneState) (e : EventEnvelope)
      → includes s.recent_event_ids e.event_id ≡ true
      → is_dropped date_parse s e ≡ true
  unfolding is_dropped
  is_dropped_of_recent s e h = rw h

  -- An accepted event that is delivered again, after fewer than 2000 further events of any kind,
  -- changes nothing, whatever those events did to the host's sequence number.
  pub reduce_event_redelivered :
      (s : ControlPlaneState) (e : EventEnvelope) (es : List EventEnvelope)
      → is_dropped date_parse s e ≡ false
      → length es < max_event_ids
      → let t = reduce_all date_parse (reduce_event date_parse s e) es in
        reduce_event date_parse t e ≡ t
  unfolding reduce_event
  reduce_event_redelivered s e es fresh h =
      let kept =
        reduce_all-IsRecent 0 (reduce_event date_parse s e) es (omega arith)
          (accepted-IsRecent s e fresh) in
      let t = reduce_all date_parse (reduce_event date_parse s e) es in
      rw (is_dropped_of_recent t e (IsRecent-includes kept))

-- ===== src/Agent/Controller/Numbering.antt =====
-- The events of one agent on their way to the view: how they are numbered, and which are accepted.
use steerloop.Common.{
  ℕ, zero, suc, ◌+◌, ◌-◌, Text, same, same_refl, List, [], ◌∷◌, ◌++◌, map, Option, Bool, true,
  false, leb, if_true, length, drop, slice_last, All, arith, ◌≡◌, refl, sym, ◌∙◌, subst,
}
use steerloop.Protocol.Schema.{NormalizedEvent, EventEnvelope}
use steerloop.Protocol.View.{ControlPlaneState, max_event_ids}
use steerloop.Protocol.State.{includes, last_sequence, is_dropped, accept_event, reduce_event}
use steerloop.Protocol.State.Replay.{accept_event-ids}
use steerloop.Protocol.State.Sequence.{last_sequence-accept_event}
use steerloop.Agent.RelayClient.{event, create, publish}
use steerloop.Agent.RelayClient.Queue.{publish_all}
use steerloop.Agent.Controller.{AgentController, emit}

-- What is asked of the factory: the random id, the time, the session and the event.
pub record Emission : Type 0 where
  pub id : Text
  pub now : Text
  pub session : Option Text
  pub event : NormalizedEvent

abbrev pub envelope : (host_id : Text) → ℕ → Emission → EventEnvelope
envelope host n m = record {
  event_id = m.id;
  sequence = n;
  host_id = host;
  session_id = m.session;
  emitted_at = m.now;
  event = m.event;
}

-- The events, numbered from the one after `n`.
abbrev pub numbered : (host_id : Text) → ℕ → List Emission → List EventEnvelope
numbered host n [] = []
numbered host n (m ∷ ms) = envelope host (n + 1) m ∷ numbered host (n + 1) ms

includes-snoc :
    (xs : List Text) (y z : Text)
    → includes xs z ≡ false
    → same y z ≡ false
    → includes (xs ++ y ∷ []) z ≡ false
unfolding includes
includes-snoc [] y z h g = ground (arith, g)
includes-snoc (x ∷ xs) y z h g = ground (arith, includes-snoc xs y z)

includes-drop :
    (n : ℕ) (xs : List Text) (z : Text) → includes xs z ≡ false → includes (drop n xs) z ≡ false
unfolding includes
includes-drop zero xs z h = h
includes-drop (suc n) [] z h = h
includes-drop (suc n) (x ∷ xs) z h = includes-drop n xs z (ground (arith, h))

-- No id was seen before, nor comes twice.
abbrev pub Fresh : List Text → List Emission → Type 0
Fresh seen [] = Unit
Fresh seen (m ∷ ms) =
    (includes seen m.id ≡ false) × All (λ o. same m.id o.id ≡ false) ms × Fresh seen ms

module _ (date_parse : Text → Option ℕ) where
  -- Every event is accepted when its turn comes.
  abbrev pub Accepted : ControlPlaneState → List EventEnvelope → Type 0
  Accepted s [] = Unit
  Accepted s (e ∷ es) =
      (is_dropped date_parse s e ≡ false) × Accepted (reduce_event date_parse s e) es

  Fresh-next :
      (s : ControlPlaneState) (e : EventEnvelope) (ms : List Emission)
      → All (λ o. same e.event_id o.id ≡ false) ms
      → Fresh s.recent_event_ids ms
      → Fresh (accept_event date_parse s e).recent_event_ids ms
  unfolding slice_last
  Fresh-next s e [] apart f = tt
  Fresh-next s e (m ∷ ms) apart f =
      let ids = s.recent_event_ids ++ e.event_id ∷ [] in
      let unseen =
        includes-drop (length ids - max_event_ids) ids m.id
          (includes-snoc s.recent_event_ids e.event_id m.id f.0 apart.0) in
      (rw (accept_event-ids date_parse s e) unseen, f.1, Fresh-next s e ms apart.1 f.2)

  not_dropped :
      (s : ControlPlaneState) (e : EventEnvelope)
      → includes s.recent_event_ids e.event_id ≡ false
      → leb e.sequence (last_sequence s e.host_id) ≡ false
      → is_dropped date_parse s e ≡ false
  unfolding is_dropped
  not_dropped s e unseen later = rw (unseen, later) refl

  reduce_event_accepted :
      (s : ControlPlaneState) (e : EventEnvelope)
      → is_dropped date_parse s e ≡ false
      → reduce_event date_parse s e ≡ accept_event date_parse s e
  unfolding reduce_event
  reduce_event_accepted s e kept = rw kept refl

  numbered-Accepted :
      (host : Text) (ms : List Emission) (s : ControlPlaneState) (n : ℕ)
      → last_sequence s host ≡ n
      → Fresh s.recent_event_ids ms
      → Accepted s (numbered host n ms)
  numbered-Accepted host [] s n last fresh = tt
  numbered-Accepted host (m ∷ ms) s n last fresh =
      let e = envelope host (n + 1) m in
      let t = accept_event date_parse s e in
      let kept = not_dropped s e fresh.0 (rw last (ground arith)) in
      let next : last_sequence t host ≡ n + 1 =
        last_sequence-accept_event date_parse s e host
        ∙ if_true (same host host) (n + 1) (last_sequence s host) (same_refl host) in
      (
        kept,
        subst (λ x. Accepted x (numbered host (n + 1) ms)) (sym (reduce_event_accepted s e kept))
            (numbered-Accepted host ms t (n + 1) next (Fresh-next s e ms fresh.1 fresh.2)),
      )

module _ (valid : EventEnvelope → Bool) where
  -- One emission after the other.
  abbrev pub emit_all : List Emission → AgentController → AgentController
  emit_all [] c = c
  emit_all (m ∷ ms) c = emit_all ms (emit valid m.id m.now m.session m.event c).0

  emit_lem :
      (m : Emission) (c : AgentController)
      → valid (envelope c.event_factory.host_id (c.event_factory.sequence + 1) m) ≡ true
      → (emit valid m.id m.now m.session m.event c).0 ≡ record c {
        event_factory = record c.event_factory { sequence = c.event_factory.sequence + 1 };
        relay =
            publish
              (event (envelope c.event_factory.host_id (c.event_factory.sequence + 1) m))
              c.relay;
      }
  unfolding emit create
  emit_lem m c good = rw good refl

  -- The controller has handed the events to its relay client, and used their numbers.
  abbrev pub Published : List Emission → AgentController → AgentController → Type 0
  Published ms c d =
      let f = c.event_factory in
      (d.relay ≡ publish_all (map event (numbered f.host_id f.sequence ms)) c.relay)
      × (d.event_factory.sequence ≡ f.sequence + length ms)

  emit_all_lem :
      (ms : List Emission) (c : AgentController)
      → All (λ e. valid e ≡ true) (numbered c.event_factory.host_id c.event_factory.sequence ms)
      → Published ms c (emit_all ms c)
  unfolding publish_all
  emit_all_lem [] c good = (refl, omega arith)
  emit_all_lem (m ∷ ms) c good =
      let f = c.event_factory in
      let e = envelope f.host_id (f.sequence + 1) m in
      let d : AgentController = record c {
        event_factory = record f { sequence = f.sequence + 1 };
        relay = publish (event e) c.relay;
      } in
      let rest = emit_all_lem ms d good.1 in
      subst (λ x. Published (m ∷ ms) c (emit_all ms x)) (sym (emit_lem m c good.0))
        (rest.0, rest.1 ∙ omega arith)

  -- Where the events meet their schema, the controller hands them to the relay client in the order of
  -- the emissions, numbered without a gap from where its factory stands. A view in which the factory's
  -- last number is the last of the host, and which has seen none of the ids, accepts each of them when
  -- it takes them in in that order, if no id comes twice.
  pub emitted_in_order :
      (date_parse : Text → Option ℕ) (ms : List Emission) (c : AgentController)
      (s : ControlPlaneState)
      → All (λ e. valid e ≡ true) (numbered c.event_factory.host_id c.event_factory.sequence ms)
      → last_sequence s c.event_factory.host_id ≡ c.event_factory.sequence
      → Fresh s.recent_event_ids ms
      → Published ms c (emit_all ms c)
        × Accepted date_parse s (numbered c.event_factory.host_id c.event_factory.sequence ms)
  emitted_in_order date_parse ms c s good last fresh =
      let f = c.event_factory in
      (emit_all_lem ms c good, numbered-Accepted date_parse f.host_id ms s f.sequence last fresh)

-- ===== src/Protocol/State/Sequence.antt =====
-- packages/protocol/src/state.ts: the order in which a host's events take effect.
use steerloop.Common.{
  ℕ, subst, ◌≤◌, ◌<◌, Text, same, same→eq, same_refl, Bool-cases, inl, inr, List, [], ◌∷◌, Option,
  false, if◌then◌else◌, or_else, arith, ◌≡◌, ap, lookup, lookup-insert, All,
}
use steerloop.Protocol.Schema.{EventEnvelope}
use steerloop.Protocol.View.{ControlPlaneState}
use steerloop.Protocol.State.{
  is_host_connected, last_sequence, note_event, host_restarted, is_dropped, accept_event,
  reduce_event, reduce_all,
}
use steerloop.Protocol.State.Replay.{accept_event-log}

module _ (date_parse : Text → Option ℕ) where
  pub last_sequence-accept_event :
      (s : ControlPlaneState) (e : EventEnvelope) (h : Text)
      → last_sequence (accept_event date_parse s e) h
        ≡ (if same e.host_id h then e.sequence else last_sequence s h)
  unfolding note_event
  last_sequence-accept_event s e h =
      let log = ap (λ p. or_else (lookup h p.0) 0) (accept_event-log date_parse s e) in
      ground (arith, log, lookup-insert e.host_id h e.sequence s.last_sequence_by_host)

  -- Without a restart an event is accepted only with a number above the last one.
  accepted_above :
      (s : ControlPlaneState) (e : EventEnvelope)
      → is_host_connected e.event ≡ false
      → is_dropped date_parse s e ≡ false
      → last_sequence s e.host_id < e.sequence
  unfolding is_dropped host_restarted
  accepted_above s e c h = ground arith

  -- The event is not a `host.connected` of the host `h`, with which a host may start its numbers again.
  abbrev pub IsOrdinary : Text → EventEnvelope → Type 0
  IsOrdinary h e = e.host_id ≡ h → is_host_connected e.event ≡ false

  reduce_event-last_sequence_mono :
      (s : ControlPlaneState) (e : EventEnvelope) (h : Text)
      → IsOrdinary h e
      → last_sequence s h ≤ last_sequence (reduce_event date_parse s e) h
  unfolding reduce_event
  reduce_event-last_sequence_mono s e h c = elim (Bool-cases (same e.host_id h)) [
    | inl own ↦
        let is = same→eq e.host_id h own in
        let above : is_dropped date_parse s e ≡ false → last_sequence s h < e.sequence = λ fresh.
          subst (λ k. last_sequence s k < e.sequence) is (accepted_above s e (c is) fresh) in
        ground (arith, last_sequence-accept_event s e h, above, own)
    | inr other ↦ ground (arith, last_sequence-accept_event s e h, other)
  ]

  last_sequence-reduce_all_mono :
      (s : ControlPlaneState) (es : List EventEnvelope) (h : Text)
      → All (IsOrdinary h) es
      → last_sequence s h ≤ last_sequence (reduce_all date_parse s es) h
  unfolding reduce_all
  last_sequence-reduce_all_mono s [] h a = omega arith
  last_sequence-reduce_all_mono s (e ∷ es) h a = omega (
    arith,
    reduce_event-last_sequence_mono s e h a.0,
    last_sequence-reduce_all_mono (reduce_event date_parse s e) es h a.1,
  )

  -- Where no connection event of a host comes between two accepted events of it, and the later one is
  -- none, their sequence numbers strictly increase, whatever else arrives between them.
  pub accepted_in_order :
      (s : ControlPlaneState) (e f : EventEnvelope) (es : List EventEnvelope)
      → is_dropped date_parse s e ≡ false
      → All (IsOrdinary e.host_id) es
      → is_host_connected f.event ≡ false
      → f.host_id ≡ e.host_id
      → is_dropped date_parse (reduce_all date_parse (reduce_event date_parse s e) es) f ≡ false
      → e.sequence < f.sequence
  unfolding reduce_event
  accepted_in_order s e f es fresh plain c same_host later =
      let t = reduce_event date_parse s e in
      let noted : last_sequence t e.host_id ≡ e.sequence =
        rw fresh (ground (arith, last_sequence-accept_event s e e.host_id, same_refl e.host_id)) in
      let above = accepted_above (reduce_all date_parse t es) f c later in
      omega (
        arith,
        noted,
        last_sequence-reduce_all_mono t es e.host_id plain,
        subst (λ h. last_sequence (reduce_all date_parse t es) h < f.sequence) same_host above,
      )

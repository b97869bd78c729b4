-- ===== src/Protocol/State/Approvals.antt =====
-- packages/protocol/src/state.ts: the life of an approval in the view.
use steerloop.Common.{
  ℕ, Text, same, same_refl, Option, none, some, false, if◌then◌else◌, Assoc, Every, or_else,
  Option-cases, inl, inr, arith, ◌≡◌, ◌≢◌, refl, lookup, insert, lookup-insert, lookup-Every, ap,
  ◌∙◌,
}
use steerloop.Protocol.Schema.{
  SessionStatus, ApprovalDecision, ApprovalRequested, ApprovalResolved, approval_requested,
  approval_resolved, EventEnvelope,
}
use steerloop.Protocol.View.{
  SessionView, ApprovalView, resolved, ControlPlaneState, placeholder_session,
}
use steerloop.Protocol.Handlers.{
  is_waiting, is_approved, requested_approval, existing_session, on_approval_requested,
  resume_session, on_approval_resolved,
}
use steerloop.Protocol.State.{note_event, is_dropped, reduce_event}
use steerloop.Protocol.State.Writes.{IsSession, IsApproval, WellFormed, put_approval-WellFormed}
use steerloop.Protocol.State.Invariant.{note_event-WellFormed}
use steerloop.Protocol.State.Steps.{reduce_event_plain}

-- What a decision makes of the session that asked for it: it runs on only if it was waiting and
-- the decision is to approve once.
abbrev pub resumed : EventEnvelope → ApprovalDecision → SessionView → SessionView
resumed e d v =
    if is_waiting v.status
    then record v {
      status = if is_approved d then SessionStatus.running else SessionStatus.interrupted;
      updated_at = e.emitted_at;
    }
    else v

abbrev pub resumed? : EventEnvelope → ApprovalDecision → Option SessionView → Option SessionView
resumed? e d none = none
resumed? e d (some v) = some (resumed e d v)

resume_session-lookup :
    (e : EventEnvelope) (d : ApprovalDecision) (id j : Text) (s : ControlPlaneState)
    → WellFormed s
    → lookup j (resume_session e d id s).sessions
      ≡ (if same id j then resumed? e d (lookup j s.sessions) else lookup j s.sessions)
unfolding resume_session
resume_session-lookup e d id j s w = elim (Option-cases (lookup id s.sessions)) [
  | inl missing ↦ ground (arith, missing)
  | inr (v, found) ↦
      let v_ok = lookup-Every IsSession id s.sessions v found w.sessions in
      ground (arith, found, v_ok.id, lookup-insert v.id j (resumed e d v) s.sessions)
]

resume_session-approvals :
    (e : EventEnvelope) (d : ApprovalDecision) (id : Text) (s : ControlPlaneState)
    → (resume_session e d id s).approvals ≡ s.approvals
unfolding resume_session
resume_session-approvals e d id s = ground arith

on_approval_resolved-lookup :
    (e : EventEnvelope) (p : ApprovalResolved) (s : ControlPlaneState) (a : ApprovalView)
    → lookup p.approval_id s.approvals ≡ some a
    → a.id ≡ p.approval_id
    → WellFormed s
    → let t = on_approval_resolved e p s in
      ((j : Text)
        → lookup j t.approvals ≡ (
            if same p.approval_id j
            then some (record a { status = resolved p.decision; resolved_at = some p.resolved_at })
            else lookup j s.approvals))
      × ((j : Text)
          → lookup j t.sessions ≡ (
              if same a.session_id j
              then resumed? e p.decision (lookup j s.sessions)
              else lookup j s.sessions))
unfolding on_approval_resolved
on_approval_resolved-lookup e p s a found id w =
    let b = record a { status = resolved p.decision; resolved_at = some p.resolved_at } in
    let s' = record s { approvals = insert a.id b s.approvals } in
    rw (found, on_approval_resolved)
      (
        λ j.
            ap (lookup j) (resume_session-approvals e p.decision a.session_id s')
            ∙ ground (arith, id, lookup-insert a.id j b s.approvals),
        λ j.
            resume_session-lookup e p.decision a.session_id j s'
              (put_approval-WellFormed s a.id b (record { id = refl; resolution = refl }) w),
      )

abbrev found_or_made : EventEnvelope → Text → Assoc SessionView → SessionView
found_or_made e id m = or_else (lookup id m) (placeholder_session e id)

found_or_made-id :
    (e : EventEnvelope) (id : Text) (m : Assoc SessionView)
    → Every IsSession m
    → (found_or_made e id m).id ≡ id
unfolding placeholder_session
found_or_made-id e id m h = elim (Option-cases (lookup id m)) [
  | inl missing ↦ rw missing
  | inr (v, found) ↦ rw found (lookup-Every IsSession id m v found h).id
]

module _ (date_parse : Text → Option ℕ) (s : ControlPlaneState) (w : WellFormed s)
    (e : EventEnvelope) (fresh : is_dropped date_parse s e ≡ false) where
  -- A resolution that is accepted sets the decision and its time on the approval that it names, and
  -- on no other. The session of that approval, if it was waiting, runs on after `approve_once` and
  -- is interrupted after any other decision; every other session stays as it was.
  pub reduce_event_resolved :
      (p : ApprovalResolved) (a : ApprovalView)
      → e.event ≡ approval_resolved p
      → lookup p.approval_id s.approvals ≡ some a
      → let t = reduce_event date_parse s e in
        ((j : Text)
          → lookup j t.approvals ≡ (
              if same p.approval_id j
              then some
                  (record a { status = resolved p.decision; resolved_at = some p.resolved_at })
              else lookup j s.approvals))
        × ((j : Text)
            → lookup j t.sessions ≡ (
                if same a.session_id j
                then resumed? e p.decision (lookup j s.sessions)
                else lookup j s.sessions))
  unfolding note_event
  reduce_event_resolved p a is found =
      rw (reduce_event_plain date_parse s e (approval_resolved p) is refl fresh) (
        on_approval_resolved-lookup e p (note_event s e) a found
          (lookup-Every IsApproval p.approval_id s.approvals a found w.approvals).id
          (note_event-WellFormed e s w))

  -- A request that is accepted stores a pending approval with the fields of the request, in place of
  -- any with its id, and leaves the other approvals; the session is waiting for approval.
  pub reduce_event_requested :
      (p : ApprovalRequested) (id : Text)
      → e.event ≡ approval_requested p
      → e.session_id ≡ some id
      → let t = reduce_event date_parse s e in
        ((j : Text)
          → lookup j t.approvals ≡ (
              if same p.approval_id j
              then some (requested_approval e p id)
              else lookup j s.approvals))
        × ((v : SessionView) × (lookup id t.sessions ≡ some v)
            × (v.status ≡ SessionStatus.waiting_approval))
        × ((j : Text) → j ≢ id → lookup j t.sessions ≡ lookup j s.sessions)
  unfolding note_event on_approval_requested existing_session
  reduce_event_requested p id is named =
      let v = found_or_made e id s.sessions in
      let v_id = found_or_made-id e id s.sessions w.sessions in
      rw (reduce_event_plain date_parse s e (approval_requested p) is refl fresh, named)
        (
          λ j. lookup-insert p.approval_id j (requested_approval e p id) s.approvals,
          (
            record v { status = SessionStatus.waiting_approval; updated_at = e.emitted_at },
            ground (
              arith,
              v_id,
              same_refl id,
              lookup-insert v.id id
                  (record v { status = SessionStatus.waiting_approval; updated_at = e.emitted_at })
                  s.sessions,
            ),
            refl,
          ),
          λ j other. ground (
            arith,
            other,
            v_id,
            lookup-insert v.id j
                (record v { status = SessionStatus.waiting_approval; updated_at = e.emitted_at })
                s.sessions,
          ),
        )

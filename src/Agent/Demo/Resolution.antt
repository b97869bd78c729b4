-- ===== src/Agent/Demo/Resolution.antt =====
-- Decisions on the demo approval.
use steerloop.Common.{
  ℕ, Text, text, same, same→eq, List, [], ◌∷◌, ◌++◌, Option, none, some, Bool, true, false, leb,
  Bool-cases, ◌⊎◌, inl, inr, ◌≡◌, refl,
}
use mathlib.Core.List.{append-nil}
use steerloop.Common.Effects.{Outcome, ok, throws}
use steerloop.Protocol.Schema.{
  ApprovalDecision, NormalizedEvent, approval_resolved, ApprovalResolve, SessionStatus,
  ActivityKind,
}
use steerloop.Agent.Demo.{
  PendingApproval, Timer, completes, DemoAdapter, emit, activity, status, after_decision,
  resolve_pending, resolve_approval,
}

abbrev pub resolved_event :
    (iso : ℕ → Text) → ℕ → PendingApproval → ApprovalDecision → NormalizedEvent
resolved_event iso now a d =
    approval_resolved (record { approval_id = a.id; decision = d; resolved_at = iso now })

-- What follows a decision: the checks run, or the session is interrupted.
abbrev pub follow_up : (activity_id : Text) → ApprovalDecision → NormalizedEvent
follow_up id ApprovalDecision.approve_once =
    activity id ActivityKind.test (text "Running type checks, tests, and builds")
      (some (text "npm run check"))
follow_up id _ = status SessionStatus.interrupted (text "The requested command was not approved")

abbrev pub follow_up_timers : ApprovalDecision → List Timer
follow_up_timers ApprovalDecision.approve_once = completes ∷ []
follow_up_timers _ = []

abbrev pub resolved_adapter :
    (iso : ℕ → Text)
    → ℕ
    → (activity_id : Text) → PendingApproval
    → ApprovalDecision
    → DemoAdapter
    → DemoAdapter
resolved_adapter iso now id a d s = record s {
  pending = none;
  emitted =
      (s.emitted ++ (s.session_id, resolved_event iso now a d) ∷ [])
      ++ (s.session_id, follow_up id d) ∷ [];
  timers = s.timers ++ follow_up_timers d;
}

module _ (accepts : Text → NormalizedEvent → Bool) (iso : ℕ → Text) where
  emit-accepted :
      (s : DemoAdapter) (h : Text) (e : NormalizedEvent)
      → s.context ≡ some h
      → accepts s.session_id e ≡ true
      → emit accepts e s ≡ (record s { emitted = s.emitted ++ (s.session_id, e) ∷ [] }, ok tt)
  unfolding emit
  emit-accepted s h e c a = rw (c, a) refl

  after_decision_lem :
      (s : DemoAdapter) (h id : Text) (d : ApprovalDecision)
      → s.context ≡ some h
      → ((e : NormalizedEvent) → accepts s.session_id e ≡ true)
      → after_decision accepts d id s ≡ (
        record s {
          emitted = s.emitted ++ (s.session_id, follow_up id d) ∷ [];
          timers = s.timers ++ follow_up_timers d;
        },
        ok tt,
      )
  after_decision_lem s h id ApprovalDecision.approve_once c a =
      rw (emit-accepted s h (follow_up id ApprovalDecision.approve_once) c (a _)) refl
  after_decision_lem s h id ApprovalDecision.decline c a =
      rw (append-nil s.timers) (emit-accepted s h (follow_up id ApprovalDecision.decline) c (a _))
  after_decision_lem s h id ApprovalDecision.cancel c a =
      rw (append-nil s.timers) (emit-accepted s h (follow_up id ApprovalDecision.cancel) c (a _))

  -- Nothing is emitted or scheduled.
  abbrev pub Refused : DemoAdapter → DemoAdapter × Outcome (Unit {0}) → Type 0
  Refused s t =
      (error : Text) × (t.1 ≡ throws error) × (t.0.emitted ≡ s.emitted) × (t.0.timers ≡ s.timers)

  -- The pending approval is the one that the command names, by its id and digest, and has not expired;
  -- it is resolved, and no approval is left to resolve.
  pub record Resolved (now : ℕ) (id : Text) (p : ApprovalResolve) (s : DemoAdapter)
      (t : DemoAdapter × Outcome (Unit {0})) : Type 0 where
    pub approval : PendingApproval
    pub was_pending : s.pending ≡ some approval
    pub unexpired : leb approval.expires_at now ≡ false
    pub same_id : p.approval_id ≡ approval.id
    pub same_digest : p.request_digest ≡ approval.digest
    pub effect : t ≡ (resolved_adapter iso now id approval p.decision s, ok tt)

  resolve_pending_lem :
      (now : ℕ) (id : Text) (p : ApprovalResolve) (s : DemoAdapter) (h : Text)
      (o : Option PendingApproval)
      → s.context ≡ some h
      → ((e : NormalizedEvent) → accepts s.session_id e ≡ true)
      → s.pending ≡ o
      → let t = resolve_pending accepts iso now id p o s in Refused s t ⊎ Resolved now id p s t
  resolve_pending_lem now id p s h none c a e =
      inl (text "No approval is pending", refl, refl, refl)
  resolve_pending_lem now id p s h (some x) c a e = elim (Bool-cases (leb x.expires_at now)) [
    | inl over ↦ rw over (inl (text "Approval request has expired", refl, refl, refl))
    | inr live ↦ elim (Bool-cases (same p.approval_id x.id)) [
      | inr other ↦
          rw (live, other) (inl (text "Approval request digest mismatch", refl, refl, refl))
      | inl own ↦ elim (Bool-cases (same p.request_digest x.digest)) [
        | inr other ↦
            rw (live, own, other) (inl (text "Approval request digest mismatch", refl, refl, refl))
        | inl bound ↦ inr (record {
          approval = x;
          was_pending = e;
          unexpired = live;
          same_id = same→eq p.approval_id x.id own;
          same_digest = same→eq p.request_digest x.digest bound;
          effect =
              let s1 = record s { pending = none } in
              let r = resolved_event iso now x p.decision in
              let s2 = record s1 { emitted = s.emitted ++ (s.session_id, r) ∷ [] } in
              rw (live, own, bound, emit-accepted s1 h r c (a r))
                (after_decision_lem s2 h id p.decision c a);
        })
      ]
    ]
  ]

  -- Where the context takes every event, a decision is refused without an event, or it resolves the
  -- pending approval that it names, which has not expired; any further decision is then refused and
  -- changes nothing.
  pub resolve_once :
      (now : ℕ) (id : Text) (p : ApprovalResolve) (s : DemoAdapter) (h : Text) (later : ℕ)
      (id' : Text) (p' : ApprovalResolve)
      → s.context ≡ some h
      → ((e : NormalizedEvent) → accepts s.session_id e ≡ true)
      → let t = resolve_approval accepts iso now id p s in
        Refused s t
        ⊎ Resolved now id p s t
          × (resolve_approval accepts iso later id' p' t.0
              ≡ (t.0, throws (text "No approval is pending")))
  unfolding resolve_approval
  resolve_once now id p s h later id' p' c a =
      elim (resolve_pending_lem now id p s h s.pending c a refl) [
        | inl no_event ↦ inl no_event
        | inr done ↦ inr (done, rw done.effect refl)
      ]

-- ===== src/Agent/Codex/Approvals.antt =====
-- What a decision on a Codex approval does.
use steerloop.Common.{
  ℕ, Text, text, same, same→eq, same_refl, [], ◌∷◌, ◌++◌, Option, none, some, Bool, true, false,
  leb, if◌then◌else◌, Bool-cases, ◌⊎◌, inl, inr, ◌≡◌, refl, ap, ◌∙◌, lookup, remove, lookup-remove,
  Keyed, lookup-Every, if_true,
}
use steerloop.Common.Json.{Json}
use steerloop.Common.Effects.{Outcome, ok, throws}
use steerloop.Protocol.Schema.{NormalizedEvent, approval_resolved, ApprovalResolve}
use steerloop.Agent.AppServer.{AppServer, response, respond, write}
use steerloop.Agent.Codex.Adapter.{
  PendingCodexApproval, CodexAdapter, emit, resolve_pending, resolve_approval, decision_result,
}

abbrev resolved_event :
    (iso : ℕ → Text) → ℕ → PendingCodexApproval → ApprovalResolve → NormalizedEvent
resolved_event iso now a p =
    approval_resolved
      (record { approval_id = a.approval_id; decision = p.decision; resolved_at = iso now })

-- The decision is written, and the event that tells of it is emitted where the context takes it.
abbrev pub answered_adapter :
    (taken : Bool) (iso : ℕ → Text)
    → ℕ
    → (session_id : Text) → PendingCodexApproval
    → ApprovalResolve
    → CodexAdapter
    → CodexAdapter
answered_adapter taken iso now session_id a p s = record s {
  pending_approvals = remove a.approval_id s.pending_approvals;
  client = record s.client {
    written =
        s.client.written
        ++ response a.request_id (decision_result a.kind p.decision a.requested_permissions) ∷ [];
  };
  emitted =
      if taken then s.emitted ++ (some session_id, resolved_event iso now a p) ∷ [] else s.emitted;
}

abbrev pub emit_outcome : (taken : Bool) → Outcome (Unit {0})
emit_outcome true = ok tt
emit_outcome false = throws (text "Invalid event")

-- The decision is refused: Codex is told nothing and nothing is emitted. Only an approval that has
-- expired is forgotten.
abbrev pub Refused : ℕ → ApprovalResolve → CodexAdapter → CodexAdapter × Outcome (Unit {0}) → Type 0
Refused now p s t =
    ((error : Text) × (t.1 ≡ throws error))
    × (t.0.client ≡ s.client)
    × (t.0.emitted ≡ s.emitted)
    × ((t.0.pending_approvals ≡ s.pending_approvals)
        ⊎ ((a : PendingCodexApproval) × (lookup p.approval_id s.pending_approvals ≡ some a)
            × (leb a.expires_at now ≡ true)
            × (t.0.pending_approvals ≡ remove p.approval_id s.pending_approvals)))

-- The approval that the decision names is pending, of the same session and digest, and has not expired;
-- its request is answered with the decision, also where the event that tells of it throws.
pub record Answered (accepts : Option Text → NormalizedEvent → Bool) (iso : ℕ → Text) (now : ℕ)
    (session_id : Text) (p : ApprovalResolve) (s : CodexAdapter)
    (t : CodexAdapter × Outcome (Unit {0})) : Type 0 where
  pub approval : PendingCodexApproval
  pub was_pending : lookup p.approval_id s.pending_approvals ≡ some approval
  pub same_id : approval.approval_id ≡ p.approval_id
  pub same_session : approval.session_id ≡ session_id
  pub same_digest : approval.digest ≡ p.request_digest
  pub unexpired : leb approval.expires_at now ≡ false
  pub effect :
      let taken = accepts (some session_id) (resolved_event iso now approval p) in
      t ≡ (answered_adapter taken iso now session_id approval p s, emit_outcome taken)

pub emit-accepted :
    (accepts : Option Text → NormalizedEvent → Bool) (i : Option Text) (e : NormalizedEvent)
    (s : CodexAdapter) (h : Text)
    → s.context ≡ some h
    → accepts i e ≡ true
    → emit accepts i e s ≡ (record s { emitted = s.emitted ++ (i, e) ∷ [] }, ok tt)
unfolding emit
emit-accepted accepts i e s h c a = rw (c, a) refl

emit_started :
    (accepts : Option Text → NormalizedEvent → Bool) (i : Option Text) (e : NormalizedEvent)
    (s : CodexAdapter) (h : Text)
    → s.context ≡ some h
    → let taken = accepts i e in
      emit accepts i e s ≡ (
        record s { emitted = if taken then s.emitted ++ (i, e) ∷ [] else s.emitted },
        emit_outcome taken,
      )
unfolding emit
emit_started accepts i e s h c = elim (Bool-cases (accepts i e)) [
  | inl good ↦ rw (c, good) refl
  | inr bad ↦ rw (c, bad) refl
]

respond_running :
    (id result : Json) (c : AppServer)
    → c.running ≡ true
    → respond id result c ≡ (record c { written = c.written ++ response id result ∷ [] }, ok tt)
unfolding respond write
respond_running id result c h = rw h refl

module _ (accepts : Option Text → NormalizedEvent → Bool) (iso : ℕ → Text) (now : ℕ)
    (session_id : Text) (p : ApprovalResolve) (s : CodexAdapter) (h : Text)
    (started : s.context ≡ some h) (running : s.client.running ≡ true) where
  answered_lem :
      (a : PendingCodexApproval)
      → same a.session_id session_id ≡ true
      → leb a.expires_at now ≡ false
      → same a.digest p.request_digest ≡ true
      → resolve_pending accepts iso now session_id p (some a) s ≡ (
          let taken = accepts (some session_id) (resolved_event iso now a p) in
          (answered_adapter taken iso now session_id a p s, emit_outcome taken))
  answered_lem a own live bound =
      let result = decision_result a.kind p.decision a.requested_permissions in
      let s1 = record s {
        pending_approvals = remove a.approval_id s.pending_approvals;
        client = record s.client {
          written = s.client.written ++ response a.request_id result ∷ [];
        };
      } in
      let e = resolved_event iso now a p in
      rw (own, live, bound, respond_running a.request_id result s.client running)
        (emit_started accepts (some session_id) e s1 h started)

  resolve_pending_lem :
      (o : Option PendingCodexApproval)
      → lookup p.approval_id s.pending_approvals ≡ o
      → Keyed (λ a. a.approval_id) s.pending_approvals
      → let t = resolve_pending accepts iso now session_id p o s in
        Refused now p s t ⊎ Answered accepts iso now session_id p s t
  resolve_pending_lem none e keyed =
      inl ((text "Approval is no longer pending", refl), refl, refl, inl refl)
  resolve_pending_lem (some a) e keyed =
      let id =
        lookup-Every (λ k v. v.approval_id ≡ k) p.approval_id s.pending_approvals a e keyed in
      elim (Bool-cases (same a.session_id session_id)) [
        | inr other ↦
            rw other (inl ((text "Approval session mismatch", refl), refl, refl, inl refl))
        | inl own ↦ elim (Bool-cases (leb a.expires_at now)) [
          | inl over ↦
              rw (own, over)
                (inl (
                  (text "Approval request has expired", refl),
                  refl,
                  refl,
                  inr (a, e, over, ap (λ k. remove k s.pending_approvals) id),
                ))
          | inr live ↦ elim (Bool-cases (same a.digest p.request_digest)) [
            | inr other ↦
                rw (own, live, other)
                  (inl ((text "Approval request digest mismatch", refl), refl, refl, inl refl))
            | inl bound ↦ inr (record {
              approval = a;
              was_pending = e;
              same_id = id;
              same_session = same→eq a.session_id session_id own;
              same_digest = same→eq a.digest p.request_digest bound;
              unexpired = live;
              effect = answered_lem a own live bound;
            })
          ]
        ]
      ]

  -- Where the adapter is started, its process runs and each approval is stored under its own id, a
  -- decision is refused, with nothing written to Codex, no event and no approval forgotten but one that
  -- has expired, or it answers the approval it names, which is of the same session and digest and has
  -- not expired, with an error only where the context refuses the event that tells of it. Any further
  -- decision on an approval that was answered is refused and changes nothing.
  pub answer_once :
      (later : ℕ) (session_id' : Text) (p' : ApprovalResolve)
      → Keyed (λ a. a.approval_id) s.pending_approvals
      → p'.approval_id ≡ p.approval_id
      → let t = resolve_approval accepts iso now session_id p s in
        Refused now p s t
        ⊎ Answered accepts iso now session_id p s t
          × (resolve_approval accepts iso later session_id' p' t.0
              ≡ (t.0, throws (text "Approval is no longer pending")))
  unfolding resolve_approval
  answer_once later session_id' p' keyed again =
      elim (resolve_pending_lem (lookup p.approval_id s.pending_approvals) refl keyed) [
        | inl refused ↦ inl refused
        | inr done ↦
            let gone : lookup p'.approval_id (remove done.approval.approval_id s.pending_approvals)
                ≡ none =
              rw (again, done.same_id)
                (lookup-remove p.approval_id p.approval_id s.pending_approvals
                  ∙ if_true (same p.approval_id p.approval_id) none _ (same_refl p.approval_id)) in
            inr (done, rw (done.effect, gone) refl)
      ]

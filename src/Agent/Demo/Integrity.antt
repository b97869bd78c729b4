-- ===== src/Agent/Demo/Integrity.antt =====
-- The demo request in the browser: what its digest binds, and what it shows.
use steerloop.Common.{
  ℕ, ◌+◌, ◌*◌, Text, text, [], ◌∷◌, ◌++◌, Option, some, Bool, true, false, ◌&&◌, ltb, arith, ◌≡◌,
  ◌≢◌, refl, sym, ap, ◌∙◌, lookup,
}
use steerloop.Protocol.Schema.{
  NormalizedEvent, approval_requested, ApprovalRequested, EventEnvelope,
}
use steerloop.Protocol.Approval.{canonicalize_approval}
use steerloop.Protocol.Approval.Binding.{canonicalize_approval_reason}
use steerloop.Protocol.View.{ApprovalView, ControlPlaneState}
use steerloop.Protocol.State.{is_dropped, reduce_event}
use steerloop.Protocol.State.Writes.{WellFormed}
use steerloop.Protocol.Handlers.{requested_approval}
use steerloop.Web.Integrity.{
  invalid, requested_material, verify_approval_integrity, verify_requested_invalid, shown_requested,
}
use steerloop.Agent.Demo.{DemoAdapter, request_material, request_payload, request_approval, emit}

unfoldable pub is_ascii : Text → Bool
is_ascii [] = true
is_ascii (c ∷ s) = ltb c 128 && is_ascii s

-- The unit that tells the two reasons apart.
abbrev sixth : Text → ℕ
sixth (a ∷ b ∷ c ∷ d ∷ e ∷ f ∷ s) = f
sixth _ = 0

reasons_apart :
    text "Run the repository quality gates before completing the milestone"
    ≢ text "Run tests, type checking, and production builds"
reasons_apart h =
    let e : sixth (text "Run the repository quality gates before completing the milestone")
        ≡ sixth (text "Run tests, type checking, and production builds") =
      ap sixth h in
    ground (arith, e)

module _ (nfc hash : Text → Text) (iso : ℕ → Text) (id : Text) (now : ℕ) where
  abbrev pub demo_request : ApprovalRequested
  demo_request =
      request_payload id (hash (canonicalize_approval nfc (request_material id)))
        (iso (now + 5 * 60000))

  -- The text under the digest, and the text of what is shown.
  abbrev pub bound_text : Text
  bound_text = canonicalize_approval nfc (request_material id)

  abbrev pub shown_text : Text
  shown_text = requested_material nfc demo_request

  -- Normalization leaves texts of ASCII as they are.
  abbrev pub KeepsAscii : Type 0
  KeepsAscii = (t : Text) → is_ascii t ≡ true → nfc t ≡ t

  texts_apart : KeepsAscii → bound_text ≢ shown_text
  unfolding is_ascii
  texts_apart keeps h =
      let bound = text "Run the repository quality gates before completing the milestone" in
      let shown = text "Run tests, type checking, and production builds" in
      let same = canonicalize_approval_reason nfc (request_material id) bound shown h in
      reasons_apart (sym (keeps bound refl) ∙ same ∙ keeps shown refl)

  -- The demo adapter asks for its approval with one event. Where normalization keeps ASCII, and the
  -- texts under the digest and of what is shown do not have one digest unless they are one text, a
  -- browser that takes the event in shows the request, and finds it invalid.
  pub demo_request_invalid :
      (accepts : Text → NormalizedEvent → Bool) (d : DemoAdapter) (h : Text)
      (date_parse : Text → Option ℕ) (s : ControlPlaneState) (e : EventEnvelope)
      → d.context ≡ some h
      → accepts d.session_id (approval_requested demo_request) ≡ true
      → WellFormed s
      → is_dropped date_parse s e ≡ false
      → e.event ≡ approval_requested demo_request
      → e.session_id ≡ some d.session_id
      → KeepsAscii
      → (hash bound_text ≡ hash shown_text → bound_text ≡ shown_text)
      → ((request_approval accepts nfc hash iso id now d).0.emitted
          ≡ d.emitted ++ (d.session_id, approval_requested demo_request) ∷ [])
        × ((a : ApprovalView) × (lookup id (reduce_event date_parse s e).approvals ≡ some a)
            × (verify_approval_integrity nfc (some hash) a ≡ invalid))
  unfolding request_approval emit
  demo_request_invalid accepts d h date_parse s e started taken w fresh is named keeps tells = (
    rw (started, taken) refl,
    (
      requested_approval e demo_request d.session_id,
      shown_requested nfc date_parse s e demo_request d.session_id w fresh is named,
      verify_requested_invalid nfc hash e demo_request d.session_id
          (λ one. texts_apart keeps (tells one)),
    ),
  )

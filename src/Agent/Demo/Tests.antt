-- ===== src/Agent/Demo/Tests.antt =====
-- The demo adapter on concrete commands, and each theorem at such an input.
use steerloop.Common.{
  ℕ, Text, text, text_dec, [], ◌∷◌, ◌++◌, Option, none, some, Bool, true, false, ◌≡◌, ◌≢◌, refl,
  sym, ap, ◌∙◌, arith, length, lookup, insert, slice_last,
}
use steerloop.Common.Effects.{throws}
use steerloop.Protocol.Schema.{
  ApprovalDecision, ApprovalResolve, NormalizedEvent, approval_requested, EventEnvelope,
}
use steerloop.Protocol.Approval.{
  canonicalize_approval, quote_unit, quote_units, quote, quote_optional, join_quoted, quote_list,
  join_fields, quote_object, text_le, insert_sorted, sort, kind_text, normalized_optional,
}
use steerloop.Protocol.View.{ApprovalView, create_empty_state}
use steerloop.Protocol.State.{
  includes, host_restarted, is_dropped, reduce_event, reduce_all, reduce_events,
}
use steerloop.Protocol.State.Invariant.{reduce_events-WellFormed}
use steerloop.Protocol.State.Writes.{WellFormed}
use steerloop.Web.Integrity.{invalid, requested_material, verify_approval_integrity}
use steerloop.Agent.Demo.{
  DemoAdapter, new_adapter, request_material, request_approval, resolve_approval, emit,
}
use steerloop.Agent.Demo.Integrity.{demo_request, demo_request_invalid}

demo_adapter : Unit {0}
unfolding text_dec lookup insert slice_last includes host_restarted is_dropped canonicalize_approval
    quote_unit quote_units quote quote_optional join_quoted quote_list join_fields quote_object
    text_le insert_sorted sort kind_text normalized_optional create_empty_state reduce_all
    reduce_events emit resolve_approval
demo_adapter = tt

abbrev waiting : DemoAdapter
waiting = record new_adapter {
  context = some (text "h");
  session_id = text "demo-h";
  pending = some (record { id = text "a"; digest = text "d"; expires_at = 100 });
}

abbrev decision : ApprovalResolve
decision = record {
  approval_id = text "a";
  request_digest = text "d";
  decision = ApprovalDecision.approve_once;
  authorization = none;
}

abbrev iso : ℕ → Text
iso n = n ∷ []

abbrev takes_all : Text → NormalizedEvent → Bool
takes_all session_id e = true

waiting_tests :
    ((resolve_approval takes_all iso 99 (text "t") decision waiting).0.pending ≡ none)
    × ((resolve_approval takes_all iso 100 (text "t") decision waiting).1
        ≡ throws (text "Approval request has expired"))
unfolding demo_adapter
waiting_tests = (refl, refl)

-- A digest that is as long as its text.
abbrev hash : Text → Text
hash t = length t ∷ []

abbrev nfc : Text → Text
nfc t = t

abbrev clock : Text → Option ℕ
clock t = some (length t)

abbrev asking : EventEnvelope
asking = record {
  event_id = text "e";
  sequence = 1;
  host_id = text "h";
  session_id = some (text "demo-h");
  emitted_at = text "1";
  event = approval_requested (demo_request nfc hash iso (text "a") 0);
}

empty-WellFormed : WellFormed create_empty_state
unfolding demo_adapter
empty-WellFormed = reduce_events-WellFormed clock []

asking_fresh : is_dropped clock create_empty_state asking ≡ false
unfolding demo_adapter
asking_fresh = refl

abbrev first : Text → ℕ
first [] = 0
first (c ∷ s) = c

digests :
    (hash (canonicalize_approval nfc (request_material (text "a"))) ≡ 251 ∷ [])
    × (hash (requested_material nfc (demo_request nfc hash iso (text "a") 0)) ≡ 234 ∷ [])
unfolding demo_adapter
digests = (refl, refl)

digest_apart :
    hash (canonicalize_approval nfc (request_material (text "a")))
    ≢ hash (requested_material nfc (demo_request nfc hash iso (text "a") 0))
digest_apart h =
    let e : 251 ≡ 234 = ap first (sym digests.0 ∙ h ∙ digests.1) in absurd (omega (arith, e))

demo_request_invalid_example :
    ((request_approval takes_all nfc hash iso (text "a") 0 waiting).0.emitted
      ≡ waiting.emitted
        ++ (waiting.session_id, approval_requested (demo_request nfc hash iso (text "a") 0)) ∷ [])
    × ((a : ApprovalView) × (lookup
            (text "a")
            (reduce_event clock create_empty_state asking).approvals
          ≡ some a)
        × (verify_approval_integrity nfc (some hash) a ≡ invalid))
demo_request_invalid_example =
    demo_request_invalid nfc hash iso (text "a") 0 takes_all waiting (text "h") clock
      create_empty_state asking refl refl empty-WellFormed asking_fresh refl refl (λ t a. refl)
      (λ e. absurd (digest_apart e))

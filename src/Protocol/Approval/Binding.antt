-- ===== src/Protocol/Approval/Binding.antt =====
-- What a text that binds a decision says of the decision.
use steerloop.Common.{
  Text, text, List, [], ◌∷◌, ◌++◌, Option, some, or_else, map, All, arith, ◌≡◌, refl, sym, ap, ◌∙◌,
}
use mathlib.Core.List.{append_assoc, append_cancel_left, append_cancel_right}
use steerloop.Protocol.Schema.{ApprovalDecision}
use steerloop.Protocol.Approval.{
  quote, quote_optional, quote_list, kind_text, sort, join_fields, quote_object, decision_text,
  normalized_optional, ApprovalDigestMaterial, ApprovalDecisionSignatureMaterial,
  canonicalize_approval, canonicalize_approval_decision,
}
use steerloop.Protocol.Approval.Reading.{quote_cancel}

abbrev after : Text → Text
after [] = []
after (c ∷ s) = s

-- A name and a text that stands under it in each of two objects.
record Field : Type 0 where
  name : Text
  one : Text
  other : Text

abbrev ones : List Field → List (Text × Text)
ones [] = []
ones (f ∷ fs) = (f.name, quote f.one) ∷ ones fs

abbrev others : List Field → List (Text × Text)
others [] = []
others (f ∷ fs) = (f.name, quote f.other) ∷ others fs

-- What stands behind a value in an object.
abbrev behind : (r : Text) → List (Text × Text) → Text
behind r [] = r
behind r (f ∷ fs) = b',' ∷ (join_fields (f ∷ fs) ++ r)

join_fields_cons :
    (k v r : Text) (fs : List (Text × Text))
    → join_fields ((k, v) ∷ fs) ++ r ≡ quote k ++ (b':' ∷ (v ++ behind r fs))
unfolding join_fields
join_fields_cons k v r [] = append_assoc (quote k) (b':' ∷ v) r
join_fields_cons k v r (f ∷ fs) =
    let rest = join_fields (f ∷ fs) in
    append_assoc (quote k) (b':' ∷ (v ++ (b',' ∷ rest))) r
    ∙ ap (λ t. quote k ++ (b':' ∷ t)) (append_assoc v (b',' ∷ rest) r)

abbrev IsSame : Field → Type 0
IsSame f = f.one ≡ f.other

first_cancel :
    (f : Field) (fs : List Field) (r r' : Text)
    → join_fields (ones (f ∷ fs)) ++ r ≡ join_fields (others (f ∷ fs)) ++ r'
    → IsSame f × (behind r (ones fs) ≡ behind r' (others fs))
first_cancel f fs r r' h =
    let e =
      sym (join_fields_cons f.name (quote f.one) r (ones fs))
      ∙ h
      ∙ join_fields_cons f.name (quote f.other) r' (others fs) in
    quote_cancel f.one f.other _ _ (ap after (quote_cancel f.name f.name _ _ e).1)

-- Two objects with one text have the same values under the same names.
join_fields_cancel :
    (f : Field) (fs : List Field) (r r' : Text)
    → join_fields (ones (f ∷ fs)) ++ r ≡ join_fields (others (f ∷ fs)) ++ r'
    → All IsSame (f ∷ fs)
join_fields_cancel f [] r r' h = ((first_cancel f [] r r' h).0, tt)
join_fields_cancel f (g ∷ fs) r r' h =
    let (same, left) = first_cancel f (g ∷ fs) r r' h in
    (same, join_fields_cancel g fs r r' (ap after left))

decision_text_cancel : (d d' : ApprovalDecision) → decision_text d ≡ decision_text d' → d ≡ d'
unfolding decision_text
decision_text_cancel ApprovalDecision.approve_once ApprovalDecision.approve_once h = refl
decision_text_cancel ApprovalDecision.decline ApprovalDecision.decline h = refl
decision_text_cancel ApprovalDecision.cancel ApprovalDecision.cancel h = refl
decision_text_cancel ApprovalDecision.approve_once ApprovalDecision.decline h = ground arith
decision_text_cancel ApprovalDecision.approve_once ApprovalDecision.cancel h = ground arith
decision_text_cancel ApprovalDecision.decline ApprovalDecision.approve_once h = ground arith
decision_text_cancel ApprovalDecision.decline ApprovalDecision.cancel h = ground arith
decision_text_cancel ApprovalDecision.cancel ApprovalDecision.approve_once h = ground arith
decision_text_cancel ApprovalDecision.cancel ApprovalDecision.decline h = ground arith

module _ (nfc : Text → Text) where
  -- Two decisions that agree in every part, their ids up to normalization.
  pub record SameDecision (m m' : ApprovalDecisionSignatureMaterial) : Type 0 where
    pub command_id : nfc m.command_id ≡ nfc m'.command_id
    pub host_id : nfc m.host_id ≡ nfc m'.host_id
    pub session_id : nfc m.session_id ≡ nfc m'.session_id
    pub approval_id : nfc m.approval_id ≡ nfc m'.approval_id
    pub request_digest : nfc m.request_digest ≡ nfc m'.request_digest
    pub decision : m.decision ≡ m'.decision
    pub device_id : nfc m.device_id ≡ nfc m'.device_id
    pub issued_at : m.issued_at ≡ m'.issued_at
    pub expires_at : m.expires_at ≡ m'.expires_at
    pub signed_at : m.signed_at ≡ m'.signed_at

  -- Decisions with one canonical text are the same.
  pub canonicalize_approval_decision_cancel :
      (m m' : ApprovalDecisionSignatureMaterial)
      → canonicalize_approval_decision nfc m ≡ canonicalize_approval_decision nfc m'
      → SameDecision m m'
  unfolding canonicalize_approval_decision quote_object
  canonicalize_approval_decision_cancel m m' h =
      let s =
        join_fields_cancel
          (record { name = text "commandId"; one = nfc m.command_id; other = nfc m'.command_id })
          (record { name = text "hostId"; one = nfc m.host_id; other = nfc m'.host_id }
            ∷ record { name = text "sessionId"; one = nfc m.session_id; other = nfc m'.session_id }
            ∷ record {
              name = text "approvalId";
              one = nfc m.approval_id;
              other = nfc m'.approval_id;
            }
            ∷ record {
              name = text "requestDigest";
              one = nfc m.request_digest;
              other = nfc m'.request_digest;
            }
            ∷ record {
              name = text "decision";
              one = decision_text m.decision;
              other = decision_text m'.decision;
            }
            ∷ record { name = text "deviceId"; one = nfc m.device_id; other = nfc m'.device_id }
            ∷ record { name = text "issuedAt"; one = m.issued_at; other = m'.issued_at }
            ∷ record { name = text "expiresAt"; one = m.expires_at; other = m'.expires_at }
            ∷ record { name = text "signedAt"; one = m.signed_at; other = m'.signed_at }
            ∷ [])
          (b'}' ∷ []) (b'}' ∷ []) (ap after h) in
      record {
        command_id = s.0;
        host_id = s.1.0;
        session_id = s.1.1.0;
        approval_id = s.1.1.1.0;
        request_digest = s.1.1.1.1.0;
        decision = decision_text_cancel m.decision m'.decision s.1.1.1.1.1.0;
        device_id = s.1.1.1.1.1.1.0;
        issued_at = s.1.1.1.1.1.1.1.0;
        expires_at = s.1.1.1.1.1.1.1.1.0;
        signed_at = s.1.1.1.1.1.1.1.1.1.0;
      }

  join_fields_skip :
      (k v : Text) (f g : Text × Text) (fs gs : List (Text × Text))
      → join_fields ((k, v) ∷ f ∷ fs) ≡ join_fields ((k, v) ∷ g ∷ gs)
      → join_fields (f ∷ fs) ≡ join_fields (g ∷ gs)
  unfolding join_fields
  join_fields_skip k v f g fs gs h =
      ap after (append_cancel_left v _ _ (ap after (append_cancel_left (quote k) _ _ h)))

  join_fields_skip_all :
      (ps : List (Text × Text)) (f g : Text × Text) (fs gs : List (Text × Text))
      → join_fields (ps ++ f ∷ fs) ≡ join_fields (ps ++ g ∷ gs)
      → join_fields (f ∷ fs) ≡ join_fields (g ∷ gs)
  join_fields_skip_all [] f g fs gs h = h
  join_fields_skip_all ((k, v) ∷ []) f g fs gs h = join_fields_skip k v f g fs gs h
  join_fields_skip_all ((k, v) ∷ p ∷ ps) f g fs gs h =
      join_fields_skip_all (p ∷ ps) f g fs gs
        (join_fields_skip k v p p (ps ++ f ∷ fs) (ps ++ g ∷ gs) h)

  -- Approvals with one canonical text that may differ in their reasons alone have one reason, up to
  -- normalization.
  pub canonicalize_approval_reason :
      (m : ApprovalDigestMaterial) (t t' : Text)
      → canonicalize_approval nfc (record m { reason = some t })
        ≡ canonicalize_approval nfc (record m { reason = some t' })
      → nfc t ≡ nfc t'
  unfolding canonicalize_approval quote_object quote_optional normalized_optional join_fields
  canonicalize_approval_reason m t t' h =
      let optional = λ (o : Option Text). quote_optional (normalized_optional nfc o) in
      let before : List (Text × Text) =
        (text "approvalId", quote (nfc m.approval_id))
        ∷ (text "kind", quote (kind_text m.kind))
        ∷ (text "command", optional m.command)
        ∷ (text "cwd", optional m.cwd)
        ∷ (text "grantRoot", optional m.grant_root)
        ∷ (text "networkHost", optional m.network_host)
        ∷ (text "networkProtocol", optional m.network_protocol)
        ∷ [] in
      let permissions = quote_list (sort (map nfc (or_else m.requested_permissions []))) in
      let last : List (Text × Text) = (text "requestedPermissions", permissions) ∷ [] in
      let reasons =
        join_fields_skip_all before (text "reason", quote (nfc t)) (text "reason", quote (nfc t'))
          last last (append_cancel_right _ _ (b'}' ∷ []) (ap after h)) in
      let values = ap after (append_cancel_left (quote (text "reason")) _ _ reasons) in
      (quote_cancel (nfc t) (nfc t') _ _ values).0

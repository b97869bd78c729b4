-- ===== src/Relay/Server/Pairing.antt =====
-- Pairing codes: what an offer leaves, and what a code pairs.
use steerloop.Common.{
  ℕ, Text, text, same, same→eq, same_refl, [], ◌∷◌, Option, none, some, Bool, true, false, ◌||◌,
  not, if◌then◌else◌, Bool-cases, inl, inr, arith, ◌≡◌, refl, sym, ap, ◌∙◌, at_most, Assoc, lookup,
  lookup-insert, lookup-remove, subst, Distinct, Every,
}
use steerloop.Protocol.Schema.{PairingOffer}
use steerloop.Relay.Devices.{
  DeviceRegistry, DeviceView, Issued, is_p256_public_key, issue, accepts, verify,
}
use steerloop.Relay.Devices.Laws.{issue-verify}
use steerloop.Relay.Sockets.{Runtime, RelayServer, live_offers}
use steerloop.Relay.Server.{register_pairing_offer, client_device, token_matches, verify_token}
use steerloop.Relay.Server.Http.{
  Fresh, PairRequest, Pairing, failed, paired, normal_code, pair_with, post_pair_object,
  issue_device, issue_reply, without_offer, device_name,
}

-- An offer stands that is of another host and is not over.
abbrev pub stands : (Text → Option ℕ) → Text → ℕ → PairingOffer → Bool
stands date_parse host now o = not (same o.host_id host || at_most (date_parse o.expires_at) now)

abbrev pub if_stands : (Text → Option ℕ) → Text → ℕ → Option PairingOffer → Option PairingOffer
if_stands date_parse host now none = none
if_stands date_parse host now (some o) = if stands date_parse host now o then some o else none

lookup-live_offers_missing :
    (date_parse : Text → Option ℕ) (host : Text) (now : ℕ) (k : Text) (m : Assoc PairingOffer)
    → lookup k m ≡ none
    → lookup k (live_offers date_parse host now m) ≡ none
unfolding live_offers lookup
lookup-live_offers_missing date_parse host now k [] h = refl
lookup-live_offers_missing date_parse host now k ((j, o) ∷ m) h =
    let ih = lookup-live_offers_missing date_parse host now k m (ground (arith, h)) in
    ground (arith, h, ih)

lookup-live_offers :
    (date_parse : Text → Option ℕ) (host : Text) (now : ℕ) (k : Text) (m : Assoc PairingOffer)
    → Distinct m
    → lookup k (live_offers date_parse host now m) ≡ if_stands date_parse host now (lookup k m)
unfolding live_offers lookup
lookup-live_offers date_parse host now k [] d = refl
lookup-live_offers date_parse host now k ((j, o) ∷ m) d =
    let ih = lookup-live_offers date_parse host now k m d.1 in
    elim (Bool-cases (same j k)) [
      | inl hit ↦
          let gone =
            lookup-live_offers_missing date_parse host now k m
              (ground (arith, d.0, hit, same→eq j k hit)) in
          ground (arith, hit, gone)
      | inr miss ↦ rw miss (ground (arith, miss, ih))
    ]

module _ (rt : Runtime) where
  -- After an offer is registered, its code leads to it; any other code leads to the offer it led to
  -- before, if that is of another host and not over, and to nothing otherwise.
  pub lookup-register_pairing_offer :
      (now : ℕ) (o : PairingOffer) (r : RelayServer) (k : Text)
      → Distinct r.pairing_offers
      → lookup k (register_pairing_offer rt now o r).pairing_offers ≡ (
          if same o.code k
          then some o
          else if_stands rt.date_parse o.host_id now (lookup k r.pairing_offers))
  unfolding register_pairing_offer
  lookup-register_pairing_offer now o r k d =
      let rest = live_offers rt.date_parse o.host_id now r.pairing_offers in
      lookup-insert o.code k o rest
      ∙ ap (λ x. if same o.code k then some o else x)
          (lookup-live_offers rt.date_parse o.host_id now k r.pairing_offers d)

module _ (rt : Runtime) (trim : Text → Text) where
  -- What a successful pairing did.
  pub record Paired (f : Fresh) (q : PairRequest) (p : Pairing) (r r' : RelayServer) : Type 0 where
    pub offer : PairingOffer
    pub before : DeviceRegistry
    pub saved : DeviceRegistry
    pub offered : lookup (normal_code rt trim q.code) r.pairing_offers ≡ some offer
    pub unexpired : at_most (rt.date_parse offer.expires_at) f.now ≡ false
    pub key : is_p256_public_key q.device_public_key ≡ true
    pub host : p.host_id ≡ offer.host_id
    pub has_registry : r.registry ≡ some before
    pub issued :
        issue rt.hash before offer.host_id
          (device_name rt trim q.device_name)
          q.device_public_key
          f.id
          f.token
          (rt.iso f.now)
        ≡ some (saved, p.issued)
    pub registry : r'.registry ≡ some saved
    pub token : r'.token ≡ r.token
    pub used : lookup (normal_code rt trim q.code) r'.pairing_offers ≡ none

  issue_reply_paired :
      (f : Fresh) (q : PairRequest) (p : Pairing) (o : PairingOffer) (d : DeviceRegistry)
      (r : RelayServer) (x : Option (DeviceRegistry × Issued))
      → (issue_reply rt trim o r x).1 ≡ paired p
      → (e : DeviceRegistry) × (x ≡ some (e, p.issued))
        × (p.host_id ≡ o.host_id)
        × ((issue_reply rt trim o r x).0 ≡ record r { registry = some e })
  issue_reply_paired f q p o d r none h = absurd (cc h)
  issue_reply_paired f q p o d r (some (e, i)) h =
      let is : record { issued = i; host_id = o.host_id; expires_at = o.expires_at } ≡ p = cc h in
      (e, ap (λ t. some (e, t.issued)) is, ap (λ t. t.host_id) (sym is), refl)

  issue_device_paired :
      (f : Fresh) (q : PairRequest) (p : Pairing) (o : PairingOffer) (x : Option DeviceRegistry)
      (r : RelayServer)
      → (issue_device rt trim f o q x r).1 ≡ paired p
      → (d : DeviceRegistry) × (e : DeviceRegistry) × (x ≡ some d)
        × (issue rt.hash d o.host_id
              (device_name rt trim q.device_name)
              q.device_public_key
              f.id
              f.token
              (rt.iso f.now)
            ≡ some (e, p.issued))
        × (p.host_id ≡ o.host_id)
        × ((issue_device rt trim f o q x r).0 ≡ record r { registry = some e })
  issue_device_paired f q p o none r h = absurd (cc h)
  issue_device_paired f q p o (some d) r h =
      let (e, done, host, effect) = issue_reply_paired f q p o d r _ h in
      (d, e, refl, done, host, effect)

  pair_with-Paired :
      (f : Fresh) (q : PairRequest) (p : Pairing) (r : RelayServer) (x : Option PairingOffer)
      → lookup (normal_code rt trim q.code) r.pairing_offers ≡ x
      → (pair_with rt trim f q (normal_code rt trim q.code) x r).1 ≡ paired p
      → Paired f q p r (pair_with rt trim f q (normal_code rt trim q.code) x r).0
  unfolding pair_with
  pair_with-Paired f q p r none found h = absurd (cc h)
  pair_with-Paired f q p r (some o) found h =
      let code = normal_code rt trim q.code in
      let r1 = without_offer rt trim code r in
      elim (Bool-cases (at_most (rt.date_parse o.expires_at) f.now)) [
        | inl over ↦ absurd (cc (rw (over, pair_with) at h))
        | inr live ↦ elim (Bool-cases (is_p256_public_key q.device_public_key)) [
          | inl good ↦
              let (d, e, before, done, host, effect) =
                issue_device_paired f q p o r.registry r1 (rw (live, good, pair_with) at h) in
              rw (live, good, effect)
                (record {
                  offer = o;
                  before = d;
                  saved = e;
                  offered = found;
                  unexpired = live;
                  key = good;
                  host = host;
                  has_registry = before;
                  issued = done;
                  registry = refl;
                  token = refl;
                  used = ground (arith, lookup-remove code code r.pairing_offers, same_refl code);
                })
          | inr bad ↦ absurd (cc (rw (live, bad, pair_with) at h))
        ]
      ]

  -- A pairing that succeeds had a standing offer under its code and a valid key, made the device the
  -- registry issued for the offer's host, and used the code up: a second request with that code is
  -- refused and changes nothing.
  pub pair_once :
      (f : Fresh) (q : PairRequest) (p : Pairing) (r : RelayServer) (g : Fresh) (q' : PairRequest)
      → (post_pair_object rt trim f q r).1 ≡ paired p
      → normal_code rt trim q'.code ≡ normal_code rt trim q.code
      → let r' = (post_pair_object rt trim f q r).0 in
        Paired f q p r r'
        × (post_pair_object rt trim g q' r' ≡ (r', failed 401 (text "invalid_pairing_code")))
  unfolding post_pair_object pair_with
  pair_once f q p r g q' h e =
      let w =
        pair_with-Paired f q p r (lookup (normal_code rt trim q.code) r.pairing_offers) refl h in
      (w, rw (e, w.used) refl)

  client_device-verify :
      (later : ℕ) (token : Text) (r : RelayServer) (d : DeviceRegistry) (v : DeviceView)
      → token_matches rt r.token token ≡ false
      → r.registry ≡ some d
      → (verify rt.hash d token (rt.iso later)).1 ≡ some v
      → (client_device rt later token r).1 ≡ some (some v.id)
  unfolding client_device verify_token
  client_device-verify later token r d v other has good = rw (other, has, good) refl

  token_or : Text → Option (DeviceRegistry × Issued) → Text
  token_or t none = t
  token_or t (some (d, i)) = i.token

  saved_of : Option (DeviceRegistry × Issued) → Option DeviceRegistry
  saved_of none = none
  saved_of (some (d, i)) = some d

  -- The token of a successful pairing lets the browser in as the new device, if the relay had no
  -- device with the new random id, no other device answers to the hash of the token, and the token
  -- is not the relay's own.
  pub pair_then_login :
      (f : Fresh) (q : PairRequest) (p : Pairing) (r : RelayServer) (d : DeviceRegistry) (later : ℕ)
      → (post_pair_object rt trim f q r).1 ≡ paired p
      → r.registry ≡ some d
      → lookup f.id d.devices ≡ none
      → Every (λ k x. accepts (rt.hash f.token) x ≡ false) d.devices
      → token_matches rt r.token f.token ≡ false
      → (p.issued.token ≡ f.token)
        × ((client_device rt later p.issued.token (post_pair_object rt trim f q r).0).1
            ≡ some (some f.id))
  unfolding post_pair_object token_or saved_of
  pair_then_login f q p r d later h has new others own =
      let w =
        pair_with-Paired f q p r (lookup (normal_code rt trim q.code) r.pairing_offers) refl h in
      let here : w.before ≡ d = cc (w.has_registry, has) in
      let (e, done, good) =
        issue-verify rt.hash d w.offer.host_id (device_name rt trim q.device_name)
          q.device_public_key f.id f.token (rt.iso f.now) (rt.iso later) w.key new others in
      let both =
        sym (
          subst
            (λ x.
              issue rt.hash x w.offer.host_id (device_name rt trim q.device_name)
                q.device_public_key f.id f.token (rt.iso f.now)
              ≡ some (w.saved, p.issued))
            here w.issued)
        ∙ done in
      let is : p.issued.token ≡ f.token = ap (token_or f.token) both in
      let after : some w.saved ≡ some e = ap saved_of both in
      (
        is,
        rw is (
            client_device-verify later f.token
              (pair_with rt trim f q (normal_code rt trim q.code)
                (lookup (normal_code rt trim q.code) r.pairing_offers) r).0
              e _ (ap (λ t. token_matches rt t f.token) w.token ∙ own) (w.registry ∙ after) good),
      )

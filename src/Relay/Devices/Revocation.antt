-- ===== src/Relay/Devices/Revocation.antt =====
-- The registry over any sequence of requests, and after a revocation.
use steerloop.Common.{
  Text, same, List, [], ◌∷◌, Option, none, some, true, if_cases, Bool-cases, Option-cases, inl, inr,
  arith, ◌≡◌, ◌≢◌, refl, ◌∙◌, lookup, insert, lookup-insert, lookup-insert_ne, lookup-insert_self,
  insert-Distinct, insert-Every, lookup-Every, All,
}
use steerloop.Relay.Devices.{
  DeviceView, DeviceRecord, DeviceRegistry, PublicKey, Issued, is_p256_public_key, persist,
  is_revoked, issue, verify, revoked, revoke,
}
use steerloop.Relay.Devices.Laws.{record_id, WellFormed, verify-Verifies}

abbrev pub IsRevoked : Text → DeviceRegistry → Type 0
IsRevoked id r = (d : DeviceRecord) × (lookup id r.devices ≡ some d) × (is_revoked d ≡ true)

-- What browsers and operators ask of the registry, with the random choices and times of each request.
pub data Request : Type 0 where
  issues : (host_id name : Text) → PublicKey → (id token now : Text) → Request
  verifies : (token now : Text) → Request
  revokes : (id now : Text) → Request

-- The random id of a new device is not the given one.
abbrev pub Avoids : Text → Request → Type 0
Avoids id (issues _ _ _ new _ _) = id ≢ new
Avoids id _ = Unit

abbrev after_issue : DeviceRegistry → Option (DeviceRegistry × Issued) → DeviceRegistry
after_issue r none = r
after_issue r (some (q, i)) = q

module _ (hash : Text → Text) where
  unfoldable pub step : DeviceRegistry → Request → DeviceRegistry
  step r (issues host_id name key id token now) =
      after_issue r (issue hash r host_id name key id token now)
  step r (verifies token now) = (verify hash r token now).0
  step r (revokes id now) = (revoke r id now).0

  unfoldable pub run : DeviceRegistry → List Request → DeviceRegistry
  run r [] = r
  run r (q ∷ qs) = run (step r q) qs

revoke-IsRevoked :
    (r : DeviceRegistry) (id now : Text) (v : DeviceView)
    → (revoke r id now).1 ≡ some v
    → IsRevoked id (revoke r id now).0
unfolding revoke
revoke-IsRevoked r id now v done = elim (Option-cases (lookup id r.devices)) [
  | inl missing ↦ absurd (cc (rw (missing, revoke) at done))
  | inr (d, found) ↦
      rw (found, revoke) (revoked now d, lookup-insert_self id (revoked now d) r.devices, refl)
]

revoke-IsRevoked_other :
    (id : Text) (r : DeviceRegistry) (other now : Text)
    → IsRevoked id r
    → IsRevoked id (revoke r other now).0
unfolding revoke
revoke-IsRevoked_other id r other now (d, found, dead) =
    elim (Option-cases (lookup other r.devices)) [
      | inl missing ↦ rw (missing, revoke) (d, found, dead)
      | inr (e, there) ↦
          let changed = lookup-insert other id (revoked now e) r.devices in
          rw (there, revoke)
            (elim (Bool-cases (same other id)) [
              | inl hit ↦ (revoked now e, ground (arith, hit, changed), refl)
              | inr miss ↦ (d, ground (arith, miss, found, changed), dead)
            ])
    ]

put_device-WellFormed :
    (r : DeviceRegistry) (id : Text) (d : DeviceRecord)
    → d.view.id ≡ id
    → WellFormed r
    → WellFormed (persist (record r { devices = insert id d r.devices }))
put_device-WellFormed r id d e w = record {
  keyed = insert-Every (λ k x. record_id x ≡ k) id d r.devices e w.keyed;
  distinct = insert-Distinct id d r.devices w.distinct;
  saved = refl;
}

revoke-WellFormed :
    (r : DeviceRegistry) (id now : Text) → WellFormed r → WellFormed (revoke r id now).0
unfolding revoke
revoke-WellFormed r id now w = elim (Option-cases (lookup id r.devices)) [
  | inl missing ↦ rw (missing, revoke) w
  | inr (d, found) ↦
      rw (found, revoke)
        (put_device-WellFormed r id (revoked now d)
          (lookup-Every (λ k x. record_id x ≡ k) id r.devices d found w.keyed) w)
]

module _ (hash : Text → Text) where
  verify-WellFormed :
      (r : DeviceRegistry) (token now : Text)
      → WellFormed r
      → WellFormed (verify hash r token now).0
  verify-WellFormed r token now w = elim (verify-Verifies hash r token now w) [
    | inl (_, same_registry) ↦ rw same_registry w
    | inr (v, _, found, saved) ↦ record {
      keyed = found.keyed;
      distinct = found.distinct;
      saved = saved;
    }
  ]

  -- Every request keeps the registry well formed and saved.
  pub step-WellFormed :
      (r : DeviceRegistry) (q : Request) → WellFormed r → WellFormed (step hash r q)
  unfolding step issue
  step-WellFormed r (issues host_id name key id token now) w =
      if_cases (λ o. WellFormed (after_issue r o)) (is_p256_public_key key)
        (λ good. put_device-WellFormed r id _ refl w) (λ bad. w)
  step-WellFormed r (verifies token now) w = verify-WellFormed r token now w
  step-WellFormed r (revokes id now) w = revoke-WellFormed r id now w

  pub run-WellFormed :
      (r : DeviceRegistry) (qs : List Request) → WellFormed r → WellFormed (run hash r qs)
  unfolding run
  run-WellFormed r [] w = w
  run-WellFormed r (q ∷ qs) w = run-WellFormed (step hash r q) qs (step-WellFormed r q w)

  step-IsRevoked :
      (id : Text) (r : DeviceRegistry) (q : Request)
      → WellFormed r
      → Avoids id q
      → IsRevoked id r
      → IsRevoked id (step hash r q)
  unfolding step issue
  step-IsRevoked id r (issues host_id name key new token now) w fresh (d, found, dead) =
      if_cases (λ o. IsRevoked id (after_issue r o)) (is_p256_public_key key)
        (λ good. (d, lookup-insert_ne new id _ r.devices fresh ∙ found, dead))
        (λ bad. (d, found, dead))
  step-IsRevoked id r (verifies token now) w fresh (d, found, dead) =
      elim (verify-Verifies hash r token now w) [
        | inl (_, same_registry) ↦ rw same_registry (d, found, dead)
        | inr (v, _, good, _) ↦
            (d, ground (arith, found, dead, good.effect id, good.found, good.live), dead)
      ]
  step-IsRevoked id r (revokes other now) w fresh h = revoke-IsRevoked_other id r other now h

  run-IsRevoked :
      (id : Text) (r : DeviceRegistry) (qs : List Request)
      → WellFormed r
      → All (Avoids id) qs
      → IsRevoked id r
      → IsRevoked id (run hash r qs)
  unfolding run
  run-IsRevoked id r [] w fresh h = h
  run-IsRevoked id r (q ∷ qs) w fresh h =
      run-IsRevoked id (step hash r q) qs (step-WellFormed r q w) fresh.1
        (step-IsRevoked id r q w fresh.0 h)

  -- Once a device is revoked, no token is ever accepted for it again, whatever is asked of the
  -- registry in between, as long as no new device draws its random id.
  pub revocation_final :
      (r : DeviceRegistry) (id now : Text) (v : DeviceView) (qs : List Request) (token later : Text)
      (u : DeviceView)
      → WellFormed r
      → (revoke r id now).1 ≡ some v
      → All (Avoids id) qs
      → (verify hash (run hash (revoke r id now).0 qs) token later).1 ≡ some u
      → u.id ≢ id
  revocation_final r id now v qs token later u w done fresh accepted =
      let r' = (revoke r id now).0 in
      let w' = revoke-WellFormed r id now w in
      let (d, found, dead) = run-IsRevoked id r' qs w' fresh (revoke-IsRevoked r id now v done) in
      elim (verify-Verifies hash (run hash r' qs) token later (run-WellFormed r' qs w')) [
        | inl (refused, _) ↦ λ e. cc
        | inr (x, is, good, _) ↦
            λ e. ground (arith, found, dead, is, accepted, good.found, good.live)
      ]

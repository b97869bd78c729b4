-- ===== src/Relay/Devices/Tests.antt =====
-- The registry on a concrete hash and concrete devices, and each theorem at such an input.
use steerloop.Common.{
  Text, text, text_dec, List, [], ◌∷◌, none, some, true, false, ◌⊎◌, ◌≡◌, ◌≢◌, refl, arith, lookup,
  insert, values,
}
use steerloop.Relay.Devices.{
  DeviceView, DeviceRecord, DeviceRegistry, PublicKey, is_p256_public_key, hex_bytes, hash_matches,
  issue, verify_in, verify, revoke, accepts, seen,
}
use steerloop.Relay.Devices.Laws.{
  WellFormed, Verifies, verify-Verifies, issued_device, issue-verify,
}
use steerloop.Relay.Devices.Revocation.{
  Request, issues, verifies, step, run, step-WellFormed, revocation_final,
}

registry : Unit {0}
unfolding text_dec lookup insert values is_p256_public_key hex_bytes hash_matches issue verify_in
    verify revoke step run
registry = tt

-- A token is its own hash.
abbrev plain : Text → Text
plain t = t

abbrev key : PublicKey
key = record {
  kty = some (text "EC");
  crv = some (text "P-256");
  x = some (text "x");
  y = some (text "y");
}

abbrev empty : DeviceRegistry
empty = record { devices = []; persisted = [] }

abbrev phone : DeviceRecord
phone = issued_device plain (text "p") (text "h") (text "phone") key (text "ab") (text "1")

abbrev with_phone : DeviceRegistry
with_phone = record { devices = (text "p", phone) ∷ []; persisted = phone ∷ [] }

with_phone-WellFormed : WellFormed with_phone
unfolding registry
with_phone-WellFormed = record { keyed = (refl, tt); distinct = (refl, tt); saved = refl }

verify-Verifies_example :
    let t = verify plain with_phone (text "ab") (text "2") in
    ((t.1 ≡ none) × (t.0 ≡ with_phone))
    ⊎ ((v : DeviceView) × (t.1 ≡ some v)
        × Verifies (text "ab") (text "2") with_phone.devices t.0.devices v
        × (t.0.persisted ≡ values t.0.devices))
verify-Verifies_example =
    verify-Verifies plain with_phone (text "ab") (text "2") with_phone-WellFormed

laptop_facts :
    (is_p256_public_key key ≡ true)
    × (lookup (text "l") with_phone.devices ≡ none)
    × (accepts (text "cd") phone ≡ false)
unfolding registry
laptop_facts = (refl, refl, refl)

abbrev laptop : DeviceRecord
laptop = issued_device plain (text "l") (text "h") (text "laptop") key (text "cd") (text "2")

issue-verify_example :
    (q : DeviceRegistry) × (issue plain with_phone
        (text "h")
        (text "laptop")
        key
        (text "l")
        (text "cd")
        (text "2")
      ≡ some (q, record { token = text "cd"; device = laptop.view }))
    × ((verify plain q (text "cd") (text "3")).1 ≡ some (seen (text "3") laptop).view)
issue-verify_example =
    issue-verify plain with_phone (text "h") (text "laptop") key (text "l") (text "cd") (text "2")
      (text "3") laptop_facts.0 laptop_facts.1 (laptop_facts.2, tt)

step-WellFormed_example : WellFormed (step plain with_phone (verifies (text "ab") (text "2")))
step-WellFormed_example =
    step-WellFormed plain with_phone (verifies (text "ab") (text "2")) with_phone-WellFormed

-- The phone is revoked, and a laptop is paired with the same hash.
abbrev again : List Request
again = issues (text "h") (text "laptop") key (text "l") (text "ab") (text "3") ∷ []

abbrev revoked_phone : DeviceRegistry
revoked_phone = (revoke with_phone (text "p") (text "2")).0

abbrev laptop_view : DeviceView
laptop_view =
    let d = issued_device plain (text "l") (text "h") (text "laptop") key (text "ab") (text "3") in
    (seen (text "4") d).view

abbrev gone : DeviceView
gone = record (phone.view) { revoked_at = some (text "2") }

revocation_facts :
    ((revoke with_phone (text "p") (text "2")).1 ≡ some gone)
    × ((verify plain (run plain revoked_phone again) (text "ab") (text "4")).1 ≡ some laptop_view)
    × (text "p" ≢ text "l")
unfolding registry
revocation_facts = (refl, refl, λ e. ground (arith, e))

revocation_final_example : laptop_view.id ≢ text "p"
revocation_final_example =
    revocation_final plain with_phone (text "p") (text "2") gone again (text "ab") (text "4")
      laptop_view with_phone-WellFormed revocation_facts.0 (revocation_facts.2, tt)
      revocation_facts.1

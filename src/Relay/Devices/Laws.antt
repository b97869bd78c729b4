-- ===== src/Relay/Devices/Laws.antt =====
-- What the registry promises of a token: who is verified by it.
use steerloop.Common.{
  Text, same, same_refl, [], ◌∷◌, Option, none, some, true, false, if◌then◌else◌, if_cases, ◌⊎◌,
  inl, inr, arith, ◌≡◌, refl, Assoc, lookup, insert, values, Distinct, Every, Keyed,
}
use steerloop.Relay.Devices.{
  DeviceView, DeviceRecord, DeviceRegistry, PublicKey, is_p256_public_key, hex_bytes, persist,
  is_revoked, hash_matches, issue, seen, accepts, behind, verify_in, verified, verify,
}

abbrev pub record_id : DeviceRecord → Text
record_id d = d.view.id

-- Devices stand under their own ids, which are distinct, and the file holds them all.
pub record WellFormed (r : DeviceRegistry) : Type 0 where
  pub keyed : Keyed record_id r.devices
  pub distinct : Distinct r.devices
  pub saved : r.persisted ≡ values r.devices

-- What a successful verification finds and does.
pub record Verifies (token_hash now : Text) (m m' : Assoc DeviceRecord) (v : DeviceView)
    : Type 0 where
  pub device : DeviceRecord
  pub found : lookup v.id m ≡ some device
  pub live : is_revoked device ≡ false
  pub matches : hash_matches device.token_hash token_hash ≡ true
  pub view : v ≡ (seen now device).view
  pub effect :
      (k : Text) → lookup k m' ≡ (if same v.id k then some (seen now device) else lookup k m)
  pub keyed : Keyed record_id m'
  pub distinct : Distinct m'

abbrev Outcome :
    Text → Text → Assoc DeviceRecord → Option (Assoc DeviceRecord × DeviceView) → Type 0
Outcome h now m none = Unit
Outcome h now m (some (m', v)) = Verifies h now m m' v

behind-Outcome :
    (h now k : Text) (d : DeviceRecord) (m : Assoc DeviceRecord)
    (o : Option (Assoc DeviceRecord × DeviceView))
    → d.view.id ≡ k
    → lookup k m ≡ none
    → Outcome h now m o
    → Outcome h now ((k, d) ∷ m) (behind (k, d) o)
unfolding lookup
behind-Outcome h now k d m none id new w = tt
behind-Outcome h now k d m (some (m', v)) id new w = record {
  device = w.device;
  found = ground (arith, w.found, new);
  live = w.live;
  matches = w.matches;
  view = w.view;
  effect = λ j. ground (arith, w.effect j, w.found, new);
  keyed = (id, w.keyed);
  distinct = (ground (arith, w.effect k, w.found, new), w.distinct);
}

verify_in-Outcome :
    (h now : Text) (m : Assoc DeviceRecord)
    → Keyed record_id m
    → Distinct m
    → Outcome h now m (verify_in h now m)
unfolding verify_in lookup
verify_in-Outcome h now [] k d = tt
verify_in-Outcome h now ((j, e) ∷ m) k d =
    if_cases (Outcome h now ((j, e) ∷ m)) (accepts h e)
      (λ hit. record {
        device = e;
        found = ground (arith, k.0);
        live = ground arith;
        matches = ground arith;
        view = refl;
        effect = λ i. ground (arith, k.0);
        keyed = (k.0, k.1);
        distinct = (d.0, d.1);
      })
      (λ miss. behind-Outcome h now j e m _ k.0 d.0 (verify_in-Outcome h now m k.1 d.1))

-- In a well-formed registry a token is accepted only for a device that is not revoked and has its
-- hash; the device is then seen now, every other device stays, and the registry is well formed and
-- saved. A token that is refused changes nothing.
pub verify-Verifies :
    (hash : Text → Text) (r : DeviceRegistry) (token now : Text)
    → WellFormed r
    → let t = verify hash r token now in
      ((t.1 ≡ none) × (t.0 ≡ r))
      ⊎ ((v : DeviceView) × (t.1 ≡ some v)
          × Verifies (hash token) now r.devices t.0.devices v
          × (t.0.persisted ≡ values t.0.devices))
unfolding verify
verify-Verifies hash r token now w =
    go (verify_in (hash token) now r.devices)
      (verify_in-Outcome (hash token) now r.devices w.keyed w.distinct)
  where
    go :
        (o : Option (Assoc DeviceRecord × DeviceView))
        → Outcome (hash token) now r.devices o
        → ((verified r o).1 ≡ none) × ((verified r o).0 ≡ r)
          ⊎ ((v : DeviceView) × ((verified r o).1 ≡ some v)
              × Verifies (hash token) now r.devices (verified r o).0.devices v
              × ((verified r o).0.persisted ≡ values (verified r o).0.devices))
    go none t = inl (refl, refl)
    go (some (m, v)) t = inr (v, refl, t, refl)

-- The device that a token was issued for.
abbrev pub issued_device :
    (Text → Text) → (id host_id name : Text) → PublicKey → (token now : Text) → DeviceRecord
issued_device hash id host_id name key token now = record {
  view = record {
    id = id;
    name = name;
    host_id = host_id;
    created_at = now;
    last_seen_at = now;
    revoked_at = none;
  };
  token_hash = hash token;
  public_key = key;
}

verify_in-insert :
    (h later id : Text) (d : DeviceRecord) (m : Assoc DeviceRecord)
    → lookup id m ≡ none
    → Every (λ k x. accepts h x ≡ false) m
    → accepts h d ≡ true
    → verify_in h later (insert id d m) ≡ some (insert id (seen later d) m, (seen later d).view)
unfolding verify_in insert lookup
verify_in-insert h later id d [] new others hit = rw hit
verify_in-insert h later id d ((k, e) ∷ m) new others hit =
    let miss : same k id ≡ false = ground arith in
    let ih = verify_in-insert h later id d m (ground arith) others.1 hit in rw (miss, others.0, ih)

-- A pairing with a valid key yields a token that is accepted for the new device, under its id, name
-- and host, if that id is new and no other device answers to the hash of the token.
pub issue-verify :
    (hash : Text → Text) (r : DeviceRegistry) (host_id name : Text) (key : PublicKey)
    (id token now later : Text)
    → is_p256_public_key key ≡ true
    → lookup id r.devices ≡ none
    → Every (λ k d. accepts (hash token) d ≡ false) r.devices
    → (q : DeviceRegistry) × (issue hash r host_id name key id token now
        ≡ some (
          q,
          record {
            token = token;
            device = (issued_device hash id host_id name key token now).view;
          },
        ))
      × ((verify hash q token later).1
          ≡ some (seen later (issued_device hash id host_id name key token now)).view)
unfolding issue verify hash_matches
issue-verify hash r host_id name key id token now later good new others =
    let d = issued_device hash id host_id name key token now in
    (
      persist (record r { devices = insert id d r.devices }),
      rw good,
      rw (
          verify_in-insert (hash token) later id d r.devices new others
            (same_refl (hex_bytes (hash token)))),
    )

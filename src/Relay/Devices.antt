-- ===== src/Relay/Devices.antt =====
-- apps/relay/src/device-registry.ts: the registry of paired browsers. The hash of a token, the
-- random ids and tokens, and the check of a signature are the runtime's: they are parameters or
-- arguments. Times are the texts of `toISOString`. A public key is kept as its text.
pub mod Laws
pub mod Revocation
mod Tests
use steerloop.Common.{
  ℕ, ◌+◌, ◌-◌, ◌*◌, leb, after, Text, text, same, List, [], ◌∷◌, ◌++◌, Option, none, some, Bool,
  true, false, ◌&&◌, not, is_some, if◌then◌else◌, Assoc, lookup, insert, values,
}

pub record DeviceView : Type 0 where
  pub id : Text
  pub name : Text
  pub host_id : Text
  pub created_at : Text
  pub last_seen_at : Text
  pub revoked_at : Option Text

-- The `x` and `y` of a key are there or not; `kty` and `crv` are texts where they are strings.
pub record PublicKey : Type 0 where
  pub kty : Option Text
  pub crv : Option Text
  pub x : Option Text
  pub y : Option Text

pub record DeviceRecord : Type 0 where
  pub view : DeviceView
  pub token_hash : Text
  pub public_key : PublicKey

-- The devices by id, and the contents that were last handed to be written to the file.
pub record DeviceRegistry : Type 0 where
  pub devices : Assoc DeviceRecord
  pub persisted : List DeviceRecord

abbrev is_text : Option Text → Text → Bool
is_text none t = false
is_text (some s) t = same s t

unfoldable pub is_p256_public_key : PublicKey → Bool
is_p256_public_key k =
    is_text k.kty (text "EC") && is_text k.crv (text "P-256") && is_some k.x && is_some k.y

abbrev pub persist : DeviceRegistry → DeviceRegistry
persist r = record r { persisted = values r.devices }

abbrev pub is_revoked : DeviceRecord → Bool
is_revoked d = is_some d.view.revoked_at

-- `Buffer.from(s, "hex")`: the bytes up to the first pair that is not of hexadecimal digits.
abbrev hex_digit : ℕ → Option ℕ
hex_digit c =
    if leb b'0' c && leb c b'9'
    then some (c - b'0')
    else if leb b'a' c && leb c b'f'
    then some (c - b'a' + 10)
    else if leb b'A' c && leb c b'F'
    then some (c - b'A' + 10)
    else none

abbrev hex_byte : Option ℕ → Option ℕ → List ℕ → List ℕ
hex_byte (some a) (some b) rest = (a * 16 + b) ∷ rest
hex_byte _ _ rest = []

unfoldable pub hex_bytes : Text → List ℕ
hex_bytes (a ∷ b ∷ s) = hex_byte (hex_digit a) (hex_digit b) (hex_bytes s)
hex_bytes _ = []

unfoldable pub hash_matches : Text → Text → Bool
hash_matches expected received = same (hex_bytes expected) (hex_bytes received)

-- A device in the file: `none` stands for a field that is no string, or is missing.
pub data RawRevoked : Type 0 where
  absent other : RawRevoked
  at : Text → RawRevoked

pub record RawDevice : Type 0 where
  pub id : Option Text
  pub name : Option Text
  pub host_id : Option Text
  pub token_hash : Option Text
  pub public_key : PublicKey
  pub created_at : Option Text
  pub last_seen_at : Option Text
  pub revoked_at : RawRevoked

abbrev revoked_field : RawRevoked → Option (Option Text)
revoked_field absent = some none
revoked_field (at t) = some (some t)
revoked_field other = none

infixl 5 ◌>>=◌
abbrev ◌>>=◌ : {A B : Type 0} → Option A → (A → Option B) → Option B
none >>= f = none
some a >>= f = f a

abbrev checked_key : PublicKey → Option PublicKey
checked_key k = if is_p256_public_key k then some k else none

unfoldable pub parse_device : RawDevice → Option DeviceRecord
parse_device d = do
  id ← d.id
  name ← d.name
  host_id ← d.host_id
  token_hash ← d.token_hash
  public_key ← checked_key d.public_key
  created_at ← d.created_at
  last_seen_at ← d.last_seen_at
  revoked_at ← revoked_field d.revoked_at
  some (record {
    view = record {
      id = id;
      name = name;
      host_id = host_id;
      created_at = created_at;
      last_seen_at = last_seen_at;
      revoked_at = revoked_at;
    };
    token_hash = token_hash;
    public_key = public_key;
  })

unfoldable pub parse_devices : List RawDevice → Option (List DeviceRecord)
parse_devices [] = some []
parse_devices (d ∷ ds) = do device ← parse_device d; rest ← parse_devices ds; some (device ∷ rest)

-- `new Map(devices.map((device) => [device.id, device]))`
unfoldable pub by_id : List DeviceRecord → Assoc DeviceRecord → Assoc DeviceRecord
by_id [] m = m
by_id (d ∷ ds) m = by_id ds (insert d.view.id d m)

-- `open`, on the devices in the file; `none` where one of them is not well formed.
unfoldable pub open_registry : List RawDevice → Option DeviceRegistry
open_registry raw = do
  devices ← parse_devices raw
  some (record { devices = by_id devices []; persisted = devices })

pub record Issued : Type 0 where
  pub token : Text
  pub device : DeviceView

module _ (hash : Text → Text) where
  -- `issue`, with the random id and token and the time as arguments; `none` where it throws.
  unfoldable pub issue :
      DeviceRegistry
      → (host_id name : Text) → PublicKey
      → (id token now : Text) → Option (DeviceRegistry × Issued)
  issue r host_id name key id token now =
      if is_p256_public_key key
      then some (
        persist (record r { devices = insert id device r.devices }),
        record { token = token; device = device.view },
      )
      else none
    where
      device : DeviceRecord
      device = record {
        view = record {
          id = id;
          name = name;
          host_id = host_id;
          created_at = now;
          last_seen_at = now;
          revoked_at = none;
        };
        token_hash = hash token;
        public_key = key;
      }

abbrev pub seen : Text → DeviceRecord → DeviceRecord
seen now d = record d { view = record (d.view) { last_seen_at = now } }

abbrev pub accepts : Text → DeviceRecord → Bool
accepts token_hash d = not (is_revoked d) && hash_matches d.token_hash token_hash

abbrev pub behind :
    Text × DeviceRecord
    → Option (Assoc DeviceRecord × DeviceView)
    → Option (Assoc DeviceRecord × DeviceView)
behind entry none = none
behind entry (some (m, v)) = some (entry ∷ m, v)

-- The loop of `verify`: the first device that is not revoked and has the hash is seen now.
unfoldable pub verify_in :
    Text → Text → Assoc DeviceRecord → Option (Assoc DeviceRecord × DeviceView)
verify_in token_hash now [] = none
verify_in token_hash now ((k, d) ∷ m) =
    if accepts token_hash d
    then some ((k, seen now d) ∷ m, (seen now d).view)
    else behind (k, d) (verify_in token_hash now m)

abbrev pub verified :
    DeviceRegistry → Option (Assoc DeviceRecord × DeviceView) → DeviceRegistry × Option DeviceView
verified r none = (r, none)
verified r (some (m, v)) = (persist (record r { devices = m }), some v)

unfoldable pub verify :
    (Text → Text) → DeviceRegistry → (token now : Text) → DeviceRegistry × Option DeviceView
verify hash r token now = verified r (verify_in (hash token) now r.devices)

abbrev pub revoked : Text → DeviceRecord → DeviceRecord
revoked now d = record d { view = record (d.view) { revoked_at = some now } }

unfoldable pub revoke : DeviceRegistry → (id now : Text) → DeviceRegistry × Option DeviceView
revoke r id now = elim (lookup id r.devices) [
  | none ↦ (r, none)
  | some d ↦ (
    persist (record r { devices = insert id (revoked now d) r.devices }),
    some (revoked now d).view,
  )
]

-- `verifySignature`; `check` is the import of the key and the check of the signature, false where
-- either throws.
unfoldable pub verify_signature :
    (PublicKey → Text → Text → Bool) → DeviceRegistry → (device_id material signature : Text) → Bool
verify_signature check r device_id material signature = elim (lookup device_id r.devices) [
  | none ↦ false
  | some d ↦ if is_revoked d then false else check d.public_key material signature
]

module _ (date_parse : Text → Option ℕ) where
  -- Into a list that is sorted by falling times, behind none but later ones.
  unfoldable pub place : DeviceView → List DeviceView → List DeviceView
  place d [] = d ∷ []
  place d (x ∷ xs) =
      if after (date_parse x.last_seen_at) (date_parse d.last_seen_at)
      then x ∷ place d xs
      else d ∷ x ∷ xs

  -- `list`: the views without the hashes and keys, the latest first.
  unfoldable pub list : List DeviceRecord → List DeviceView
  list [] = []
  list (d ∷ ds) = place d.view (list ds)

-- ===== src/Web/Commands/Keys.antt =====
-- The key that a browser signs with.
use steerloop.Common.{Text, Option, none, some, ◌≡◌, refl}
use steerloop.Common.Json.{obj}
use steerloop.Relay.Devices.{PublicKey}
use steerloop.Web.Commands.{
  KeyPair, KeyStore, imported, public_part, stored_key, key_or, ensure_device_key_pair,
}

module _ {Key : Type 0} (ks : KeyStore Key) (pair : KeyPair Key) where
  -- The store gives the generated pair back: it is a key for the curve, and the text, the parse and
  -- the import of its private part lead to its private key.
  pub record Kept : Type 0 where
    pub parsed : ks.parse (ks.stringify pair.private_jwk) ≡ some (obj pair.private_jwk)
    pub same_key : imported ks pair.private_jwk ≡ some pair.private_key
    pub same_public : public_part pair.private_jwk ≡ pair.public_key_jwk

  kept_pair :
      Kept
      → stored_key ks (some (ks.stringify pair.private_jwk))
        ≡ some (pair.private_key, pair.public_key_jwk)
  kept_pair k = rw (k.parsed, k.same_key, k.same_public) refl

  key_or_again :
      (pair' : KeyPair Key) (stored : Option Text) (o : Option (Key × PublicKey))
      → Kept
      → stored_key ks stored ≡ o
      → let d = key_or ks stored pair o in ensure_device_key_pair ks pair' d.stored ≡ d
  unfolding ensure_device_key_pair
  key_or_again pair' stored none k e = rw (kept_pair k) refl
  key_or_again pair' stored (some (x, p)) k e = rw e refl

  -- Whatever the store held before, a browser that asks for its key once more, with any other pair at
  -- hand, gets the same private key and the same public part, and its store stays as it is; this is
  -- where the store gives a pair back that was generated and stored.
  pub ensure_keeps_key :
      (pair' : KeyPair Key) (stored : Option Text)
      → Kept
      → let d = ensure_device_key_pair ks pair stored in
        ensure_device_key_pair ks pair' d.stored ≡ d
  unfolding ensure_device_key_pair
  ensure_keeps_key pair' stored k = key_or_again pair' stored (stored_key ks stored) k refl

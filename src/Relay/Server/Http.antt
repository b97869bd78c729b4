-- ===== src/Relay/Server/Http.antt =====
-- apps/relay/src/server.ts: the HTTP requests of the relay. `trim` and `toUpperCase` are the
-- runtime's; a body is what `readJsonBody` makes of it. The random id and token of a new device are
-- arguments.
use steerloop.Common.{
  ℕ, suc, Text, text, same, List, [], ◌∷◌, Option, none, some, Bool, true, false, ◌&&◌, ltb,
  if◌then◌else◌, at_most, is_some, length, take, drop, lookup, remove, values,
}
use steerloop.Protocol.Schema.{PairingOffer}
use steerloop.Relay.Devices.{
  DeviceRegistry, DeviceView, PublicKey, Issued, is_p256_public_key, issue, revoke, list,
}
use steerloop.Relay.Sockets.{Runtime, RelayServer}
use steerloop.Relay.Server.{token_matches, verify_token}

-- The fields of the body that are strings; a key that is no object has no fields.
pub record PairRequest : Type 0 where
  pub code : Option Text
  pub device_name : Option Text
  pub device_public_key : PublicKey

-- What the body of a request is read as: `other` is a value that is no object.
pub data Body : Type 0 where
  too_large invalid other : Body
  object : PairRequest → Body

pub data Request : Type 0 where
  get_healthz : Request
  post_pair : Body → Request
  get_devices : (authorization : Option Text) → Request
  -- `none` where `decodeURIComponent` throws.
  delete_device : (authorization : Option Text) → (device_id : Option Text) → Request
  unknown : Request

pub record Health : Type 0 where
  pub agents : ℕ
  pub clients : ℕ
  pub events : ℕ
  pub pairings : ℕ
  pub devices : ℕ

pub record Pairing : Type 0 where
  pub issued : Issued
  pub host_id : Text
  pub expires_at : Text

pub data Response : Type 0 where
  health : Health → Response
  failed : (status : ℕ) → (error : Text) → Response
  paired : Pairing → Response
  devices : List DeviceView → Response
  device : DeviceView → Response
  -- The handler throws after the last reply it could give, which nothing catches.
  uncaught : Response

-- The fresh values of one request.
pub record Fresh : Type 0 where
  pub now : ℕ
  pub id : Text
  pub token : Text

unfoldable pub starts_with : Text → Text → Bool
starts_with s [] = true
starts_with [] (c ∷ p) = false
starts_with (d ∷ s) (c ∷ p) = same (d ∷ []) (c ∷ []) && starts_with s p

module _ (rt : Runtime) (trim : Text → Text) where
  abbrev pub bearer : Text
  bearer = text "Bearer "

  -- `authenticateHttp`
  unfoldable pub authenticate_http : (now : ℕ) → Option Text → RelayServer → RelayServer × Bool
  authenticate_http now none r = (r, false)
  authenticate_http now (some header) r =
      let token = drop (length bearer) header in
      let t = verify_token rt now token r in
      if starts_with header bearer
      then if token_matches rt r.token token then (r, true) else (t.0, is_some t.1)
      else (r, false)

  abbrev pub unrevoked : List DeviceView → ℕ
  unrevoked [] = 0
  unrevoked (v ∷ vs) = if is_some v.revoked_at then unrevoked vs else suc (unrevoked vs)

  abbrev pub listed : Option DeviceRegistry → List DeviceView
  listed none = []
  listed (some d) = list rt.date_parse (values d.devices)

  -- The name a device gets: at most 128 units.
  unfoldable pub device_name : Option Text → Text
  device_name none = text "Browser device"
  device_name (some name) =
      if ltb 0 (length (trim name)) then take 128 (trim name) else text "Browser device"

  unfoldable pub normal_code : Option Text → Text
  normal_code none = []
  normal_code (some code) = rt.to_upper (trim code)

  abbrev pub issue_reply :
      PairingOffer → RelayServer → Option (DeviceRegistry × Issued) → RelayServer × Response
  issue_reply o r none = (r, failed 400 (text "Invalid device public key"))
  issue_reply o r (some (d, i)) = (
    record r { registry = some d },
    paired (record { issued = i; host_id = o.host_id; expires_at = o.expires_at }),
  )

  abbrev pub issue_device :
      Fresh
      → PairingOffer
      → PairRequest
      → Option DeviceRegistry
      → RelayServer
      → RelayServer × Response
  issue_device f o q none r = (r, failed 503 (text "device_registry_unavailable"))
  issue_device f o q (some d) r = issue_reply o r (
      issue rt.hash d o.host_id (device_name q.device_name) q.device_public_key f.id f.token
        (rt.iso f.now))

  abbrev pub without_offer : Text → RelayServer → RelayServer
  without_offer code r = record r { pairing_offers = remove code r.pairing_offers }

  -- The request with the offer that its code finds.
  unfoldable pub pair_with :
      Fresh
      → PairRequest
      → (code : Text) → Option PairingOffer
      → RelayServer
      → RelayServer × Response
  pair_with f q code none r = (r, failed 401 (text "invalid_pairing_code"))
  pair_with f q code (some o) r =
      if at_most (rt.date_parse o.expires_at) f.now
      then (without_offer code r, failed 401 (text "invalid_pairing_code"))
      else if is_p256_public_key q.device_public_key
      then issue_device f o q r.registry (without_offer code r)
      else (r, failed 400 (text "invalid_device_public_key"))

  abbrev pub no_fields : PairRequest
  no_fields = record {
    code = none;
    device_name = none;
    device_public_key = record { kty = none; crv = none; x = none; y = none };
  }

  unfoldable pub post_pair_object : Fresh → PairRequest → RelayServer → RelayServer × Response
  post_pair_object f q r =
      pair_with f q (normal_code q.code) (lookup (normal_code q.code) r.pairing_offers) r

  abbrev pub revoke_reply :
      RelayServer → DeviceRegistry × Option DeviceView → RelayServer × Response
  revoke_reply r (d, none) = (record r { registry = some d }, failed 404 (text "device_not_found"))
  revoke_reply r (d, some v) = (record r { registry = some d }, device v)

  -- `deviceRegistry?.revoke(decodeURIComponent(deviceId))`
  unfoldable pub delete_authorized :
      Fresh → Option Text → Option DeviceRegistry → RelayServer → RelayServer × Response
  delete_authorized f id none r = (r, failed 404 (text "device_not_found"))
  delete_authorized f none (some d) r = (r, uncaught)
  delete_authorized f (some id) (some d) r = revoke_reply r (revoke d id (rt.iso f.now))

  abbrev pub list_reply : RelayServer → RelayServer × Response
  list_reply r = (r, devices (listed r.registry))

  abbrev pub delete_reply : Fresh → Option Text → RelayServer → RelayServer × Response
  delete_reply f id r = delete_authorized f id r.registry r

  abbrev pub if_authorized :
      (RelayServer → RelayServer × Response) → RelayServer × Bool → RelayServer × Response
  if_authorized reply (r, true) = reply r
  if_authorized reply (r, false) = (r, failed 401 (text "unauthorized"))

  unfoldable pub on_request : Fresh → Request → RelayServer → RelayServer × Response
  on_request f get_healthz r = (
    r,
    health (record {
      agents = length r.agents;
      clients = length r.clients;
      events = length r.history;
      pairings = length r.pairing_offers;
      devices = unrevoked (listed r.registry);
    }),
  )
  on_request f (post_pair too_large) r = (r, failed 400 (text "request body too large"))
  on_request f (post_pair invalid) r = (r, failed 400 (text "invalid JSON"))
  on_request f (post_pair other) r = post_pair_object f no_fields r
  on_request f (post_pair (object q)) r = post_pair_object f q r
  on_request f (get_devices header) r = if_authorized list_reply (authenticate_http f.now header r)
  on_request f (delete_device header id) r =
      if_authorized (delete_reply f id) (authenticate_http f.now header r)
  on_request f unknown r = (r, failed 404 (text "not_found"))

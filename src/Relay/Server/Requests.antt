-- ===== src/Relay/Server/Requests.antt =====
-- A request, and the sockets of the relay.
use steerloop.Common.{
  ℕ, Text, Option, none, some, Bool, true, false, if_either, refl, at_most, length, drop,
}
use steerloop.Protocol.Schema.{PairingOffer}
use steerloop.Relay.Devices.{DeviceRegistry, DeviceView, Issued, is_p256_public_key}
use steerloop.Relay.Sockets.{Runtime, RelayServer}
use steerloop.Relay.Server.{token_matches, verify_token}
use steerloop.Relay.Server.Http.{
  Fresh, Request, Response, PairRequest, on_request, authenticate_http, if_authorized,
  delete_authorized, revoke_reply, post_pair_object, pair_with, issue_device, issue_reply,
  get_healthz, post_pair, get_devices, delete_device, unknown, too_large, invalid, other, object,
  no_fields, list_reply, delete_reply, bearer, starts_with, without_offer,
}
use steerloop.Relay.Server.Invariant.{Quiet, Quiet-refl, Quiet-trans}
use steerloop.Relay.Server.Login.{verify_with-Quiet}

module _ (rt : Runtime) (trim : Text → Text) where
  authenticate_http-Quiet :
      (now : ℕ) (header : Option Text) (r : RelayServer)
      → Quiet r (authenticate_http rt trim now header r).0
  unfolding authenticate_http verify_token
  authenticate_http-Quiet now none r = Quiet-refl r
  authenticate_http-Quiet now (some header) r =
      let token = drop (length (bearer rt trim)) header in
      if_either {A = RelayServer × Bool} (λ t. Quiet r t.0) (starts_with header (bearer rt trim))
        (if_either {A = RelayServer × Bool} (λ t. Quiet r t.0) (token_matches rt r.token token)
          (Quiet-refl r) (verify_with-Quiet rt now token r r.registry))
        (Quiet-refl r)

  if_authorized-Quiet :
      (reply : RelayServer → RelayServer × Response) (r : RelayServer) (t : RelayServer × Bool)
      → ((q : RelayServer) → Quiet q (reply q).0)
      → Quiet r t.0
      → Quiet r (if_authorized rt trim reply t).0
  if_authorized-Quiet reply r (q, true) f h = Quiet-trans r q _ h (f q)
  if_authorized-Quiet reply r (q, false) f h = h

  revoke_reply-Quiet :
      (r : RelayServer) (t : DeviceRegistry × Option DeviceView)
      → Quiet r (revoke_reply rt trim r t).0
  revoke_reply-Quiet r (d, none) = record {
    agents = refl;
    clients = refl;
    queue = refl;
    peers = λ k. refl;
  }
  revoke_reply-Quiet r (d, some v) = record {
    agents = refl;
    clients = refl;
    queue = refl;
    peers = λ k. refl;
  }

  delete_authorized-Quiet :
      (f : Fresh) (id : Option Text) (o : Option DeviceRegistry) (r : RelayServer)
      → Quiet r (delete_authorized rt trim f id o r).0
  unfolding delete_authorized
  delete_authorized-Quiet f id none r = Quiet-refl r
  delete_authorized-Quiet f none (some d) r = Quiet-refl r
  delete_authorized-Quiet f (some id) (some d) r = revoke_reply-Quiet r _

  issue_reply-Quiet :
      (o : PairingOffer) (r : RelayServer) (t : Option (DeviceRegistry × Issued))
      → Quiet r (issue_reply rt trim o r t).0
  issue_reply-Quiet o r none = Quiet-refl r
  issue_reply-Quiet o r (some (d, i)) = record {
    agents = refl;
    clients = refl;
    queue = refl;
    peers = λ k. refl;
  }

  issue_device-Quiet :
      (f : Fresh) (o : PairingOffer) (q : PairRequest) (d : Option DeviceRegistry) (r : RelayServer)
      → Quiet r (issue_device rt trim f o q d r).0
  issue_device-Quiet f o q none r = Quiet-refl r
  issue_device-Quiet f o q (some d) r = issue_reply-Quiet o r _

  pair_with-Quiet :
      (f : Fresh) (q : PairRequest) (code : Text) (o : Option PairingOffer) (r : RelayServer)
      → Quiet r (pair_with rt trim f q code o r).0
  unfolding pair_with
  pair_with-Quiet f q code none r = Quiet-refl r
  pair_with-Quiet f q code (some o) r =
      let r' = without_offer rt trim code r in
      let w : Quiet r r' = record {
        agents = refl;
        clients = refl;
        queue = refl;
        peers = λ k. refl;
      } in
      if_either {A = RelayServer × Response} (λ t. Quiet r t.0)
        (at_most (rt.date_parse o.expires_at) f.now) w
        (if_either {A = RelayServer × Response} (λ t. Quiet r t.0)
          (is_p256_public_key q.device_public_key)
          (Quiet-trans r r' _ w (issue_device-Quiet f o q r.registry r')) (Quiet-refl r))

  pub on_request-Quiet :
      (f : Fresh) (q : Request) (r : RelayServer) → Quiet r (on_request rt trim f q r).0
  unfolding on_request post_pair_object
  on_request-Quiet f get_healthz r = Quiet-refl r
  on_request-Quiet f (post_pair too_large) r = Quiet-refl r
  on_request-Quiet f (post_pair invalid) r = Quiet-refl r
  on_request-Quiet f (post_pair other) r = pair_with-Quiet f (no_fields rt trim) _ _ r
  on_request-Quiet f (post_pair (object q)) r = pair_with-Quiet f q _ _ r
  on_request-Quiet f (get_devices header) r =
      if_authorized-Quiet (list_reply rt trim) r _ (λ q. Quiet-refl q)
        (authenticate_http-Quiet f.now header r)
  on_request-Quiet f (delete_device header id) r =
      if_authorized-Quiet (delete_reply rt trim f id) r _
        (λ q. delete_authorized-Quiet f id q.registry q) (authenticate_http-Quiet f.now header r)
  on_request-Quiet f unknown r = Quiet-refl r

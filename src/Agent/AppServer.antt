-- ===== src/Agent/AppServer.antt =====
-- apps/agent/src/codex-app-server.ts: requests to the Codex process and its answers, over lines of
-- JSON. The process is running or not; a line that is read is its JSON value. A promise that is settled
-- is recorded in `settled`, the latest last.
pub mod Accounts
pub mod Pending
mod Tests
use steerloop.Common.{
  ℕ, ◌+◌, Text, text, same, List, [], ◌∷◌, ◌++◌, Option, none, some, Bool, true, false, ◌&&◌, not,
  ◌==◌, if◌then◌else◌, map,
}
use steerloop.Common.Json.{
  Json, null, bool, num, str, arr, obj, Fields, object, member, as_record, as_string, string_or,
}
use steerloop.Common.Effects.{Effect, Outcome, ok, throws}

-- What is written to the process.
pub data Written : Type 0 where
  call : (id : ℕ) → (method : Text) → (params : Json) → Written
  notification : (method : Text) → (params : Json) → Written
  response : (id : Json) → (result : Json) → Written
  error_response : (id : Json) → (code message : Text) → Written

-- What becomes of a request: its result may be `undefined`.
pub data Settled : Type 0 where
  resolved : (id : ℕ) → Option Json → Settled
  rejected : (id : ℕ) → (message : Text) → Settled

pub record ServerMessage : Type 0 where
  pub method : Text
  pub params : Option Json

-- What the client's owner is told.
pub data Told : Type 0 where
  on_notification : ServerMessage → Told
  on_server_request : (id : Json) → ServerMessage → Told

pub record AppServer : Type 0 where
  pub running : Bool
  pub next_request_id : ℕ
  pub pending : List (ℕ × Text)
  pub initialization_result : Option Json
  pub written : List Written
  pub settled : List Settled
  pub told : List Told

abbrev pub new_client : AppServer
new_client = record {
  running = false;
  next_request_id = 1;
  pending = [];
  initialization_result = none;
  written = [];
  settled = [];
  told = [];
}

abbrev not_running : Text
not_running = text "Codex App Server is not running"

unfoldable pub write : Written → Effect AppServer (Unit {0})
write w s =
    if s.running
    then (record s { written = s.written ++ w ∷ [] }, ok tt)
    else (s, throws not_running)

-- The method of a pending request.
unfoldable pub pending_method : ℕ → List (ℕ × Text) → Option Text
pending_method id [] = none
pending_method id ((i, m) ∷ ps) = if i == id then some m else pending_method id ps

unfoldable pub without_request : ℕ → List (ℕ × Text) → List (ℕ × Text)
without_request id [] = []
without_request id ((i, m) ∷ ps) =
    let rest = without_request id ps in if i == id then rest else (i, m) ∷ rest

abbrev pub settle : ℕ → Settled → AppServer → AppServer
settle id r s = record s { pending = without_request id s.pending; settled = s.settled ++ r ∷ [] }

abbrev pub after_write : ℕ → AppServer × Outcome (Unit {0}) → AppServer
after_write id (s, ok u) = s
after_write id (s, throws e) = settle id (rejected id e) s

-- The promise of a request, made and pending; a failed write rejects it at once. Its id is returned.
unfoldable pub request : (method : Text) → (params : Json) → AppServer → AppServer × ℕ
request method params s =
    let id = s.next_request_id in
    (
      after_write id (
          write (call id method params)
            (record s { next_request_id = id + 1; pending = s.pending ++ (id, method) ∷ [] })),
      id,
    )

unfoldable pub notify : (method : Text) → (params : Json) → Effect AppServer (Unit {0})
notify method params = write (notification method params)

unfoldable pub respond : (id result : Json) → Effect AppServer (Unit {0})
respond id result = write (response id result)

unfoldable pub respond_error : (id : Json) → (code message : Text) → Effect AppServer (Unit {0})
respond_error id code message = write (error_response id code message)

abbrev pub settle_pending : Option Text → ℕ → (Text → Settled) → AppServer → AppServer
settle_pending none id r s = s
settle_pending (some m) id r s = settle id (r m) s

unfoldable pub on_timeout : ℕ → AppServer → AppServer
on_timeout id s =
    settle_pending (pending_method id s.pending) id
      (λ m. rejected id (text "Codex request timed out: " ++ m)) s

abbrev pub reject_pending : Text → ℕ × Text → Settled
reject_pending reason (id, m) = rejected id reason

unfoldable pub on_exit : (reason : Text) → AppServer → AppServer
on_exit reason s = record s {
  running = false;
  settled = s.settled ++ map (reject_pending reason) s.pending;
  pending = [];
}

unfoldable pub on_error : (message : Text) → AppServer → AppServer
on_error message s = record s {
  settled = s.settled ++ map (reject_pending message) s.pending;
  pending = [];
}

abbrev with_id : AppServer × ℕ → AppServer × Option ℕ
with_id (s, id) = (s, some id)

abbrev initialize_params : Json
initialize_params = obj (
    object (
      (
        text "clientInfo",
        obj (
            object (
              (text "name", str (text "steerloop-agent"))
              ∷ (text "title", str (text "Steerloop Agent"))
              ∷ (text "version", str (text "0.1.0"))
              ∷ [])),
      )
      ∷ (
        text "capabilities",
        obj (
            object (
              (text "experimentalApi", bool false) ∷ (text "requestAttestation", bool false) ∷ [])),
      )
      ∷ []))

-- `start`, up to the request that initializes; nothing where the process runs already.
unfoldable pub start : AppServer → AppServer × Option ℕ
start s =
    if s.running
    then (s, none)
    else with_id (request (text "initialize") initialize_params (record s { running = true }))

-- The rest of `start`, with the result of that request.
unfoldable pub initialized : Option Json → Effect AppServer (Unit {0})
initialized result s =
    notify (text "initialized") (obj (object [])) (record s { initialization_result = result })

unfoldable pub stop : AppServer → AppServer
stop s = record s { running = false; initialization_result = none }

-- A field that is truthy is missing to a request's answer.
abbrev pub is_falsy : Option Json → Bool
is_falsy none = true
is_falsy (some null) = true
is_falsy (some (bool b)) = not b
is_falsy (some (num n)) = same n (text "0")
is_falsy (some (str [])) = true
is_falsy _ = false

-- A message with a method: with an id it asks, without it tells.
abbrev pub tell : Option Json → ServerMessage → AppServer → AppServer
tell (some (str i)) m s = record s { told = s.told ++ on_server_request (str i) m ∷ [] }
tell (some (num i)) m s = record s { told = s.told ++ on_server_request (num i) m ∷ [] }
tell _ m s = record s { told = s.told ++ on_notification m ∷ [] }

abbrev pub with_method : Option Text → Fields → AppServer → AppServer
with_method none fs s = s
with_method (some m) fs s =
    tell (member (text "id") fs) (record { method = m; params = member (text "params") fs }) s

abbrev pub is_id : Option Json → Bool
is_id (some (str i)) = true
is_id (some (num i)) = true
is_id _ = false

-- `show` is `String`; `parse_id` reads the number of a request; other ids are pending for none.
module _ (show : Json → Text) (parse_id : Json → Option ℕ) where
  abbrev pub error_message : Json → Text
  error_message e =
      string_or show (member (text "message") (as_record (some e))) (text "Codex request failed")

  -- The answer to a pending request; an `error` that is null has no message to read, and throws.
  abbrev pub settle_answer : ℕ → Option Json → Option Json → Effect AppServer (Unit {0})
  settle_answer id none result s = (settle id (resolved id result) s, ok tt)
  settle_answer id (some null) result s = (
    record s { pending = without_request id s.pending },
    throws (text "Cannot read properties of null"),
  )
  settle_answer id (some e) result s = (settle id (rejected id (error_message e)) s, ok tt)

  abbrev pub answer_pending : Option Text → ℕ → Fields → Effect AppServer (Unit {0})
  answer_pending none id fs s = (s, ok tt)
  answer_pending (some m) id fs s =
      settle_answer id (member (text "error") fs) (member (text "result") fs) s

  abbrev pub answer_request : Option ℕ → Fields → Effect AppServer (Unit {0})
  answer_request none fs s = (s, ok tt)
  answer_request (some id) fs s = answer_pending (pending_method id s.pending) id fs s

  abbrev pub answered : Option Json → Fields → Effect AppServer (Unit {0})
  answered none fs s = (s, ok tt)
  answered (some j) fs s = answer_request (parse_id j) fs s

  abbrev pub is_answer : Fields → Bool
  is_answer fs = is_id (member (text "id") fs) && is_falsy (member (text "method") fs)

  -- A line, as its JSON value: `none` where it is no JSON.
  unfoldable pub handle_line : Option Json → Effect AppServer (Unit {0})
  handle_line (some (obj fs)) s =
      if is_answer fs
      then answered (member (text "id") fs) fs s
      else (with_method (as_string (member (text "method") fs)) fs s, ok tt)
  handle_line _ s = (s, ok tt)

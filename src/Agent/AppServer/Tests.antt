-- ===== src/Agent/AppServer/Tests.antt =====
-- The client of the Codex process on concrete lines, and each theorem at such an input.
use steerloop.Common.{ℕ, Text, text, text_dec, [], ◌∷◌, Option, none, some, ◌≡◌, refl}
use steerloop.Common.Json.{Json, null, num, str, obj, object, member}
use steerloop.Common.Effects.{throws}
use steerloop.Agent.AppServer.{
  new_client, resolved, start, stop, write, pending_method, without_request, request, handle_line,
}
use steerloop.Agent.AppServer.Accounts.{lost_after, Accounted}
use steerloop.Agent.AppServer.Pending
use steerloop.Agent.AppServer.Pending.{named, Reaches-Accounted}

app_server : Unit {0}
unfolding text_dec member write pending_method without_request request start handle_line
app_server = tt

abbrev show : Json → Text
show j = []

-- Only the id 1 is read.
abbrev parse_id : Json → Option ℕ
parse_id (num (c ∷ [])) = some 1
parse_id _ = none

abbrev answer : Option Json
answer = some (obj (object ((text "id", num (text "1")) ∷ (text "result", str (text "x")) ∷ [])))

abbrev null_error : Option Json
null_error = some (obj (object ((text "id", num (text "1")) ∷ (text "error", null) ∷ [])))

-- An answer settles its request; one with a null error throws and leaves it neither pending nor settled.
answer_tests :
    (let t = (handle_line show parse_id answer (start new_client).0).0 in
      (t.pending ≡ []) × (t.settled ≡ resolved 1 (some (str (text "x"))) ∷ []))
    × (let t = handle_line show parse_id null_error (start new_client).0 in
        (t.0.pending ≡ [])
        × (t.0.settled ≡ [])
        × (t.1 ≡ throws (text "Cannot read properties of null")))
unfolding app_server
answer_tests = ((refl, refl), (refl, refl, refl))

-- A line with a null error, which loses the request of the start, and another start.
Reaches-Accounted_example :
    let (t, o) = handle_line show parse_id null_error (start new_client).0 in
    Accounted (lost_after (named show parse_id null_error) [] o) (start (stop t)).0
Reaches-Accounted_example =
    let t = handle_line show parse_id null_error (start new_client).0 in
    let lost = lost_after (named show parse_id null_error) [] t.1 in
    Reaches-Accounted show parse_id lost (start (stop t.0)).0 (
      Pending.starts lost (stop t.0) (
        Pending.stops lost t.0 (
          Pending.reads [] (start new_client).0 null_error
            (Pending.starts [] new_client Pending.fresh))))

-- ===== src/Agent/Config/Tests.antt =====
-- Options of the agent that are read from concrete environments.
use steerloop.Common.{Text, text, text_dec, none, some, ◌≡◌, refl}
use steerloop.Common.Effects.{ok, throws}
use steerloop.Relay.Journal.{is_space}
use steerloop.Relay.Config.{drop_spaces, reverse_onto, trim}
use steerloop.Agent.Config.{codex, adapter_name, pairing_code}

options : Unit {0}
unfolding text_dec is_space drop_spaces reverse_onto trim adapter_name pairing_code
options = tt

abbrev upper : Text → Text
upper t = t

option_tests :
    (adapter_name (some (text "codex")) ≡ ok codex)
    × (adapter_name (some (text "x")) ≡ throws (text "STEERLOOP_ADAPTER must be demo or codex"))
    × (pairing_code upper (text "ABCDEF01") none ≡ text "ABCD-EF01")
    × (pairing_code upper (text "ABCDEF01") (some (text " XY ")) ≡ text "XY")
unfolding options
option_tests = (refl, refl, refl, refl)

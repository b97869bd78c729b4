-- ===== src/Agent/Compatibility/Tests.antt =====
-- Versions of the Codex command line.
use steerloop.Common.{ℕ, text, text_dec, none, some, true, false, ◌↔◌, ◌≡◌, refl}
use steerloop.Agent.Compatibility.{
  read_number, split_dots, version_tuple, at_least, AreLater, tested_codex_cli_version,
  at_least_lem,
}

versions : Unit {0}
unfolding text_dec read_number split_dots version_tuple at_least
versions = tt

-- The numbers of the tests are small.
abbrev exact : ℕ → ℕ
exact n = n

version_tests :
    (at_least exact (text "0.150.1") tested_codex_cli_version ≡ true)
    × (at_least exact (text "0.99.9") tested_codex_cli_version ≡ false)
    × (version_tuple exact (text "1.2") ≡ none)
    × (version_tuple exact (text "10.0.3") ≡ some (10, 0, 3))
unfolding versions
version_tests = (refl, refl, refl, refl)

at_least_lem_example :
    (at_least exact (text "0.150.1") tested_codex_cli_version ≡ true)
    ↔ AreLater (version_tuple exact (text "0.150.1")) (version_tuple exact tested_codex_cli_version)
at_least_lem_example = at_least_lem exact (text "0.150.1") tested_codex_cli_version

-- ===== src/Agent/Compatibility.antt =====
-- apps/agent/src/compatibility.ts: the version of the Codex command line, and the report on it. `round`
-- is how `Number` rounds a whole number, with 2 ^ 1024 for Infinity.
mod Tests
use mathlib.Core.Option as Option
use steerloop.Common.{
  ℕ, ◌+◌, ◌-◌, ◌*◌, ◌≤◌, ◌<◌, Text, text, List, [], ◌∷◌, ◌++◌, Option, none, some, Bool, true,
  false, ◌&&◌, not, is_some, leb, ltb, ◌==◌, if◌then◌else◌, if_cases, length, Option-cases,
  Bool-cases, ◌⊎◌, ◌↔◌, inl, inr, arith, ◌≡◌, refl, sym, ap, ◌∙◌, subst,
}
use steerloop.Common.Json.{Json, Items, items, member, as_record, as_array}
use steerloop.Relay.Journal.{cons_head}

abbrev is_digit : ℕ → Bool
is_digit c = leb b'0' c && leb c b'9'

-- The number that a text of digits writes, after the digits read before.
unfoldable pub read_number : ℕ → Text → Option ℕ
read_number n [] = some n
read_number n (c ∷ s) = if is_digit c then read_number (n * 10 + (c - b'0')) s else none

-- `\d+`
abbrev pub number : (round : ℕ → ℕ) → Text → Option ℕ
number round [] = none
number round (c ∷ s) = Option.map round (read_number 0 (c ∷ s))

unfoldable pub split_dots : Text → List Text
split_dots [] = [] ∷ []
split_dots (c ∷ s) = let rest = split_dots s in if c == b'.' then [] ∷ rest else cons_head c rest

abbrev pub Version : Type 0
Version = ℕ × ℕ × ℕ

abbrev with_patch : ℕ → ℕ → Option ℕ → Option Version
with_patch a b none = none
with_patch a b (some c) = some (a, b, c)

abbrev with_minor : ℕ → Option ℕ → Option ℕ → Option Version
with_minor a none c = none
with_minor a (some b) c = with_patch a b c

abbrev with_major : Option ℕ → Option ℕ → Option ℕ → Option Version
with_major none b c = none
with_major (some a) b c = with_minor a b c

abbrev tuple_of : (round : ℕ → ℕ) → List Text → Option Version
tuple_of round (a ∷ b ∷ c ∷ []) = with_major (number round a) (number round b) (number round c)
tuple_of round _ = none

unfoldable pub version_tuple : (round : ℕ → ℕ) → Text → Option Version
version_tuple round v = tuple_of round (split_dots v)

abbrev pub tuple_at_least : Version → Version → Bool
tuple_at_least (a, b, c) (d, e, f) =
    if not (a == d)
    then ltb d a
    else if not (b == e)
    then ltb e b
    else if not (c == f)
    then ltb f c
    else true

abbrev pub both_at_least : Option Version → Option Version → Bool
both_at_least none m = false
both_at_least (some v) none = false
both_at_least (some v) (some m) = tuple_at_least v m

unfoldable pub at_least : (round : ℕ → ℕ) → (version minimum : Text) → Bool
at_least round version minimum =
    both_at_least (version_tuple round version) (version_tuple round minimum)

abbrev pub tested_codex_cli_version : Text
tested_codex_cli_version = text "0.147.0"

pub record CodexCompatibilityReport : Type 0 where
  pub compatible : Bool
  pub cli_version : Text
  pub tested_version : Text
  pub initialized : Bool
  pub thread_list : Bool
  pub model_list : Bool
  pub thread_count_sampled : ℕ
  pub model_count_sampled : ℕ

abbrev count : Option (List Json) → ℕ
count none = 0
count (some js) = length js

-- The report on a version, from whether the client has server info and what it was replied.
unfoldable pub compatibility_report :
    (round : ℕ → ℕ)
    → (cli_version : Text) → (initialized : Bool) → (threads models : Option Json)
    → CodexCompatibilityReport
compatibility_report round cli_version initialized threads models =
    let thread_data = as_array (member (text "data") (as_record threads)) in
    let model_data = as_array (member (text "data") (as_record models)) in
    record {
      compatible =
          at_least round cli_version tested_codex_cli_version
          && initialized
          && is_some thread_data
          && is_some model_data;
      cli_version = cli_version;
      tested_version = tested_codex_cli_version;
      initialized = initialized;
      thread_list = is_some thread_data;
      model_list = is_some model_data;
      thread_count_sampled = count thread_data;
      model_count_sampled = count model_data;
    }

-- The order of versions: the first number that differs decides.
abbrev pub IsLater : Version → Version → Type 0
IsLater (a, b, c) (d, e, f) = (d < a) ⊎ (a ≡ d) × ((e < b) ⊎ (b ≡ e) × (f ≤ c))

tuple_at_least-IsLater : (v m : Version) → tuple_at_least v m ≡ true → IsLater v m
tuple_at_least-IsLater (a, b, c) (d, e, f) h = ground arith

IsLater-tuple_at_least : (v m : Version) → IsLater v m → tuple_at_least v m ≡ true
IsLater-tuple_at_least (a, b, c) (d, e, f) h = ground arith

-- The two texts are versions, and the first is as late as the second.
abbrev pub AreLater : Option Version → Option Version → Type 0
AreLater o p = (v : Version) × (m : Version) × (o ≡ some v) × (p ≡ some m) × IsLater v m

both_at_least-AreLater : (o p : Option Version) → both_at_least o p ≡ true → AreLater o p
both_at_least-AreLater none p h = absurd (cc h)
both_at_least-AreLater (some v) none h = absurd (cc h)
both_at_least-AreLater (some v) (some m) h = (v, m, refl, refl, tuple_at_least-IsLater v m h)

-- A version is found to be at least another exactly when both texts are versions of three numbers and
-- the first is as late in the order in which the first number that differs decides, once they are
-- rounded.
pub at_least_lem :
    (round : ℕ → ℕ) (version minimum : Text)
    → (at_least round version minimum ≡ true)
      ↔ AreLater (version_tuple round version) (version_tuple round minimum)
unfolding at_least
at_least_lem round version minimum = (
  both_at_least-AreLater (version_tuple round version) (version_tuple round minimum),
  λ (v, m, e, f, later). rw (e, f) (IsLater-tuple_at_least v m later),
)

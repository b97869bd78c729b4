-- ===== src/Common/Effects.antt =====
-- Code that changes a state, sends out effects and may throw. What was done before a throw stays done.

use mathlib.Core.Bool.{Bool}
use mathlib.Core.Option.{Option, none, some}
use steerloop.Common.Strings.{Text}
use steerloop.Common.Tests.{if◌then◌else◌}

pub data Outcome (A : Type 0) : Type 0 where
  ok : A → Outcome A
  throws : (message : Text) → Outcome A

abbrev pub Effect : Type 0 → Type 0 → Type 0
Effect S A = S → S × Outcome A

abbrev pub after_outcome : {S A B : Type 0} → S × Outcome A → (A → Effect S B) → S × Outcome B
after_outcome (s, ok a) f = f a s
after_outcome (s, throws e) f = (s, throws e)

infixl 5 ◌>>=◌ ◌>>◌
abbrev pub ◌>>=◌ : {S A B : Type 0} → Effect S A → (A → Effect S B) → Effect S B
◌>>=◌ m f s = after_outcome (m s) f

abbrev pub ◌>>◌ : {S B : Type 0} → Effect S (Unit {0}) → Effect S B → Effect S B
m >> k = m >>= λ _. k

abbrev pub return : {S A : Type 0} → A → Effect S A
return a s = (s, ok a)

abbrev pub throw : {S A : Type 0} → Text → Effect S A
throw e s = (s, throws e)

abbrev pub get : {S : Type 0} → Effect S S
get s = (s, ok s)

abbrev pub modify : {S : Type 0} → (S → S) → Effect S (Unit {0})
modify f s = (f s, ok tt)

-- Throws unless the test holds.
abbrev pub require : {S : Type 0} → Bool → Text → Effect S (Unit {0})
require b e s = (s, if b then ok tt else throws e)

abbrev pub when : {S : Type 0} → Bool → Effect S (Unit {0}) → Effect S (Unit {0})
when b m s = if b then m s else (s, ok tt)

-- The error of a call that was made, as `catch` sees it.
abbrev pub caught : {A : Type 0} → Outcome A → Option Text
caught (ok a) = none
caught (throws e) = some e

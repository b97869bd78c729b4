-- ===== src/Common/Json.antt =====
-- JSON values as the sources look into them. `undefined` is `none`; a number is the text that `String`
-- makes of it.
use mathlib.Core.Bool.{Bool, false}
use mathlib.Core.Option.{Option, none, some}
use mathlib.Core.List.{List, [], ◌∷◌}
use steerloop.Common.Strings.{Text, text, same}
use steerloop.Common.Tests.{if◌then◌else◌}

mutual
  pub data Json : Type 0 where
    null : Json
    bool : Bool → Json
    num : Text → Json
    str : Text → Json
    arr : Items → Json
    obj : Fields → Json

  pub data Items : Type 0 where
    nil : Items
    cons : Json → Items → Items

  pub data Fields : Type 0 where
    end : Fields
    field : Text → Json → Fields → Fields

abbrev pub items : Items → List Json
items nil = []
items (cons j js) = j ∷ items js

abbrev pub object : List (Text × Json) → Fields
object [] = end
object ((k, v) ∷ fs) = field k v (object fs)

abbrev later : Option Json → Option Json → Option Json
later none j = j
later (some i) j = some i

-- The last field of that name.
unfoldable pub member : Text → Fields → Option Json
member k end = none
member k (field j v fs) = later (member k fs) (if same j k then some v else none)

-- `asRecord`: an array has none of the named fields.
abbrev pub as_record : Option Json → Fields
as_record (some (obj fs)) = fs
as_record _ = end

-- `Array.isArray(value) ? value : undefined`
abbrev pub as_array : Option Json → Option (List Json)
as_array (some (arr js)) = some (items js)
as_array _ = none

-- `typeof value === "string" ? value : undefined`
abbrev pub as_string : Option Json → Option Text
as_string (some (str s)) = some s
as_string _ = none

abbrev pub is_string : Option Json → Text → Bool
is_string (some (str s)) t = same s t
is_string _ t = false

abbrev pub is_true : Option Json → Bool
is_true (some (bool b)) = b
is_true _ = false

-- `String(value ?? other)`, where `show` is `String` on arrays and objects.
abbrev pub string_or : (Json → Text) → Option Json → Text → Text
string_or show none other = other
string_or show (some null) other = other
string_or show (some (bool b)) other = if b then text "true" else text "false"
string_or show (some (num n)) other = n
string_or show (some (str s)) other = s
string_or show (some (arr js)) other = show (arr js)
string_or show (some (obj fs)) other = show (obj fs)

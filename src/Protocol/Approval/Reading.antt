-- ===== src/Protocol/Approval/Reading.antt =====
-- Reading a text that `JSON.stringify` wrote back from what it wrote.
use steerloop.Common.{
  ℕ, ◌+◌, ◌-◌, ◌*◌, ◌/◌, ◌%◌, ◌<◌, Text, [], ◌∷◌, ◌++◌, Option, none, some, Bool, true, false, ◌&&◌,
  ◌||◌, ltb, ◌==◌, if◌then◌else◌, Bool-cases, inl, inr, arith, ◌≡◌, refl, sym, ap, ◌∙◌,
}
use mathlib.Core.List.{append_assoc}
use steerloop.Protocol.Approval.{
  is_high, is_low, lower_hex, unicode_escape, quote_unit, quote_units, quote,
}

-- What is awaited: a unit, the letter of an escape, or more digits after those of `n`.
data Mode : Type 0 where
  plain escaped : Mode
  first second third fourth : (n : ℕ) → Mode

abbrev push : ℕ → Option (Text × Text) → Option (Text × Text)
push c none = none
push c (some (s, r)) = some (c ∷ s, r)

abbrev hex_value : ℕ → ℕ
hex_value c = if ltb c b'a' then c - b'0' else c - b'a' + 10

abbrev short_escape : ℕ → ℕ
short_escape c =
    if c == b'b'
    then 8
    else if c == b't'
    then 9
    else if c == b'n'
    then 10
    else if c == b'f'
    then 12
    else if c == b'r'
    then 13
    else c

-- The text up to its closing quotation mark, and what follows that.
scan : Mode → Text → Option (Text × Text)
scan m [] = none
scan plain (c ∷ s) =
    let escape = scan escaped s in
    let next = push c (scan plain s) in
    if c == 34 then some ([], s) else if c == 92 then escape else next
scan escaped (c ∷ s) =
    let digits = scan (first 0) s in
    let next = push (short_escape c) (scan plain s) in if c == b'u' then digits else next
scan (first n) (c ∷ s) = scan (second (n * 16 + hex_value c)) s
scan (second n) (c ∷ s) = scan (third (n * 16 + hex_value c)) s
scan (third n) (c ∷ s) = scan (fourth (n * 16 + hex_value c)) s
scan (fourth n) (c ∷ s) = push (n * 16 + hex_value c) (scan plain s)

hex_value-lower_hex : (d : ℕ) → d < 16 → hex_value (lower_hex d) ≡ d
hex_value-lower_hex d h = ground arith

hex_digits :
    (c : ℕ)
    → c < 65536
    → (((0 * 16 + c / 4096 % 16) * 16 + c / 256 % 16) * 16 + c / 16 % 16) * 16 + c % 16 ≡ c
hex_digits c h = omega arith

scan-unicode_escape :
    (c : ℕ) (rest : Text)
    → c < 65536
    → scan plain (unicode_escape c ++ rest) ≡ push c (scan plain rest)
unfolding scan
scan-unicode_escape c rest h =
    rw
      (
        hex_value-lower_hex (c / 4096 % 16) (omega arith),
        hex_value-lower_hex (c / 256 % 16) (omega arith),
        hex_value-lower_hex (c / 16 % 16) (omega arith),
        hex_value-lower_hex (c % 16) (omega arith),
      )
      (ap (λ n. push n (scan plain rest)) (hex_digits c h))

scan_raw :
    (c : ℕ) (rest : Text)
    → (c == 34) ≡ false
    → (c == 92) ≡ false
    → scan plain (c ∷ rest) ≡ push c (scan plain rest)
unfolding scan
scan_raw c rest h g = rw (h, g) refl

equal : (c d : ℕ) → (c == d) ≡ true → c ≡ d
equal c d h = ground (arith, h)

-- A unit that is escaped by a letter.
scan_letter :
    (c d e : ℕ) (rest : Text)
    → (c == d) ≡ true
    → (e == b'u') ≡ false
    → short_escape e ≡ d
    → scan plain (92 ∷ e ∷ rest) ≡ push c (scan plain rest)
unfolding scan
scan_letter c d e rest h g f = rw (g, f, equal c d h) refl

-- The units without a short escape of white space.
abbrev quote_other : ℕ → Text
quote_other c =
    if c == 34
    then 92 ∷ 34 ∷ []
    else if c == 92
    then 92 ∷ 92 ∷ []
    else if ltb c 32 || is_high c || is_low c
    then unicode_escape c
    else c ∷ []

escaped_small : (c : ℕ) → (ltb c 32 || is_high c || is_low c) ≡ true → c < 65536
escaped_small c h = ground (arith, h)

scan_other : (c : ℕ) (rest : Text) → scan plain (quote_other c ++ rest) ≡ push c (scan plain rest)
scan_other c rest = elim (Bool-cases (c == 34)) [
  | inl h ↦ rw h (scan_letter c 34 34 rest h refl refl)
  | inr n34 ↦ elim (Bool-cases (c == 92)) [
    | inl h ↦ rw (n34, h) (scan_letter c 92 92 rest h refl refl)
    | inr n92 ↦ elim (Bool-cases (ltb c 32 || is_high c || is_low c)) [
      | inl h ↦ rw (n34, n92, h) (scan-unicode_escape c rest (escaped_small c h))
      | inr raw ↦ rw (n34, n92, raw) (scan_raw c rest n34 n92)
    ]
  ]
]

scan-quote_unit :
    (c : ℕ) (rest : Text) → scan plain (quote_unit c ++ rest) ≡ push c (scan plain rest)
unfolding quote_unit
scan-quote_unit c rest = elim (Bool-cases (c == 8)) [
  | inl h ↦ rw h (scan_letter c 8 b'b' rest h refl refl)
  | inr n8 ↦ elim (Bool-cases (c == 9)) [
    | inl h ↦ rw (n8, h) (scan_letter c 9 b't' rest h refl refl)
    | inr n9 ↦ elim (Bool-cases (c == 10)) [
      | inl h ↦ rw (n8, n9, h) (scan_letter c 10 b'n' rest h refl refl)
      | inr n10 ↦ elim (Bool-cases (c == 12)) [
        | inl h ↦ rw (n8, n9, n10, h) (scan_letter c 12 b'f' rest h refl refl)
        | inr n12 ↦ elim (Bool-cases (c == 13)) [
          | inl h ↦ rw (n8, n9, n10, n12, h) (scan_letter c 13 b'r' rest h refl refl)
          | inr n13 ↦ rw (n8, n9, n10, n12, n13) (scan_other c rest)
        ]
      ]
    ]
  ]
]

high_raw : (c : ℕ) → is_high c ≡ true → ((c == 34) ≡ false) × ((c == 92) ≡ false)
high_raw c h = ground (arith, h)

low_raw : (c : ℕ) → is_low c ≡ true → ((c == 34) ≡ false) × ((c == 92) ≡ false)
low_raw c h = ground (arith, h)

both_true : (a b : Bool) → (a && b) ≡ true → (a ≡ true) × (b ≡ true)
both_true a b h = ground (arith, h)

scan_end : (r : Text) → scan plain (34 ∷ r) ≡ some ([], r)
unfolding scan
scan_end r = refl

scan-quote_units : (s r : Text) → scan plain (quote_units s ++ 34 ∷ r) ≡ some (s, r)
unfolding quote_units
scan-quote_units [] r = scan_end r
scan-quote_units (c ∷ []) r = scan-quote_unit c (34 ∷ r) ∙ ap (push c) (scan_end r)
scan-quote_units (c ∷ d ∷ s) r = elim (Bool-cases (is_high c && is_low d)) [
  | inl pair ↦
      let both = both_true (is_high c) (is_low d) pair in
      let x = high_raw c both.0 in
      let y = low_raw d both.1 in
      let rest = quote_units s ++ 34 ∷ r in
      rw pair (
        scan_raw c (d ∷ rest) x.0 x.1
        ∙ ap (push c) (scan_raw d rest y.0 y.1)
        ∙ ap (λ o. push c (push d o)) (scan-quote_units s r))
  | inr single ↦
      let rest = quote_units (d ∷ s) in
      rw single (
        ap (scan plain) (append_assoc (quote_unit c) rest (34 ∷ r))
        ∙ scan-quote_unit c (rest ++ 34 ∷ r)
        ∙ ap (push c) (scan-quote_units (d ∷ s) r))
]

abbrev rest_of : Text → Text
rest_of [] = []
rest_of (c ∷ s) = s

abbrev quoted_of : Option (Text × Text) → Text
quoted_of none = []
quoted_of (some (s, r)) = s

abbrev left_of : Option (Text × Text) → Text
left_of none = []
left_of (some (s, r)) = r

-- A quoted text at the front of a text determines what it quotes, and what follows it.
pub quote_cancel : (s t r r' : Text) → quote s ++ r ≡ quote t ++ r' → (s ≡ t) × (r ≡ r')
unfolding quote
quote_cancel s t r r' h =
    let e : Path (Option (Text × Text)) (some (s, r)) (some (t, r')) =
      sym (scan-quote_units s r)
      ∙ ap (scan plain) (sym (append_assoc (quote_units s) (34 ∷ []) r))
      ∙ ap (λ x. scan plain (rest_of x)) h
      ∙ ap (scan plain) (append_assoc (quote_units t) (34 ∷ []) r')
      ∙ scan-quote_units t r' in
    (ap quoted_of e, ap left_of e)

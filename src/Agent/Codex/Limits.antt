-- ===== src/Agent/Codex/Limits.antt =====
-- Cutting a text of the Codex process to a limit.
use steerloop.Common.{
  ℕ, zero, suc, ◌+◌, ◌-◌, ◌≤◌, ◌<◌, Text, text, [], ◌∷◌, ◌++◌, leb, leb→le, length, take, arith,
  ◌≡◌, refl, ap, Bool-cases, inl, inr,
}
use steerloop.Agent.Codex.Values.{limit_codex_string}

length-take_le : (n : ℕ) (s : Text) → length (take n s) ≤ n
length-take_le zero s = ground arith
length-take_le (suc n) [] = ground arith
length-take_le (suc n) (c ∷ s) = ground (arith, length-take_le n s)

length-take_cut : (n : ℕ) (s e : Text) → n ≤ length s → length (take n s ++ e) ≡ n + length e
length-take_cut zero s e h = omega arith
length-take_cut (suc n) [] e h = absurd (omega arith)
length-take_cut (suc n) (c ∷ s) e h = ground (arith, length-take_cut n s e)

take-append_cut : (n : ℕ) (s e : Text) → n ≤ length s → take n (take n s ++ e) ≡ take n s
take-append_cut zero s e h = refl
take-append_cut (suc n) [] e h = absurd (omega arith)
take-append_cut (suc n) (c ∷ s) e h = ap (λ t. c ∷ t) (take-append_cut n s e (omega arith))

limit_long :
    (s : Text) (n : ℕ)
    → n < length s
    → 3 < n
    → limit_codex_string s n ≡ take (n - 3) s ++ text "..."
unfolding limit_codex_string
limit_long s n h g = ground arith

limit_tiny : (s : Text) (n : ℕ) → n < length s → n ≤ 3 → limit_codex_string s n ≡ take n s
unfolding limit_codex_string
limit_tiny s n h g = ground arith

length-limit_codex_string : (s : Text) (n : ℕ) → n < length s → length (limit_codex_string s n) ≤ n
length-limit_codex_string s n h = elim (Bool-cases (leb n 3)) [
  | inl tiny ↦ rw (limit_tiny s n h (leb→le n 3 tiny)) (length-take_le n s)
  | inr long ↦
      let cut : n - 3 ≤ length s = omega (arith, h) in
      rw (limit_long s n h (ground (arith, long)))
        (ground (arith, long, length-take_cut (n - 3) s (text "...") cut))
]

-- A text is kept as it is when it has at most the limit's units. A longer one is cut to at most the
-- limit; where the limit is above three it is cut to the limit, and begins as it did up to the last
-- three units, which are dots.
pub limit_codex_string_lem :
    (s : Text) (n : ℕ)
    → (length s ≤ n → limit_codex_string s n ≡ s)
      × (n < length s → length (limit_codex_string s n) ≤ n)
      × (n < length s
          → 3 < n
          → (length (limit_codex_string s n) ≡ n)
            × (take (n - 3) (limit_codex_string s n) ≡ take (n - 3) s)
            × (limit_codex_string s n ≡ take (n - 3) s ++ text "..."))
unfolding limit_codex_string
limit_codex_string_lem s n = (
  λ h. ground arith,
  λ h. length-limit_codex_string s n h,
  λ h g.
      let cut : n - 3 ≤ length s = omega (arith, h) in
      rw (limit_long s n h g) (
        ground (arith, length-take_cut (n - 3) s (text "...") cut),
        take-append_cut (n - 3) s (text "...") cut,
        refl,
      ),
)

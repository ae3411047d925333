-- ===== src/Text/Decimal.antt =====
-- A number in a template literal: its decimal digits.
use crag_project.Base.{
  ℕ, zero, suc, ◌+◌, ◌-◌, ◌*◌, ◌/◌, ◌%◌, ◌<◌, ◌≡◌, [], ◌∷◌, ◌++◌, arith, ltb, if◌then◌else◌, foldl,
  Bool-cases, inl, inr, false, refl, All, All-append, ◌≤◌,
}
use mathlib.Core.List.{foldl-append}
use crag_project.Text.{Text, is_empty}

digits_from : ℕ → ℕ → Text
digits_from zero n = []
digits_from (suc fuel) n =
    let front = digits_from fuel (n / 10) in
    if ltb n 10 then (48 + n) ∷ [] else front ++ (48 + n % 10) ∷ []

-- `${n}`; a number has no more digits than `n + 1`, so the fuel is enough.
unfoldable pub decimal : ℕ → Text
unfolding digits_from
decimal n = digits_from (suc n) n

-- The number that a row of digits stands for.
abbrev pub digit_step : ℕ → ℕ → ℕ
digit_step acc c = acc * 10 + (c - 48)

abbrev pub value : Text → ℕ
value t = foldl digit_step 0 t

value-digits_from : (fuel n : ℕ) → n < fuel → value (digits_from fuel n) ≡ n
unfolding digits_from
value-digits_from zero n h = elim h [ ]
value-digits_from (suc fuel) n h = elim (Bool-cases (ltb n 10)) [
  | inl small ↦ rw small (omega arith)
  | inr big ↦
      rw (big, foldl-append)
        (let ih : value (digits_from fuel (n / 10)) ≡ n / 10 =
            value-digits_from fuel (n / 10) (ground arith) in
          omega arith)
]

pub value-decimal : (n : ℕ) → value (decimal n) ≡ n
unfolding decimal
value-decimal n = value-digits_from (suc n) n (omega arith)

is_empty-append_one : (t : Text) (x : ℕ) → is_empty (t ++ x ∷ []) ≡ false
is_empty-append_one [] x = refl
is_empty-append_one (y ∷ t) x = refl

-- A decimal is of digits, one at least.
digits_from-digits : (fuel n : ℕ) → All (λ x. (48 ≤ x) × (x ≤ 57)) (digits_from fuel n)
unfolding digits_from
digits_from-digits zero n = tt
digits_from-digits (suc fuel) n = elim (Bool-cases (ltb n 10)) [
  | inl small ↦ rw small ((ground arith, ground arith), tt)
  | inr big ↦ rw big (
      All-append (λ x. (48 ≤ x) × (x ≤ 57)) (digits_from fuel (n / 10)) ((48 + n % 10) ∷ [])
        (digits_from-digits fuel (n / 10)) ((ground arith, ground arith), tt))
]

pub decimal-digits : (n : ℕ) → All (λ x. (48 ≤ x) × (x ≤ 57)) (decimal n)
unfolding decimal
decimal-digits n = digits_from-digits (suc n) n

pub decimal-nonempty : (n : ℕ) → is_empty (decimal n) ≡ false
unfolding decimal digits_from
decimal-nonempty n = elim (Bool-cases (ltb n 10)) [
  | inl small ↦ rw small refl
  | inr big ↦ rw big (is_empty-append_one (digits_from n (n / 10)) (48 + n % 10))
]

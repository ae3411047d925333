-- ===== src/Text.antt =====
-- JavaScript strings that the program takes apart, as lists of UTF-16 code units, and the methods
-- of `String.prototype` that frontend/src uses on them: split, join, trim, startsWith, slice.
pub mod Split
pub mod Trim
pub mod Lines
pub mod Decimal
use Prim.Native.Char.{code}
use crag_project.Base.{
  ℕ, zero, suc, String, Bool, true, false, ◌&&◌, ◌||◌, List, [], ◌∷◌, ◌++◌, leb, ◌==◌, length,
  if◌then◌else◌, ◌-◌, ◌≡◌, ◌↔◌, arith,
}

abbrev pub Text : Type 0
Text = List ℕ

-- The code units of a literal; every literal used here lies in the Basic Multilingual Plane.
abbrev pub codes : String → Text
codes String.[] = []
codes (String.◌∷◌ c s) = code c ∷ codes s

-- `a === b` on strings.
abbrev pub text_eq : Text → Text → Bool
text_eq [] [] = true
text_eq [] (y ∷ b) = false
text_eq (x ∷ a) [] = false
text_eq (x ∷ a) (y ∷ b) = x == y && text_eq a b

abbrev pub is_empty : Text → Bool
is_empty [] = true
is_empty (x ∷ t) = false

pub text_eq_iff : (a b : Text) → (text_eq a b ≡ true) ↔ (a ≡ b)
text_eq_iff [] [] = ground arith
text_eq_iff [] (y ∷ b) = ground arith
text_eq_iff (x ∷ a) [] = ground arith
text_eq_iff (x ∷ a) (y ∷ b) = ground (arith, text_eq_iff a b)

-- `t.startsWith(p)`
unfoldable pub starts_with : Text → Text → Bool
starts_with t [] = true
starts_with [] (y ∷ p) = false
starts_with (x ∷ t) (y ∷ p) = x == y && starts_with t p

-- One more code unit in front of the first of the parts.
abbrev pub cons_first : ℕ → List Text → List Text
cons_first x [] = (x ∷ []) ∷ []
cons_first x (l ∷ ls) = (x ∷ l) ∷ ls

-- `t.split(sep)` for a separator that is not empty; `skip` counts the code units of a separator
-- that are still to be passed over.
unfoldable pub split_from : Text → ℕ → Text → List Text
split_from sep skip [] = [] ∷ []
split_from sep (suc skip) (x ∷ t) = split_from sep skip t
split_from sep zero (x ∷ t) = elim (starts_with (x ∷ t) sep) [
  | true ↦ [] ∷ split_from sep (length sep - 1) t
  | false ↦ cons_first x (split_from sep zero t)
]

unfoldable pub split : Text → Text → List Text
unfolding split_from starts_with
split sep t = split_from sep zero t

-- `parts.join(sep)`
unfoldable pub join : Text → List Text → Text
join sep [] = []
join sep (l ∷ []) = l
join sep (l ∷ m ∷ ls) = l ++ (sep ++ join sep (m ∷ ls))

-- White space and line terminators, what `trim` removes.
unfoldable pub is_space : ℕ → Bool
is_space c =
    (leb 9 c && leb c 13)
    || c == 32
    || c == 160
    || c == 5760
    || (leb 8192 c && leb c 8202)
    || c == 8232
    || c == 8233
    || c == 8239
    || c == 8287
    || c == 12288
    || c == 65279

unfoldable pub trim_start : Text → Text
trim_start [] = []
trim_start (x ∷ t) = let rest = trim_start t in if is_space x then rest else x ∷ t

unfoldable pub trim_end : Text → Text
trim_end [] = []
trim_end (x ∷ t) = let rest = trim_end t in if is_space x && is_empty rest then [] else x ∷ rest

unfoldable pub trim : Text → Text
unfolding trim_start trim_end is_space
trim t = trim_end (trim_start t)

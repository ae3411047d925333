-- ===== src/Text/Trim.antt =====
-- Laws of `trim`.
use crag_project.Base.{
  ℕ, ◌≡◌, refl, sym, ap, ◌∙◌, ◌≢◌, false, inl, inr, [], ◌∷◌, ◌++◌, arith, Bool-cases, length, ◌≤◌,
}
use crag_project.Text.{Text, is_empty, is_space, trim_start, trim_end, trim}

-- Text that neither begins nor ends with white space, and is not empty.
pub record IsTight (t : Text) : Type 0 where
  pub starts : trim_start t ≡ t
  pub ends : trim_end t ≡ t
  pub nonempty : t ≢ []

is_empty-append : (a b : Text) → b ≢ [] → is_empty (a ++ b) ≡ false
is_empty-append [] [] h = absurd (h refl)
is_empty-append [] (y ∷ b) h = refl
is_empty-append (x ∷ a) b h = refl

pub trim_end-append : (a b : Text) → trim_end b ≢ [] → trim_end (a ++ b) ≡ a ++ trim_end b
unfolding trim_end
trim_end-append [] b h = refl
trim_end-append (x ∷ a) b h =
    ground (arith, trim_end-append a b h, is_empty-append a (trim_end b) h)

pub trim-append_IsTight :
    (x : ℕ) (a b : Text) → is_space x ≡ false → IsTight b → trim (x ∷ (a ++ b)) ≡ x ∷ (a ++ b)
unfolding trim
trim-append_IsTight x a b e h =
    let tail : trim_end b ≢ [] = λ p. h.nonempty (sym h.ends ∙ p) in
    rw e (trim_end-append (x ∷ a) b tail ∙ ap (λ t. x ∷ (a ++ t)) h.ends)

pub trim-space_IsTight : (t : Text) → IsTight t → trim (32 ∷ t) ≡ t
unfolding trim
trim-space_IsTight t h = rw h.starts h.ends

length-trim_start : (t : Text) → length (trim_start t) ≤ length t
unfolding trim_start
length-trim_start [] = omega arith
length-trim_start (x ∷ t) = ground (arith, length-trim_start t)

trim_start_idem : (t : Text) → trim_start (trim_start t) ≡ trim_start t
unfolding trim_start
trim_start_idem [] = refl
trim_start_idem (x ∷ t) = ground (arith, trim_start_idem t)

trim_end_idem : (t : Text) → trim_end (trim_end t) ≡ trim_end t
unfolding trim_end
trim_end_idem [] = refl
trim_end_idem (x ∷ t) = ground (arith, trim_end_idem t)

starts_of_trim_start : (x : ℕ) (t : Text) → trim_start (x ∷ t) ≡ x ∷ t → is_space x ≡ false
unfolding trim_start
starts_of_trim_start x t h = elim (Bool-cases (is_space x)) [
  | inl e ↦ absurd (omega (arith, ap length (rw e at h), length-trim_start t))
  | inr e ↦ e
]

trim_start-trim_end : (t : Text) → trim_start t ≡ t → trim_start (trim_end t) ≡ trim_end t
unfolding trim_end trim_start
trim_start-trim_end [] h = refl
trim_start-trim_end (x ∷ t) h =
    rw (starts_of_trim_start x t h) (rw (starts_of_trim_start x t h) refl)

-- What `trim` returns is left alone by another `trim`.
pub trim_idem : (t : Text) → trim (trim t) ≡ trim t
unfolding trim
trim_idem t =
    ap trim_end (trim_start-trim_end (trim_start t) (trim_start_idem t))
    ∙ trim_end_idem (trim_start t)

-- ===== src/Text/Split.antt =====
-- Laws of `split` and `join`.
use crag_project.Base.{
  ℕ, ◌-◌, ◌≡◌, refl, ap, ◌∙◌, ◌≢◌, true, inl, inr, List, [], ◌∷◌, ◌++◌, arith, Bool-cases,
  if◌then◌else◌, All, ◌==◌, length, ==_iff, ==_refl,
}
use crag_project.Text.{Text, starts_with, cons_first, split_from, split, join}

-- `split` at a single code unit, without the separator's machinery.
unfoldable pub split_at : ℕ → Text → List Text
split_at c [] = [] ∷ []
split_at c (x ∷ t) = let rest = split_at c t in if x == c then [] ∷ rest else cons_first x rest

pub split-eq-split_at : (c : ℕ) (t : Text) → split (c ∷ []) t ≡ split_at c t
unfolding split split_at
split-eq-split_at c [] = refl
split-eq-split_at c (x ∷ t) = ground (arith, split-eq-split_at c t)

-- The code unit does not stand in the text.
abbrev pub Lacks : ℕ → Text → Type 0
Lacks c t = All (λ x. x ≢ c) t

pub split_at-Lacks : (c : ℕ) (t : Text) → Lacks c t → split_at c t ≡ t ∷ []
unfolding split_at
split_at-Lacks c [] h = refl
split_at-Lacks c (x ∷ t) (n, h) = ground (arith, split_at-Lacks c t h)

pub split_at-append :
    (c : ℕ) (e t : Text) → Lacks c e → split_at c (e ++ (c ∷ t)) ≡ e ∷ split_at c t
unfolding split_at
split_at-append c [] t h = rw (==_refl c)
split_at-append c (x ∷ e) t (n, h) = ground (arith, split_at-append c e t h)

join-cons_first :
    (sep : Text) (x : ℕ) (ls : List Text) → join sep (cons_first x ls) ≡ x ∷ join sep ls
unfolding join
join-cons_first sep x [] = refl
join-cons_first sep x (l ∷ []) = refl
join-cons_first sep x (l ∷ m ∷ ls) = refl

cons_first-ne-nil : (x : ℕ) (ls : List Text) → cons_first x ls ≢ []
cons_first-ne-nil x [] = ground arith
cons_first-ne-nil x (l ∷ ls) = ground arith

pub split_at-ne-nil : (c : ℕ) (t : Text) → split_at c t ≢ []
unfolding split_at
split_at-ne-nil c [] = ground arith
split_at-ne-nil c (x ∷ t) = ground (arith, cons_first-ne-nil x (split_at c t))

join-nil_cons : (c : ℕ) (ls : List Text) → ls ≢ [] → join (c ∷ []) ([] ∷ ls) ≡ c ∷ join (c ∷ []) ls
unfolding join
join-nil_cons c [] h = absurd (h refl)
join-nil_cons c (l ∷ ls) h = refl

-- Splitting at a code unit and joining by it gives the text back.
pub join-split_at : (c : ℕ) (t : Text) → join (c ∷ []) (split_at c t) ≡ t
unfolding split_at
join-split_at c [] = unfold join in refl
join-split_at c (x ∷ t) = elim (Bool-cases (x == c)) [
  | inl e ↦ rw e (
      join-nil_cons c (split_at c t) (split_at-ne-nil c t)
      ∙ cc (join-split_at c t, (==_iff x c).0 e))
  | inr e ↦ rw e (join-cons_first (c ∷ []) x (split_at c t) ∙ ap (λ r. x ∷ r) (join-split_at c t))
]

starts_with-append : (p t : Text) → starts_with (p ++ t) p ≡ true
unfolding starts_with
starts_with-append [] t = refl
starts_with-append (y ∷ p) t = rw (==_refl y) (starts_with-append p t)

split_from-skip : (sep s t : Text) → split_from sep (length s) (s ++ t) ≡ split_from sep 0 t
unfolding split_from
split_from-skip sep [] t = refl
split_from-skip sep (x ∷ s) t = split_from-skip sep s t

split_from-hit :
    (sep : Text) (x : ℕ) (t : Text)
    → starts_with (x ∷ t) sep ≡ true
    → split_from sep 0 (x ∷ t) ≡ [] ∷ split_from sep (length sep - 1) t
unfolding split_from
split_from-hit sep x t h = rw (h, split_from) refl

split-append :
    (c : ℕ) (s e t : Text) → Lacks c e → split (c ∷ s) (e ++ ((c ∷ s) ++ t)) ≡ e ∷ split (c ∷ s) t
unfolding split
split-append c s [] t h =
    split_from-hit (c ∷ s) c (s ++ t) (starts_with-append (c ∷ s) t)
    ∙ let e : length (c ∷ s) - 1 ≡ length s = omega arith in
      rw e (ap (λ r. [] ∷ r) (split_from-skip (c ∷ s) s t))
split-append c s (x ∷ e) t (n, h) = ground (arith, split-append c s e t h)

split-Lacks : (c : ℕ) (s e : Text) → Lacks c e → split (c ∷ s) e ≡ e ∷ []
unfolding split
split-Lacks c s [] h = refl
split-Lacks c s (x ∷ e) (n, h) = ground (arith, split-Lacks c s e h)

-- Splitting what was joined gives the parts back, if none holds the separator's first code unit.
pub split-join :
    (c : ℕ) (s l : Text) (ls : List Text)
    → All (Lacks c) (l ∷ ls)
    → split (c ∷ s) (join (c ∷ s) (l ∷ ls)) ≡ l ∷ ls
unfolding join
split-join c s l [] (h, hs) = split-Lacks c s l h
split-join c s l (m ∷ ls) (h, hs) =
    split-append c s l (join (c ∷ s) (m ∷ ls)) h ∙ ap (λ r. l ∷ r) (split-join c s m ls hs)

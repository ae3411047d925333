-- ===== src/Text/Lines.antt =====
-- A text cut at line feeds: the complete lines, and what stands behind the last line feed. This is
-- `buffer.split('\n')` followed by `lines.pop() ?? ''`, and what it gives for a text in two pieces.
use crag_project.Base.{
  ℕ, ◌≡◌, refl, ap, false, inl, inr, List, [], ◌∷◌, ◌++◌, Bool-cases, ◌==◌, ==_iff, ◌≢◌, Option,
  none, some, get_or,
}
use crag_project.Text.{Text, cons_first, split}
use crag_project.Text.Split.{split_at, split-eq-split_at, split_at-ne-nil}

abbrev pub nl : ℕ
nl = 10

-- `parts.pop()`: what is left, and the last part (`undefined` if there is none).
unfoldable pub pop : List Text → List Text × Option Text
pop [] = ([], none)
pop (l ∷ []) = ([], some l)
pop (l ∷ m ∷ ls) = let (front, last) = pop (m ∷ ls) in (l ∷ front, last)

-- `const lines = …; buffer = lines.pop() ?? ''`
unfoldable pub pop_rest : List Text → List Text × Text
unfolding pop
pop_rest ls = let (front, last) = pop ls in (front, get_or last [])

-- The complete lines, and the rest.
unfoldable pub cut : Text → List Text × Text
unfolding split
cut t = pop_rest (split (nl ∷ []) t)

unfoldable pub push_first : ℕ → List Text × Text → List Text × Text
push_first x ([], r) = ([], x ∷ r)
push_first x (l ∷ ls, r) = ((x ∷ l) ∷ ls, r)

pop_rest-cons_first :
    (x : ℕ) (ls : List Text) → pop_rest (cons_first x ls) ≡ push_first x (pop_rest ls)
unfolding pop_rest push_first
pop_rest-cons_first x [] = refl
pop_rest-cons_first x (l ∷ []) = refl
pop_rest-cons_first x (l ∷ m ∷ ls) = refl

pop_rest-nil_cons :
    (ls : List Text) → ls ≢ [] → pop_rest ([] ∷ ls) ≡ ([] ∷ (pop_rest ls).0, (pop_rest ls).1)
unfolding pop_rest
pop_rest-nil_cons [] h = absurd (h refl)
pop_rest-nil_cons (l ∷ ls) h = refl

cut-eq : (t : Text) → cut t ≡ pop_rest (split_at nl t)
cut-eq t = unfold cut in ap pop_rest (split-eq-split_at nl t)

pub cut-nil : cut [] ≡ ([], [])
unfolding cut pop_rest
cut-nil = refl

pub cut-nl : (t : Text) → cut (nl ∷ t) ≡ ([] ∷ (cut t).0, (cut t).1)
cut-nl t =
    rw (cut-eq (nl ∷ t), cut-eq t)
      (unfold split_at in pop_rest-nil_cons (split_at nl t) (split_at-ne-nil nl t))

pub cut-cons : (x : ℕ) (t : Text) → (x == nl) ≡ false → cut (x ∷ t) ≡ push_first x (cut t)
cut-cons x t h =
    rw (cut-eq (x ∷ t), cut-eq t) (unfold split_at in rw h (pop_rest-cons_first x (split_at nl t)))

-- Two pieces put together: the rest of the first stands in front of the second.
abbrev after : List Text × Text → Text → List Text × Text
after (ls, r) b = (ls ++ (cut (r ++ b)).0, (cut (r ++ b)).1)

push_first-after :
    (x : ℕ) (p : List Text × Text) (b : Text)
    → (x == nl) ≡ false
    → push_first x (after p b) ≡ after (push_first x p) b
unfolding push_first
push_first-after x ([], r) b h = rw (cut-cons x (r ++ b) h) (unfold push_first in refl)
push_first-after x (l ∷ ls, r) b h = refl

pub cut-append :
    (a b : Text) → cut (a ++ b) ≡ ((cut a).0 ++ (cut ((cut a).1 ++ b)).0, (cut ((cut a).1 ++ b)).1)
cut-append [] b = rw cut-nil refl
cut-append (x ∷ a) b = elim (Bool-cases (x == nl)) [
  | inl e ↦ rw ((==_iff x nl).0 e) (rw (cut-nl (a ++ b), cut-nl a, cut-append a b) refl)
  | inr e ↦
      rw (cut-cons x (a ++ b) e, cut-cons x a e, cut-append a b) (push_first-after x (cut a) b e)
]

cut-push_first :
    (x : ℕ) (p : List Text × Text)
    → (x == nl) ≡ false
    → cut p.1 ≡ ([], p.1)
    → cut (push_first x p).1 ≡ ([], (push_first x p).1)
unfolding push_first
cut-push_first x ([], r) h e = rw (cut-cons x r h, e) (unfold push_first in refl)
cut-push_first x (l ∷ ls, r) h e = e

-- What stands behind the last line feed holds no complete line.
pub cut-rest : (t : Text) → cut (cut t).1 ≡ ([], (cut t).1)
cut-rest [] = rw cut-nil cut-nil
cut-rest (x ∷ t) = elim (Bool-cases (x == nl)) [
  | inl e ↦ rw ((==_iff x nl).0 e) (rw (cut-nl t) (cut-rest t))
  | inr e ↦ rw (cut-cons x t e) (cut-push_first x (cut t) e (cut-rest t))
]

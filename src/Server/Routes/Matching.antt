-- ===== src/Server/Routes/Matching.antt =====
-- Paths that are put together from parts, as the pages write them, and the parts that the server sees.
use crag_project.Base.{
  split_and, join_and, absurd_bool, ℕ, Bool, true, false, not, ◌&&◌, List, [], ◌∷◌, ◌++◌, ◌≡◌, refl,
  sym, ap, ◌∙◌, All, all, ◌≤◌, arith, ◌==◌,
}
use crag_project.Text.{Text}
use crag_project.Text.Split.{split_at, Lacks, split_at-Lacks, split_at-append}
use crag_project.Text.Decimal.{decimal, decimal-digits}
use crag_project.Server.Routes.{segments}

-- A part has no slash and no question mark.
abbrev plain : ℕ → Bool
plain x = not (x == 47) && not (x == 63)

abbrev pub is_part : Text → Bool
is_part t = all plain t

-- `a/b/c` and `/a/b/c`
abbrev pub joined : Text → List Text → Text
joined p [] = p
joined p (q ∷ ps) = p ++ (47 ∷ joined q ps)

abbrev pub slashed : List Text → Text
slashed [] = []
slashed (p ∷ ps) = 47 ∷ joined p ps

abbrev pub are_parts : List Text → Bool
are_parts ps = all is_part ps

is_part-Lacks : (c : ℕ) (t : Text) → plain c ≡ false → is_part t ≡ true → Lacks c t
is_part-Lacks c [] n h = tt
is_part-Lacks c (x ∷ t) n h =
    let (this, rest) = split_and (plain x) (is_part t) h in
    (λ e. absurd_bool (sym n ∙ ap plain (sym e) ∙ this), is_part-Lacks c t n rest)

Lacks-append : (c : ℕ) (s t : Text) → Lacks c s → Lacks c t → Lacks c (s ++ t)
Lacks-append c [] t f g = g
Lacks-append c (x ∷ s) t (n, f) g = (n, Lacks-append c s t f g)

joined-Lacks : (p : Text) (ps : List Text) → are_parts (p ∷ ps) ≡ true → Lacks 63 (joined p ps)
joined-Lacks p [] h = is_part-Lacks 63 p refl (split_and (is_part p) true h).0
joined-Lacks p (q ∷ ps) h =
    let (this, rest) = split_and (is_part p) (are_parts (q ∷ ps)) h in
    Lacks-append 63 p (47 ∷ joined q ps) (is_part-Lacks 63 p refl this)
      (ground arith, joined-Lacks q ps rest)

split_at-joined :
    (p : Text) (ps : List Text) → are_parts (p ∷ ps) ≡ true → split_at 47 (joined p ps) ≡ p ∷ ps
split_at-joined p [] h =
    split_at-Lacks 47 p (is_part-Lacks 47 p refl (split_and (is_part p) true h).0)
split_at-joined p (q ∷ ps) h =
    let (this, rest) = split_and (is_part p) (are_parts (q ∷ ps)) h in
    split_at-append 47 p (joined q ps) (is_part-Lacks 47 p refl this)
    ∙ ap (λ l. p ∷ l) (split_at-joined q ps rest)

-- What the server sees of a path are the parts that it is put together from.
pub segments-slashed :
    (p : Text) (ps : List Text) → are_parts (p ∷ ps) ≡ true → segments (slashed (p ∷ ps)) ≡ p ∷ ps
unfolding segments split_at
segments-slashed p ps h =
    ap
      (λ l. elim (split_at 47 (elim l [ [] ↦ [] | (q ∷ rest) ↦ q ])) [
        | [] ↦ []
        | (q ∷ rest) ↦ rest
      ])
      (split_at-Lacks 63 (slashed (p ∷ ps)) (ground arith, joined-Lacks p ps h))
    ∙ ap (λ l. elim l [ [] ↦ [] | (q ∷ rest) ↦ rest ]) (ap (λ l. [] ∷ l) (split_at-joined p ps h))

is_part-digits : (t : Text) → All (λ x. (48 ≤ x) × (x ≤ 57)) t → is_part t ≡ true
is_part-digits [] h = refl
is_part-digits (x ∷ t) ((low, high), h) = join_and (ground arith) (is_part-digits t h)

pub is_part-decimal : (n : ℕ) → is_part (decimal n) ≡ true
is_part-decimal n = is_part-digits (decimal n) (decimal-digits n)

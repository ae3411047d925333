-- ===== src/Api/Cookie/Laws.antt =====
-- Reading a cookie from the jar that a browser builds from name and value pairs.
use mathlib.Core.Option
use crag_project.Base.{
  ◌≡◌, refl, ap, inl, inr, List, [], ◌∷◌, ◌++◌, arith, map, Bool-cases, if◌then◌else◌, All, ◌==◌,
  Option, none, some, find?, drop, ◌&&◌,
}
use crag_project.Text.{Text, codes, starts_with, split, join, text_eq}
use crag_project.Text.Split.{Lacks, split-eq-split_at, split_at-append, join-split_at, split-join}
use crag_project.Api.Cookie.{read_cookie}

-- One entry of the jar.
abbrev pub entry : Text × Text → Text
entry (n, v) = n ++ (b'=' ∷ v)

-- `document.cookie` for these cookies.
abbrev pub jar_of : List (Text × Text) → Text
jar_of pairs = join (codes "; ") (map entry pairs)

-- The first cookie of that name.
unfoldable pub lookup : Text → List (Text × Text) → Option Text
lookup name [] = none
lookup name ((n, v) ∷ pairs) = if text_eq n name then some v else lookup name pairs

-- No semicolon stands in a cookie, and no equality sign in its name.
pub record IsCookie (p : Text × Text) : Type 0 where
  pub plain_name : Lacks b'=' p.0
  pub no_separator : Lacks b';' (entry p)

starts_with-entry :
    (n name v : Text)
    → Lacks b'=' n
    → Lacks b'=' name
    → starts_with (n ++ (b'=' ∷ v)) (name ++ codes "=") ≡ text_eq n name
unfolding starts_with
starts_with-entry [] [] v hn hm = refl
starts_with-entry [] (y ∷ m) v hn hm = ground (arith, hm.0)
starts_with-entry (x ∷ n) [] v hn hm = ground (arith, hn.0)
starts_with-entry (x ∷ n) (y ∷ m) v hn hm =
    ap (λ b. (x == y) && b) (starts_with-entry n m v hn.1 hm.1)

value_of : Text → Text
value_of r = join (codes "=") (drop 1 (split (codes "=") r))

value_of-entry : (n v : Text) → Lacks b'=' n → value_of (n ++ (b'=' ∷ v)) ≡ v
unfolding value_of
value_of-entry n v h =
    rw (split-eq-split_at b'=' (n ++ (b'=' ∷ v)), split_at-append b'=' n v h) (join-split_at b'=' v)

find-entry :
    (name : Text) (pairs : List (Text × Text))
    → Lacks b'=' name
    → All IsCookie pairs
    → Option.map value_of (find? (λ e. starts_with e (name ++ codes "=")) (map entry pairs))
      ≡ lookup name pairs
unfolding lookup
find-entry name [] hm h = refl
find-entry name ((n, v) ∷ pairs) hm (c, h) =
    rw (starts_with-entry n name v c.plain_name hm) (elim (Bool-cases (text_eq n name)) [
      | inl same ↦ rw same (ap some (value_of-entry n v c.plain_name))
      | inr other ↦ rw other (find-entry name pairs hm h)
    ])

separated : (pairs : List (Text × Text)) → All IsCookie pairs → All (Lacks b';') (map entry pairs)
separated [] h = tt
separated (p ∷ pairs) (c, h) = (c.no_separator, separated pairs h)

-- From a jar built of such cookies, `readCookie` returns the value of the first one of that name,
-- also where the value holds equality signs, and `undefined` if there is none.
pub read_cookie-jar_of :
    (name : Text) (pairs : List (Text × Text))
    → Lacks b'=' name
    → All IsCookie pairs
    → read_cookie name (jar_of pairs) ≡ lookup name pairs
unfolding read_cookie value_of
read_cookie-jar_of [] [] hm h = unfold split join starts_with lookup in refl
read_cookie-jar_of (x ∷ name) [] hm h = unfold split join starts_with lookup in refl
read_cookie-jar_of name (p ∷ pairs) hm h =
    rw (split-join b';' (32 ∷ []) (entry p) (map entry pairs) (separated (p ∷ pairs) h))
      (find-entry name (p ∷ pairs) hm h)

-- ===== src/Api/Shapes/Monotone.antt =====
-- The tests of values, made weaker: a value that passes the stronger test against the weaker one.
use crag_project.Base.{
  split_and, join_and, absurd_bool, or_right, String, Bool, true, ◌||◌, List, [], ◌∷◌, any, str_eq,
  eq_iff, ◌≡◌, refl, sym, ap, ◌∙◌, arith, Bool-cases, inl, inr,
}
use crag_project.Text.{Text, codes, text_eq}
use crag_project.Api.Shapes.{
  Json, null, truth, number, word, array, record_of, Elements, no_more, then_one, Members, end,
  member, Scalar, boolean, numeric, string, every, every_member, is_scalar, is_one_of, is_array,
  is_dict, is_record,
}
use crag_project.Api.Shapes.Fits.{same_scalar, names_within}

-- A weaker test passes wherever the stronger one does.
pub every_mono :
    {p q : Json → Bool} (pq : (j : Json) → p j ≡ true → q j ≡ true) (js : Elements)
    → every p js ≡ true
    → every q js ≡ true
unfolding every
every_mono pq no_more e = refl
every_mono {p} pq (then_one j js) e =
    let (this, rest) = split_and (p j) (every p js) e in
    join_and (pq j this) (every_mono pq js rest)

pub every_member_mono :
    {p q : Json → Bool} (pq : (j : Json) → p j ≡ true → q j ≡ true) (ms : Members)
    → every_member p ms ≡ true
    → every_member q ms ≡ true
unfolding every_member
every_member_mono pq end e = refl
every_member_mono {p} pq (member n j ms) e =
    let (this, rest) = split_and (p j) (every_member p ms) e in
    join_and (pq j this) (every_member_mono pq ms rest)

-- What is said of a value that a list or a dictionary holds carries over to them.
pub is_array_mono :
    {p q : Json → Bool} (pq : (j : Json) → p j ≡ true → q j ≡ true) (j : Json)
    → is_array p j ≡ true
    → is_array q j ≡ true
unfolding is_array
is_array_mono pq (array js) e = every_mono pq js e
is_array_mono pq null e = e
is_array_mono pq (truth b) e = e
is_array_mono pq (number n) e = e
is_array_mono pq (word w) e = e
is_array_mono pq (record_of ms) e = e

pub is_dict_mono :
    {p q : Json → Bool} (pq : (j : Json) → p j ≡ true → q j ≡ true) (j : Json)
    → is_dict p j ≡ true
    → is_dict q j ≡ true
unfolding is_dict
is_dict_mono pq (record_of ms) e = every_member_mono pq ms e
is_dict_mono pq null e = e
is_dict_mono pq (truth b) e = e
is_dict_mono pq (number n) e = e
is_dict_mono pq (word w) e = e
is_dict_mono pq (array js) e = e

pub is_record_mono :
    {p q : Members → Bool} (pq : (ms : Members) → p ms ≡ true → q ms ≡ true) (j : Json)
    → is_record p j ≡ true
    → is_record q j ≡ true
unfolding is_record
is_record_mono pq (record_of ms) e = pq ms e
is_record_mono pq null e = e
is_record_mono pq (truth b) e = e
is_record_mono pq (number n) e = e
is_record_mono pq (word w) e = e
is_record_mono pq (array js) e = e

pub any-has :
    (w : Text) (n : String) (allowed : List String)
    → text_eq w (codes n) ≡ true
    → any (str_eq n) allowed ≡ true
    → any (λ m. text_eq w (codes m)) allowed ≡ true
any-has w n [] q e = ground arith
any-has w n (m ∷ allowed) q e = elim (Bool-cases (str_eq n m)) [
  | inl same ↦
      ap (λ b. b || any (λ k. text_eq w (codes k)) allowed)
        (sym (ap (λ k. text_eq w (codes k)) ((eq_iff n m).0 same)) ∙ q)
  | inr other ↦
      or_right (text_eq w (codes m))
        (any-has w n allowed q (sym (ap (λ b. b || any (str_eq n) allowed) other) ∙ e))
]

pub any-widen :
    (w : Text) (names allowed : List String)
    → names_within names allowed ≡ true
    → any (λ n. text_eq w (codes n)) names ≡ true
    → any (λ n. text_eq w (codes n)) allowed ≡ true
unfolding names_within
any-widen w [] allowed e h = ground arith
any-widen w (n ∷ names) allowed e h =
    let (this, rest) = split_and (any (str_eq n) allowed) (names_within names allowed) e in
    elim (Bool-cases (text_eq w (codes n))) [
      | inl q ↦ any-has w n allowed q this
      | inr q ↦
          any-widen w names allowed rest
            (sym (ap (λ b. b || any (λ m. text_eq w (codes m)) names) q) ∙ h)
    ]

pub is_scalar-same :
    (l k : Scalar)
    → same_scalar l k ≡ true
    → (j : Json) → is_scalar l j ≡ true
    → is_scalar k j ≡ true
unfolding same_scalar
is_scalar-same boolean boolean e j h = h
is_scalar-same boolean numeric e j h = absurd_bool e
is_scalar-same boolean string e j h = absurd_bool e
is_scalar-same numeric boolean e j h = absurd_bool e
is_scalar-same numeric numeric e j h = h
is_scalar-same numeric string e j h = absurd_bool e
is_scalar-same string boolean e j h = absurd_bool e
is_scalar-same string numeric e j h = absurd_bool e
is_scalar-same string string e j h = h

pub word-one_of :
    (names : List String) (j : Json) → is_one_of names j ≡ true → is_scalar string j ≡ true
unfolding is_one_of is_scalar
word-one_of names (word w) e = refl
word-one_of names null e = e
word-one_of names (truth b) e = e
word-one_of names (number n) e = e
word-one_of names (array js) e = e
word-one_of names (record_of ms) e = e

pub is_one_of-widen :
    (names allowed : List String)
    → names_within names allowed ≡ true
    → (j : Json) → is_one_of names j ≡ true
    → is_one_of allowed j ≡ true
unfolding is_one_of
is_one_of-widen names allowed e (word w) h = any-widen w names allowed e h
is_one_of-widen names allowed e null h = h
is_one_of-widen names allowed e (truth b) h = h
is_one_of-widen names allowed e (number n) h = h
is_one_of-widen names allowed e (array js) h = h
is_one_of-widen names allowed e (record_of ms) h = h

pub nullable_case :
    (a : Bool) {b c : Bool} → (b ≡ true → c ≡ true) → (a || b) ≡ true → (a || c) ≡ true
nullable_case a {b} {c} f e = elim (Bool-cases a) [
  | inl p ↦ ap (λ x. x || c) p
  | inr p ↦ ap (λ x. x || c) p ∙ f (sym (ap (λ x. x || b) p) ∙ e)
]

-- ===== src/Api/Shapes/Sound.antt =====
-- The test for fitting shapes against the values that the shapes describe.
use crag_project.Base.{
  split_and, join_and, or_right, absurd_bool, String, Bool, true, ◌||◌, Option, none, some, List,
  str_eq, eq_iff, if◌then◌else◌, ◌≡◌, refl, ap, ◌∙◌, Bool-cases, inl, inr,
}
use crag_project.Api.Shapes.{
  Json, Members, Scalar, boolean, numeric, string, Shape, anything, scalar, one_of, nullable, list,
  dict, object, Fields, closed, field, optional, find_member, is_null, is_scalar, is_one_of,
  is_array, is_dict, is_record, present, absent_or, conforms, conforms_fields,
}
use crag_project.Api.Shapes.Fits.{
  Slot, must, may, find_field, to_scalar, to_one_of, to_nullable, to_list, to_dict, to_object,
  to_field, to_optional, fits, fits_fields,
}
use crag_project.Api.Shapes.Monotone.{
  is_array_mono, is_dict_mono, is_record_mono, is_scalar-same, word-one_of, is_one_of-widen,
  nullable_case,
}

-- A shape that passes one of the tests of `fits` describes only values that the client's shape describes.
to_scalar_sound :
    (k : Scalar) (s : Shape)
    → to_scalar k s ≡ true
    → (j : Json) → conforms s j ≡ true
    → is_scalar k j ≡ true
unfolding to_scalar conforms
to_scalar_sound k (scalar l) e j h = is_scalar-same l k e j h
to_scalar_sound boolean (one_of names) e j h = absurd_bool e
to_scalar_sound numeric (one_of names) e j h = absurd_bool e
to_scalar_sound string (one_of names) e j h = word-one_of names j h
to_scalar_sound boolean anything e j h = absurd_bool e
to_scalar_sound numeric anything e j h = absurd_bool e
to_scalar_sound string anything e j h = absurd_bool e
to_scalar_sound boolean (nullable s) e j h = absurd_bool e
to_scalar_sound numeric (nullable s) e j h = absurd_bool e
to_scalar_sound string (nullable s) e j h = absurd_bool e
to_scalar_sound boolean (list s) e j h = absurd_bool e
to_scalar_sound numeric (list s) e j h = absurd_bool e
to_scalar_sound string (list s) e j h = absurd_bool e
to_scalar_sound boolean (dict s) e j h = absurd_bool e
to_scalar_sound numeric (dict s) e j h = absurd_bool e
to_scalar_sound string (dict s) e j h = absurd_bool e
to_scalar_sound boolean (object ss) e j h = absurd_bool e
to_scalar_sound numeric (object ss) e j h = absurd_bool e
to_scalar_sound string (object ss) e j h = absurd_bool e

to_one_of_sound :
    (allowed : List String) (s : Shape)
    → to_one_of allowed s ≡ true
    → (j : Json) → conforms s j ≡ true
    → is_one_of allowed j ≡ true
unfolding to_one_of conforms
to_one_of_sound allowed anything e j h = absurd_bool e
to_one_of_sound allowed (scalar l) e j h = absurd_bool e
to_one_of_sound allowed (one_of names) e j h = is_one_of-widen names allowed e j h
to_one_of_sound allowed (nullable s) e j h = absurd_bool e
to_one_of_sound allowed (list s) e j h = absurd_bool e
to_one_of_sound allowed (dict s) e j h = absurd_bool e
to_one_of_sound allowed (object ss) e j h = absurd_bool e

module _ {q : Shape → Bool} {r : Json → Bool}
    (sound : (s : Shape) → q s ≡ true → (j : Json) → conforms s j ≡ true → r j ≡ true) where
  to_nullable_sound :
      (s : Shape)
      → to_nullable q s ≡ true
      → (j : Json) → conforms s j ≡ true
      → (is_null j || r j) ≡ true
  unfolding to_nullable conforms
  to_nullable_sound anything e j h = or_right (is_null j) (sound anything e j h)
  to_nullable_sound (scalar l) e j h = or_right (is_null j) (sound (scalar l) e j h)
  to_nullable_sound (one_of names) e j h = or_right (is_null j) (sound (one_of names) e j h)
  to_nullable_sound (nullable s) e j h = nullable_case (is_null j) (sound s e j) h
  to_nullable_sound (list s) e j h = or_right (is_null j) (sound (list s) e j h)
  to_nullable_sound (dict s) e j h = or_right (is_null j) (sound (dict s) e j h)
  to_nullable_sound (object ss) e j h = or_right (is_null j) (sound (object ss) e j h)

  to_list_sound :
      (s : Shape) → to_list q s ≡ true → (j : Json) → conforms s j ≡ true → is_array r j ≡ true
  unfolding to_list conforms
  to_list_sound anything e j h = absurd_bool e
  to_list_sound (scalar l) e j h = absurd_bool e
  to_list_sound (one_of names) e j h = absurd_bool e
  to_list_sound (nullable s) e j h = absurd_bool e
  to_list_sound (list s) e j h = is_array_mono (λ i. sound s e i) j h
  to_list_sound (dict s) e j h = absurd_bool e
  to_list_sound (object ss) e j h = absurd_bool e

  to_dict_sound :
      (s : Shape) → to_dict q s ≡ true → (j : Json) → conforms s j ≡ true → is_dict r j ≡ true
  unfolding to_dict conforms
  to_dict_sound anything e j h = absurd_bool e
  to_dict_sound (scalar l) e j h = absurd_bool e
  to_dict_sound (one_of names) e j h = absurd_bool e
  to_dict_sound (nullable s) e j h = absurd_bool e
  to_dict_sound (list s) e j h = absurd_bool e
  to_dict_sound (dict s) e j h = is_dict_mono (λ i. sound s e i) j h
  to_dict_sound (object ss) e j h = absurd_bool e

to_object_sound :
    {q : Fields → Bool} {r : Members → Bool}
    (sound : (ss : Fields)
      → q ss ≡ true
      → (ms : Members) → conforms_fields ss ms ≡ true
      → r ms ≡ true)
    (s : Shape)
    → to_object q s ≡ true
    → (j : Json) → conforms s j ≡ true
    → is_record r j ≡ true
unfolding to_object conforms
to_object_sound sound anything e j h = absurd_bool e
to_object_sound sound (scalar l) e j h = absurd_bool e
to_object_sound sound (one_of names) e j h = absurd_bool e
to_object_sound sound (nullable s) e j h = absurd_bool e
to_object_sound sound (list s) e j h = absurd_bool e
to_object_sound sound (dict s) e j h = absurd_bool e
to_object_sound sound (object ss) e j h = is_record_mono (λ ms. sound ss e ms) j h

-- What a declared field says of the member with its name.
abbrev slot_holds : Option Slot → Option Json → Bool
unfolding conforms present absent_or
slot_holds none o = true
slot_holds (some (must s)) o = present (conforms s) o
slot_holds (some (may s)) o = absent_or (conforms s) o

find_field-find_member :
    (n : String) (ss : Fields) (ms : Members)
    → conforms_fields ss ms ≡ true
    → slot_holds (find_field n ss) (find_member n ms) ≡ true
unfolding slot_holds conforms find_field
find_field-find_member n closed ms h = refl
find_field-find_member n (field m s fs) ms h =
    let (this, rest) =
      split_and (present (conforms s) (find_member m ms)) (conforms_fields fs ms) h in
    elim (Bool-cases (str_eq n m)) [
      | inl e ↦
          ap (λ b. slot_holds (if b then some (must s) else find_field n fs) (find_member n ms)) e
          ∙ ap (λ k. present (conforms s) (find_member k ms)) ((eq_iff n m).0 e)
          ∙ this
      | inr e ↦
          ap (λ b. slot_holds (if b then some (must s) else find_field n fs) (find_member n ms)) e
          ∙ find_field-find_member n fs ms rest
    ]
find_field-find_member n (optional m s fs) ms h =
    let (this, rest) =
      split_and (absent_or (conforms s) (find_member m ms)) (conforms_fields fs ms) h in
    elim (Bool-cases (str_eq n m)) [
      | inl e ↦
          ap (λ b. slot_holds (if b then some (may s) else find_field n fs) (find_member n ms)) e
          ∙ ap (λ k. absent_or (conforms s) (find_member k ms)) ((eq_iff n m).0 e)
          ∙ this
      | inr e ↦
          ap (λ b. slot_holds (if b then some (may s) else find_field n fs) (find_member n ms)) e
          ∙ find_field-find_member n fs ms rest
    ]

module _ {q : Shape → Bool} {r : Json → Bool}
    (sound : (s : Shape) → q s ≡ true → (j : Json) → conforms s j ≡ true → r j ≡ true) where
  to_field_sound :
      (f : Option Slot) (o : Option Json)
      → to_field q f ≡ true
      → slot_holds f o ≡ true
      → present r o ≡ true
  unfolding to_field slot_holds present
  to_field_sound none o e h = absurd_bool e
  to_field_sound (some (must s)) none e h = absurd_bool h
  to_field_sound (some (must s)) (some j) e h = sound s e j h
  to_field_sound (some (may s)) o e h = absurd_bool e

  to_optional_sound :
      (f : Option Slot) (o : Option Json)
      → to_optional q f ≡ true
      → slot_holds f o ≡ true
      → absent_or r o ≡ true
  unfolding to_optional slot_holds present absent_or
  to_optional_sound none o e h = absurd_bool e
  to_optional_sound (some (must s)) none e h = absurd_bool h
  to_optional_sound (some (must s)) (some j) e h = sound s e j h
  to_optional_sound (some (may s)) none e h = refl
  to_optional_sound (some (may s)) (some j) e h = sound s e j h

mutual
  unfolding fits conforms

  -- When a server's shape fits a client's shape, every value that has the server's shape has the
  -- client's.
  pub fits_sound :
      (s c : Shape) → fits s c ≡ true → (j : Json) → conforms s j ≡ true → conforms c j ≡ true
  fits_sound s anything e j h = refl
  fits_sound s (scalar k) e j h = to_scalar_sound k s e j h
  fits_sound s (one_of allowed) e j h = to_one_of_sound allowed s e j h
  fits_sound s (nullable c) e j h = to_nullable_sound (λ t f i g. fits_sound t c f i g) s e j h
  fits_sound s (list c) e j h = to_list_sound (λ t f i g. fits_sound t c f i g) s e j h
  fits_sound s (dict c) e j h = to_dict_sound (λ t f i g. fits_sound t c f i g) s e j h
  fits_sound s (object cs) e j h =
      to_object_sound (λ ss f ms g. fits_fields_sound ss cs f ms g) s e j h

  fits_fields_sound :
      (ss cs : Fields)
      → fits_fields ss cs ≡ true
      → (ms : Members) → conforms_fields ss ms ≡ true
      → conforms_fields cs ms ≡ true
  fits_fields_sound ss closed e ms h = refl
  fits_fields_sound ss (field n c cs) e ms h =
      let (this, rest) =
        split_and (to_field (λ t. fits t c) (find_field n ss)) (fits_fields ss cs) e in
      join_and
        (to_field_sound (λ t f i g. fits_sound t c f i g) (find_field n ss) (find_member n ms) this
          (find_field-find_member n ss ms h))
        (fits_fields_sound ss cs rest ms h)
  fits_fields_sound ss (optional n c cs) e ms h =
      let (this, rest) =
        split_and (to_optional (λ t. fits t c) (find_field n ss)) (fits_fields ss cs) e in
      join_and
        (to_optional_sound (λ t f i g. fits_sound t c f i g) (find_field n ss) (find_member n ms)
          this (find_field-find_member n ss ms h))
        (fits_fields_sound ss cs rest ms h)

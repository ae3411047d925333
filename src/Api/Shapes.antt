-- ===== src/Api/Shapes.antt =====
-- JSON values and the shapes that the two sides of the API declare for them: pydantic models on the
-- server (src/schemas.py), TypeScript interfaces in the client (frontend/src/lib/types.ts).
pub mod Client
pub mod Fits
pub mod Monotone
pub mod Sound
use crag_project.Base.{
  String, Bool, true, false, not, ◌&&◌, ◌||◌, Option, none, some, List, [], ◌∷◌, any, str_eq,
  if◌then◌else◌,
}
use crag_project.Text.{Text, codes, text_eq}

-- A number is kept as it is written.
mutual
  pub data Json : Type 0 where
    null : Json
    truth : Bool → Json
    number : String → Json
    word : Text → Json
    array : Elements → Json
    record_of : Members → Json

  pub data Elements : Type 0 where
    no_more : Elements
    then_one : Json → Elements → Elements

  pub data Members : Type 0 where
    end : Members
    member : String → Json → Members → Members

pub data Scalar : Type 0 where
  boolean numeric string : Scalar

mutual
  pub data Shape : Type 0 where
    -- `Any` and `unknown`
    anything : Shape
    scalar : Scalar → Shape
    -- a union of string literals
    one_of : List String → Shape
    -- `T | None` and `T | null`
    nullable : Shape → Shape
    list : Shape → Shape
    -- `dict[str, T]` and `Record<string, T>`
    dict : Shape → Shape
    object : Fields → Shape

  pub data Fields : Type 0 where
    closed : Fields
    -- a field that is always there, and one that may be left out
    field : String → Shape → Fields → Fields
    optional : String → Shape → Fields → Fields

-- A declared field, and an object of declared fields.
pub data Declared : Type 0 where
  always_there may_be_there : String → Shape → Declared

infix 70 ◌is◌ ◌may_be◌
abbrev pub ◌is◌ : String → Shape → Declared
n is s = always_there n s

abbrev pub ◌may_be◌ : String → Shape → Declared
n may_be s = may_be_there n s

abbrev fields_of : List Declared → Fields
fields_of [] = closed
fields_of (always_there n s ∷ ds) = field n s (fields_of ds)
fields_of (may_be_there n s ∷ ds) = optional n s (fields_of ds)

abbrev pub object_of : List Declared → Shape
object_of ds = object (fields_of ds)

abbrev pub flag : Shape
flag = scalar boolean

abbrev pub num : Shape
num = scalar numeric

abbrev pub text : Shape
text = scalar string

unfoldable pub every : (Json → Bool) → Elements → Bool
every p no_more = true
every p (then_one j js) = p j && every p js

unfoldable pub every_member : (Json → Bool) → Members → Bool
every_member p end = true
every_member p (member n j ms) = p j && every_member p ms

-- The member of this name; of two the first.
unfoldable pub find_member : String → Members → Option Json
find_member n end = none
find_member n (member m j ms) = if str_eq n m then some j else find_member n ms

unfoldable pub is_null : Json → Bool
is_null null = true
is_null _ = false

unfoldable pub is_scalar : Scalar → Json → Bool
is_scalar boolean (truth b) = true
is_scalar numeric (number n) = true
is_scalar string (word s) = true
is_scalar k _ = false

unfoldable pub is_one_of : List String → Json → Bool
is_one_of names (word w) = any (λ n. text_eq w (codes n)) names
is_one_of names _ = false

unfoldable pub is_array : (Json → Bool) → Json → Bool
unfolding every
is_array p (array js) = every p js
is_array p _ = false

unfoldable pub is_dict : (Json → Bool) → Json → Bool
unfolding every_member
is_dict p (record_of ms) = every_member p ms
is_dict p _ = false

unfoldable pub is_record : (Members → Bool) → Json → Bool
is_record p (record_of ms) = p ms
is_record p _ = false

-- Does the value of a member pass, or is it missing and that is as well?
unfoldable pub present : (Json → Bool) → Option Json → Bool
present p none = false
present p (some j) = p j

unfoldable pub absent_or : (Json → Bool) → Option Json → Bool
absent_or p none = true
absent_or p (some j) = p j

-- Has the value this shape? Members that the shape does not name are let through.
unfoldable mutual
  unfolding find_member is_null is_scalar is_one_of is_array is_dict is_record present absent_or

  pub conforms : Shape → Json → Bool
  conforms anything j = true
  conforms (scalar k) j = is_scalar k j
  conforms (one_of names) j = is_one_of names j
  conforms (nullable s) j = is_null j || conforms s j
  conforms (list s) j = is_array (conforms s) j
  conforms (dict s) j = is_dict (conforms s) j
  conforms (object fs) j = is_record (conforms_fields fs) j

  pub conforms_fields : Fields → Members → Bool
  conforms_fields closed ms = true
  conforms_fields (field n s fs) ms =
      present (conforms s) (find_member n ms) && conforms_fields fs ms
  conforms_fields (optional n s fs) ms =
      absent_or (conforms s) (find_member n ms) && conforms_fields fs ms

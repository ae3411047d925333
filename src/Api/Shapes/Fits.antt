-- ===== src/Api/Shapes/Fits.antt =====
-- When does every value of the server's shape have the client's? The test goes through the client's
-- shape and looks each of its fields up in the server's.
use crag_project.Base.{
  String, Bool, true, false, ◌&&◌, Option, none, some, List, [], ◌∷◌, any, str_eq, if◌then◌else◌,
}
use crag_project.Api.Shapes.{
  Scalar, boolean, numeric, string, Shape, anything, scalar, one_of, nullable, list, dict, object,
  Fields, closed, field, optional,
}

-- A declared field: always there, or one that may be left out.
pub data Slot : Type 0 where
  must may : Shape → Slot

unfoldable pub find_field : String → Fields → Option Slot
find_field n closed = none
find_field n (field m s fs) = if str_eq n m then some (must s) else find_field n fs
find_field n (optional m s fs) = if str_eq n m then some (may s) else find_field n fs

unfoldable pub same_scalar : Scalar → Scalar → Bool
same_scalar boolean boolean = true
same_scalar numeric numeric = true
same_scalar string string = true
same_scalar _ _ = false

unfoldable pub names_within : List String → List String → Bool
names_within [] allowed = true
names_within (n ∷ names) allowed = any (str_eq n) allowed && names_within names allowed

-- Is the shape one that fits a scalar, a union, a list, a dictionary, an object?
unfoldable pub to_scalar : Scalar → Shape → Bool
unfolding same_scalar
to_scalar k (scalar l) = same_scalar l k
to_scalar string (one_of names) = true
to_scalar k _ = false

unfoldable pub to_one_of : List String → Shape → Bool
unfolding names_within
to_one_of allowed (one_of names) = names_within names allowed
to_one_of allowed _ = false

unfoldable pub to_nullable : (Shape → Bool) → Shape → Bool
to_nullable q (nullable s) = q s
to_nullable q s = q s

unfoldable pub to_list : (Shape → Bool) → Shape → Bool
to_list q (list s) = q s
to_list q _ = false

unfoldable pub to_dict : (Shape → Bool) → Shape → Bool
to_dict q (dict s) = q s
to_dict q _ = false

unfoldable pub to_object : (Fields → Bool) → Shape → Bool
to_object q (object fs) = q fs
to_object q _ = false

unfoldable pub to_field : (Shape → Bool) → Option Slot → Bool
to_field q (some (must s)) = q s
to_field q _ = false

unfoldable pub to_optional : (Shape → Bool) → Option Slot → Bool
to_optional q none = false
to_optional q (some (must s)) = q s
to_optional q (some (may s)) = q s

unfoldable mutual
  unfolding find_field to_scalar to_one_of to_nullable to_list to_dict to_object to_field
      to_optional

  -- the server's shape, then the client's
  pub fits : Shape → Shape → Bool
  fits s anything = true
  fits s (scalar k) = to_scalar k s
  fits s (one_of allowed) = to_one_of allowed s
  fits s (nullable c) = to_nullable (λ t. fits t c) s
  fits s (list c) = to_list (λ t. fits t c) s
  fits s (dict c) = to_dict (λ t. fits t c) s
  fits s (object cs) = to_object (λ ss. fits_fields ss cs) s

  pub fits_fields : Fields → Fields → Bool
  fits_fields ss closed = true
  fits_fields ss (field n c cs) = to_field (λ t. fits t c) (find_field n ss) && fits_fields ss cs
  fits_fields ss (optional n c cs) =
      to_optional (λ t. fits t c) (find_field n ss) && fits_fields ss cs

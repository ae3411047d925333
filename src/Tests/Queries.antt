-- ===== src/Tests/Queries.antt =====
-- The queries and the boundary at concrete data.
use crag_project.Base.{
  ℕ, true, false, Bool, ◌&&◌, List, [], ◌∷◌, ◌++◌, ◌≡◌, refl, str_eq, ◌==◌, ==_refl, eq_iff,
}
use crag_project.Ui.{QueryKey, KeyPart, str, num, bool, null}
use crag_project.Queries.{system_stats, dashboard_stats, query, path, Data}
use crag_project.Queries.Keys.{same_key}
use crag_project.Queries.Refresh.{IsPrefixMatch}
use crag_project.Boundary.{BoundaryEvent, crashed, try_again, back_to_dashboard}

same_key_example :
    (path ℕ (Unit {0}) system_stats ≡ path ℕ (Unit {0}) dashboard_stats)
    × (Data ℕ (Unit {0}) system_stats ≡ Data ℕ (Unit {0}) dashboard_stats)
same_key_example = same_key ℕ (Unit {0}) system_stats dashboard_stats (unfold query in refl)

same_bool : Bool → Bool → Bool
same_bool true b = b
same_bool false true = false
same_bool false false = true

same_part : KeyPart → KeyPart → Bool
same_part (str a) (str b) = str_eq a b
same_part (num a) (num b) = a == b
same_part (bool a) (bool b) = same_bool a b
same_part null null = true
same_part _ _ = false

-- A match of keys from the left.
begins : QueryKey → QueryKey → Bool
begins [] q = true
begins (p ∷ ps) [] = false
begins (p ∷ ps) (q ∷ qs) = same_part p q && begins ps qs

same_part_refl : (p : KeyPart) → same_part p p ≡ true
unfolding same_part same_bool
same_part_refl (str a) = (eq_iff a a).1 refl
same_part_refl (num a) = ==_refl a
same_part_refl (bool true) = refl
same_part_refl (bool false) = refl
same_part_refl null = refl

begins-append : (k rest : QueryKey) → begins k (k ++ rest) ≡ true
unfolding begins
begins-append [] rest = refl
begins-append (p ∷ ps) rest = rw (same_part_refl p, begins-append ps rest) refl

begins-IsPrefixMatch : IsPrefixMatch begins
begins-IsPrefixMatch = record { reaches = begins-append }

abbrev history : List (BoundaryEvent ℕ)
history = crashed 1 ∷ try_again ∷ crashed 2 ∷ back_to_dashboard ∷ []

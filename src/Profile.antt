-- ===== src/Profile.antt =====
-- frontend/src/pages/Profile.tsx: the signed-in user's account. `upper` stands for `toUpperCase` on one
-- UTF-16 unit.
use crag_project.Base.{
  ℕ, String, false, Option, none, some, List, [], ◌∷◌, str_eq, map, take, if◌then◌else◌,
}
use mathlib.Core.List.{flatten}
use crag_project.Text.{Text, codes, is_empty, trim}
use crag_project.Types.{User}
use crag_project.Ui.{default, secondary, Widget, words, text, badge, button, text_or}
use crag_project.Layout.{split_spaces, initial_of}

pub data ProfileEvent : Type 0 where
  log_out : ProfileEvent

-- `initials` of this page
unfoldable pub initials : (ℕ → Text) → Text → Text
initials upper name = flatten (map (initial_of upper) (take 2 (split_spaces (trim name))))

unfoldable pub role_badge : User → Widget ProfileEvent
role_badge user = badge (if str_eq user.role "admin" then default else secondary) user.role

-- `details`
unfoldable pub details : (String → Text) → User → List (Widget ProfileEvent)
details format_date user =
    words "Email"
    ∷ text user.email
    ∷ words "Full name"
    ∷ text (text_or user.full_name "—")
    ∷ words "Role"
    ∷ role_badge user
    ∷ words "Account status"
    ∷ words (if user.is_active then "Active" else "Disabled")
    ∷ words "Member since"
    ∷ text (format_date user.created_at)
    ∷ []

unfoldable pub view : (ℕ → Text) → (String → Text) → Option User → List (Widget ProfileEvent)
view upper format_date none = []
view upper format_date (some user) =
    words "Account"
    ∷ words "Profile"
    ∷ text (initials upper (if is_empty user.full_name then user.email else user.full_name))
    ∷ text (text_or user.full_name "User")
    ∷ text user.email
    ∷ role_badge user
    ∷ button (codes "Log out") false log_out
    ∷ words "Account details"
    ∷ words "Information about your account on this instance."
    ∷ details format_date user

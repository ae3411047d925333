-- ===== src/Layout.antt =====
-- frontend/src/components/Layout.tsx: the frame around every protected page. `upper` stands for
-- `toUpperCase` on one UTF-16 unit, `year` is the current one.
pub mod Links
use crag_project.Base.{
  ℕ, String, Bool, true, false, Option, none, some, List, [], ◌∷◌, ◌++◌, str_eq, take, map,
  if◌then◌else◌,
}
use mathlib.Core.List.{flatten}
use crag_project.Text.{Text, codes, is_empty, is_space, trim, cons_first}
use crag_project.Text.Decimal.{decimal}
use crag_project.Types.{User}
use crag_project.Ui.{Widget, words, text, link, button, when, each, text_or}

pub data LayoutEvent : Type 0 where
  log_out : LayoutEvent

unfoldable pub starts_with_space : Text → Bool
starts_with_space [] = false
starts_with_space (c ∷ t) = is_space c

-- `split(/\s+/)`
unfoldable pub split_spaces : Text → List Text
split_spaces [] = [] ∷ []
split_spaces (c ∷ t) =
    let rest = split_spaces t in
    if is_space c then (if starts_with_space t then rest else [] ∷ rest) else cons_first c rest

-- `part[0]?.toUpperCase() ?? ''`
unfoldable pub initial_of : (ℕ → Text) → Text → Text
initial_of upper [] = []
initial_of upper (c ∷ t) = upper c

unfoldable pub initials : (ℕ → Text) → Text → Text
initials upper name = flatten (map (initial_of upper) (take 2 (split_spaces (trim name))))

pub record NavItem : Type 0 where
  pub to : String
  pub label : String

abbrev item : String → String → NavItem
item to label = record { to = to; label = label }

unfoldable pub is_admin : Option User → Bool
is_admin none = false
is_admin (some user) = str_eq user.role "admin"

unfoldable pub nav_items : Bool → List NavItem
nav_items admin =
    item "/dashboard" "Dashboard"
    ∷ ((if admin then [] else item "/chat" "Chat" ∷ item "/documents" "Documents" ∷ [])
        ++ item "/support" "Support"
          ∷ (if admin then item "/users" "Users" ∷ item "/system" "System" ∷ [] else []))

unfoldable pub user_menu : (ℕ → Text) → Option User → List (Widget LayoutEvent)
user_menu upper none = []
user_menu upper (some user) =
    let name = if is_empty user.full_name then user.email else user.full_name in
    text (initials upper name)
    ∷ text name
    ∷ text (text_or user.full_name "User")
    ∷ text user.email
    ∷ link "/profile" "Profile"
    ∷ (when (str_eq user.role "admin") (link "/system" "System status" ∷ [])
        ++ button (codes "Log out") false log_out ∷ [])

unfoldable pub nav_bar : Bool → List (Widget LayoutEvent)
nav_bar admin = each (λ (i : NavItem). link i.to i.label ∷ []) (nav_items admin)

unfoldable pub footer : ℕ → List (Widget LayoutEvent)
footer year =
    text (codes "© " ++ (decimal year ++ codes " Agentic RAG · Corrective RAG on LangGraph"))
    ∷ words "All systems operational"
    ∷ []

unfoldable pub view :
    (ℕ → Text) → ℕ → Option User → List (Widget LayoutEvent) → List (Widget LayoutEvent)
view upper year user outlet =
    link "/dashboard" "Agentic RAG"
    ∷ (nav_bar (is_admin user) ++ (user_menu upper user ++ (outlet ++ footer year)))

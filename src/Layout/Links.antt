-- ===== src/Layout/Links.antt =====
-- Where the links of the frame in frontend/src/components/Layout.tsx lead.
use crag_project.Base.{ℕ, String, Bool, true, false, Option, none, some, [], ◌≡◌}
use crag_project.Text.{Text}
use crag_project.Types.{User}
use crag_project.Auth.{AuthState}
use crag_project.Ui.Clicks.{In, All-In}
use crag_project.Ui.Links.{links, EveryLink, link_rules}
use crag_project.Routing.{protected_route, plain, settle, page_at, Page}
use crag_project.Routing.Guards.{IsStatic}
use crag_project.Routing.Paths.{IsPath, protected_paths, path-shown}
use crag_project.Layout.{nav_items, user_menu, nav_bar, footer, view}

nav_bar-links : (admin : Bool) → EveryLink (IsPath protected_route) (nav_bar admin)
unfolding nav_bar nav_items
nav_bar-links true = search (link_rules, protected_paths) depth 30
nav_bar-links false = search (link_rules, protected_paths) depth 30

user_menu-links :
    (upper : ℕ → Text) (u : Option User) → EveryLink (IsPath protected_route) (user_menu upper u)
unfolding user_menu
user_menu-links upper none = search link_rules depth 2
user_menu-links upper (some u) = search (link_rules, protected_paths) depth 30

footer-links : (year : ℕ) → EveryLink (IsPath protected_route) (footer year)
unfolding footer
footer-links year = search link_rules depth 6

view-links :
    (upper : ℕ → Text) (year : ℕ) (u : Option User)
    → EveryLink (IsPath protected_route) (view upper year u [])
unfolding view
view-links upper year u =
    search (link_rules, protected_paths, nav_bar-links, user_menu-links, footer-links) depth 10

module _ (matches : String → String → Bool) (static : IsStatic matches) where
  -- Every link of the frame, for an administrator and for another user, leads to a page that the
  -- router shows a signed-in user at once, without a redirect. react-router is taken to match a
  -- path of the table by itself alone.
  pub links-show :
      (upper : ℕ → Text) (year : ℕ) (u : User) (a : AuthState) (to : String)
      → a.loading ≡ false
      → a.user ≡ some u
      → In to (links (view upper year a.user []))
      → (p : Page) × (settle matches 1 a (plain to) ≡ some (page_at p (plain to)))
  links-show upper year u a to l e m =
      path-shown matches static a u to l e
        (All-In (IsPath protected_route) _ to (view-links upper year a.user).at m)

-- ===== src/Dashboard/Links.antt =====
-- Where the links of the start pages lead: frontend/src/pages/Dashboard.tsx and AdminDashboard.tsx.
use crag_project.Base.{ℕ, String, Bool, false, Option, some, List, [], ◌∷◌, ◌≡◌}
use crag_project.Text.{Text}
use crag_project.Types.{User, SystemStats, DocumentRecord}
use crag_project.Auth.{AuthState}
use crag_project.Ui.{Query, each}
use crag_project.Ui.Clicks.{In, All-In}
use crag_project.Ui.Links.{links, link_rules}
use crag_project.Routing.{protected_route, plain, settle, page_at, Page}
use crag_project.Routing.Guards.{IsStatic}
use crag_project.Routing.Paths.{IsPath, protected_paths, path-shown}
use crag_project.System.{View}
use crag_project.System.Links.{SystemPage, shown, shown-links, IsGuarded, dependency_rows-links}
use crag_project.Dashboard.{Snapshot, stats, stat_card, recent_row, recent_rows, user_view, view}
use crag_project.Dashboard.Admin.{admin_cards, admin_card, admin_view}

admin_cards-links : (q : Query SystemStats) → IsGuarded (each (admin_card q) admin_cards)
unfolding admin_card
admin_cards-links q = search (link_rules, protected_paths) depth 30

admin_view-links :
    (today : Text) (u : Option User) (q : Query SystemStats) → IsGuarded (admin_view today u q)
unfolding admin_view
admin_view-links today u q =
    search (link_rules, protected_paths, admin_cards-links, dependency_rows-links) depth 40

module _ (format_date : String → Text) (today : Text) where
  recent_rows-links : (ds : List DocumentRecord) → IsGuarded (recent_rows format_date today ds)
  unfolding recent_rows recent_row
  recent_rows-links [] = search (link_rules, protected_paths) depth 10
  recent_rows-links (d ∷ ds) = search link_rules depth 10

  stats-links :
      (b : Bool) (q : Snapshot) → IsGuarded (each (stat_card format_date today b) (stats q))
  unfolding stats stat_card
  stats-links b q = search (link_rules, protected_paths) depth 20

  user_view-links : (u : Option User) (q : Snapshot) → IsGuarded (user_view format_date today u q)
  unfolding user_view
  user_view-links u q =
      search (link_rules, protected_paths, stats-links, recent_rows-links) depth 30

  view-links :
      (u : Option User) (s : Query SystemStats) (q : Snapshot)
      → IsGuarded (view format_date today u s q)
  unfolding view
  view-links u s q = search (link_rules, admin_view-links, user_view-links) depth 4

-- A page without handlers, with the answers that it shows: the start page, or one of the five for
-- administrators.
pub data ReadPage (Score : Type 0) : Type 0 where
  start_page : Query SystemStats → Snapshot → ReadPage Score
  system_page : SystemPage Score → ReadPage Score

module _ (format_date : String → Text) (today : Text) {Score : Type 0} (percent : Score → Text)
    (seconds : ℕ → Text) where
  abbrev pub read_view : Option User → ReadPage Score → View
  read_view u (start_page s q) = view format_date today u s q
  read_view u (system_page p) = shown format_date percent seconds p

  read_view-links : (u : Option User) (p : ReadPage Score) → IsGuarded (read_view u p)
  read_view-links u (start_page s q) = view-links format_date today u s q
  read_view-links u (system_page p) = shown-links format_date percent seconds p

  module _ (matches : String → String → Bool) (static : IsStatic matches) where
    -- Every link of the start page, an administrator's and another user's, of the System page and
    -- of the four tables, whatever the server has answered, also with an error, leads to a page
    -- that the router shows the signed-in user at once. react-router is taken to match a path of
    -- the table by itself alone.
    pub read_view-settle :
        (p : ReadPage Score) (u : User) (a : AuthState) (to : String)
        → a.loading ≡ false
        → a.user ≡ some u
        → In to (links (read_view a.user p))
        → (page : Page) × (settle matches 1 a (plain to) ≡ some (page_at page (plain to)))
    read_view-settle p u a to l e m =
        path-shown matches static a u to l e
          (All-In (IsPath protected_route) _ to (read_view-links a.user p).at m)

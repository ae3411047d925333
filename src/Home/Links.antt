-- ===== src/Home/Links.antt =====
-- Where the links of the landing page, frontend/src/pages/Home.tsx, lead.
use crag_project.Base.{
  ℕ, suc, String, Bool, false, none, some, str_eq, ◌≡◌, refl, ap, ◌∙◌, Option-cases, inl, inr,
  if◌then◌else◌,
}
use crag_project.Types.{User}
use crag_project.Auth.{AuthState}
use crag_project.Ui.Clicks.{In, All-In}
use crag_project.Ui.Links.{links, EveryLink, link_rules}
use crag_project.Routing.{
  guest_route, protected_route, Route, routes, Location, plain, moved, Page, login, register,
  dashboard, check, visit, settle, Shown, page_at,
}
use crag_project.Routing.Guards.{
  IsStatic, resolve-In, visit-resolved, settle-outlet, admitted-outlet, check-guest,
}
use crag_project.Home.{hero, demo, fact_row, feature_row, step_row, invitation, view}

-- The page that a guest's path stands for.
abbrev pub guest_page : String → Page
guest_page to = if str_eq to "/login" then login else register

-- What somebody sees who follows a link of the landing page.
abbrev pub landing : AuthState → String → Shown
landing a to = elim a.user [
  | none ↦ page_at (guest_page to) (plain to)
  | some u ↦ page_at dashboard (plain "/dashboard")
]

abbrev login_route : Route
login_route = record { path = "/login"; guard = guest_route; page = login }

abbrev register_route : Route
register_route = record { path = "/register"; guard = guest_route; page = register }

abbrev dashboard_route : Route
dashboard_route = record { path = "/dashboard"; guard = protected_route; page = dashboard }

module _ (matches : String → String → Bool) (static : IsStatic matches) (a : AuthState)
    (l : a.loading ≡ false) where
  visit-route :
      (r : Route)
      → In r routes
      → visit matches a (plain r.path) ≡ check r.guard a (plain r.path) r.page
  visit-route r m = visit-resolved matches static a (plain r.path) r (resolve-In matches static r m)

  settle-moved :
      (n : ℕ) (at to : Location)
      → visit matches a at ≡ moved to
      → settle matches (suc n) a at ≡ settle matches n a to
  unfolding settle
  settle-moved n at to e = rw (e, settle) refl

  settle-dashboard :
      (u : User)
      → a.user ≡ some u
      → settle matches 1 a (plain "/dashboard") ≡ some (page_at dashboard (plain "/dashboard"))
  settle-dashboard u e = settle-outlet matches static 0 a (plain "/dashboard") dashboard (
      visit-route dashboard_route (inr (inr (inr (inr (inr (inl refl))))))
      ∙ admitted-outlet matches static protected_route a (plain "/dashboard") dashboard (l, (u, e)))

  -- A page for guests: a visitor sees it, and a signed-in user the dashboard.
  settle-guest :
      (r : Route)
      → In r routes
      → r.guard ≡ guest_route
      → r.page ≡ guest_page r.path
      → settle matches 2 a (plain r.path) ≡ some (landing a r.path)
  settle-guest r m g e = elim (Option-cases a.user) [
    | inl n ↦
        settle-outlet matches static 1 a (plain r.path) r.page (
          visit-route r m
          ∙ (ap (λ k. check k a (plain r.path) r.page) g
              ∙ admitted-outlet matches static guest_route a (plain r.path) r.page (l, n)))
        ∙ rw (n, e) refl
    | inr (u, q) ↦
        settle-moved 1 (plain r.path) (plain "/dashboard") (
          visit-route r m
          ∙ (ap (λ k. check k a (plain r.path) r.page) g
              ∙ check-guest matches static a (plain r.path) r.page u l q))
        ∙ (settle-dashboard u q ∙ rw q refl)
  ]

  abbrev Ends : String → Type 0
  Ends to = settle matches 2 a (plain to) ≡ some (landing a to)

  login-Ends : Ends "/login"
  login-Ends = settle-guest login_route (inr (inl refl)) refl refl

  register-Ends : Ends "/register"
  register-Ends = settle-guest register_route (inr (inr (inl refl))) refl refl

  view-links : (year : ℕ) → EveryLink Ends (view year)
  unfolding view hero demo fact_row feature_row step_row invitation
  view-links year = search (link_rules, login-Ends, register-Ends) depth 40

  -- Who follows a link of the landing page, as soon as it is known who is signed in, sees the page for
  -- guests that the link names, or the dashboard if somebody is signed in. react-router is taken to
  -- match a path of the table by itself alone.
  pub settle-home :
      (year : ℕ) (to : String)
      → In to (links (view year))
      → settle matches 2 a (plain to) ≡ some (landing a to)
  settle-home year to m = All-In Ends _ to (view-links year).at m

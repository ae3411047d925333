-- ===== src/Routing.antt =====
-- frontend/src/App.tsx and components/Routes.tsx: the table of routes, the two guards, and what the
-- router shows. `matches pattern pathname` stands for react-router's test of one route.
pub mod Guards
pub mod Paths
pub mod Settle
pub mod Return
pub mod Session
use crag_project.Base.{
  Bool, true, false, String, Option, none, some, List, [], ◌∷◌, ℕ, zero, suc, find?, if◌then◌else◌,
}
use crag_project.Auth.{AuthState}

pub data Page : Type 0 where
  home login register forgot_password reset_password : Page
  dashboard chat documents support system system_documents system_conversations : Page
  system_messages system_query_logs users profile : Page

pub data Guard : Type 0 where
  open_route guest_route protected_route : Guard

pub record Route : Type 0 where
  pub path : String
  pub guard : Guard
  pub page : Page

abbrev route : String → Guard → Page → Route
route path guard page = record { path = path; guard = guard; page = page }

-- The table of App.tsx; its last line, `*`, is in `visit`.
abbrev pub routes : List Route
routes =
    route "/" open_route home
    ∷ route "/login" guest_route login
    ∷ route "/register" guest_route register
    ∷ route "/forgot-password" guest_route forgot_password
    ∷ route "/reset-password" guest_route reset_password
    ∷ route "/dashboard" protected_route dashboard
    ∷ route "/chat" protected_route chat
    ∷ route "/documents" protected_route documents
    ∷ route "/support" protected_route support
    ∷ route "/system" protected_route system
    ∷ route "/system/documents" protected_route system_documents
    ∷ route "/system/conversations" protected_route system_conversations
    ∷ route "/system/messages" protected_route system_messages
    ∷ route "/system/query-logs" protected_route system_query_logs
    ∷ route "/users" protected_route users
    ∷ route "/profile" protected_route profile
    ∷ []

-- Where a visitor was sent away from.
pub record Origin : Type 0 where
  pub pathname : String
  pub search : String

pub record Location : Type 0 where
  pub pathname : String
  pub search : String
  -- `location.state?.from`
  pub from : Option Origin

abbrev pub plain : String → Location
plain pathname = record { pathname = pathname; search = ""; from = none }

-- What one rendering of the router gives: the page, for `<Outlet />`, or a `<Navigate />`.
pub data Visit : Type 0 where
  spinner : Visit
  outlet : Page → Visit
  moved : Location → Visit

unfoldable pub protect : AuthState → Location → Page → Visit
protect a at p = if a.loading then spinner else elim a.user [
  | none ↦ moved (record {
    pathname = "/login";
    search = "";
    from = some (record { pathname = at.pathname; search = at.search });
  })
  | some u ↦ outlet p
]

unfoldable pub guests_only : AuthState → Page → Visit
guests_only a p =
    if a.loading
    then spinner
    else elim a.user [ none ↦ outlet p | some u ↦ moved (plain "/dashboard") ]

unfoldable pub check : Guard → AuthState → Location → Page → Visit
unfolding protect guests_only
check open_route a at p = outlet p
check guest_route a at p = guests_only a p
check protected_route a at p = protect a at p

-- What the visitor ends up seeing.
pub data Shown : Type 0 where
  loading : Shown
  page_at : Page → Location → Shown

module _ (matches : String → String → Bool) where
  unfoldable pub resolve : String → Option Route
  resolve pathname = find? (λ (r : Route). matches r.path pathname) routes

  unfoldable pub visit : AuthState → Location → Visit
  visit a at = elim (resolve at.pathname) [
    | none ↦ moved (plain "/")
    | some r ↦ check r.guard a at r.page
  ]

  -- Redirects are followed; `none` if there are more of them than the fuel.
  unfoldable pub settle : ℕ → AuthState → Location → Option Shown
  settle zero a at = none
  settle (suc fuel) a at = elim (visit a at) [
    | spinner ↦ some loading
    | outlet p ↦ some (page_at p at)
    | moved to ↦ settle fuel a to
  ]

-- ===== src/Routing/Return.antt =====
-- A visitor who is sent to the form of frontend/src/pages/Login.tsx and logs in there.
use crag_project.Base.{Bool, true, false, String, none, some, [], ◌∷◌, ◌≡◌, refl, ap, ◌∙◌}
use crag_project.Types.{User}
use crag_project.Auth.{AuthState}
use crag_project.Auth
use crag_project.Api.Errors.{ok}
use crag_project.Ui.{toast_success, navigate}
use crag_project.Forms.Login.{answered, return_path}
use crag_project.Routing.{
  protected_route, Route, routes, Location, plain, moved, visit, check, settle, page_at,
}
use crag_project.Routing.Guards.{
  IsStatic, resolve-In, visit-resolved, settle-outlet, check-protected, admitted-outlet,
}
use crag_project.Ui.Clicks.{In}

-- Where the guard sends a visitor who asked for this address.
abbrev pub login_for : String → String → Location
login_for pathname query = record {
  pathname = "/login";
  search = "";
  from = some (record { pathname = pathname; search = query });
}

abbrev pub asked : String → String → Location
asked pathname query = record { pathname = pathname; search = query; from = none }

-- The state after a successful login.
abbrev pub signed_in : User → AuthState → AuthState
signed_in u a = record a { user = some u }

module _ (matches : String → String → Bool) (static : IsStatic matches) where
  answered-ok :
      (pathname query : String) (a : AuthState) (u : User)
      → answered (login_for pathname query).from (ok u) a
        ≡ (signed_in u a, toast_success "Welcome back" ∷ navigate pathname true ∷ [])
  unfolding answered Auth.login return_path
  answered-ok pathname query a u = refl

  -- Three steps, each by itself: someone who is known not to be signed in and asks for a protected
  -- page is sent to the login form; a login there calls for the address asked for, without the
  -- query string it had; and someone signed in who visits that address sees its page. The guard of
  -- the login form, which sends someone signed in to the dashboard, is not among the steps.
  -- react-router is taken to match a path of the table by itself alone.
  pub login_returns :
      (r : Route) (query : String) (a : AuthState) (u : User)
      → In r routes
      → r.guard ≡ protected_route
      → a.loading ≡ false
      → a.user ≡ none
      → (visit matches a (asked r.path query) ≡ moved (login_for r.path query))
        × (answered (login_for r.path query).from (ok u) a
            ≡ (signed_in u a, toast_success "Welcome back" ∷ navigate r.path true ∷ []))
        × (settle matches 1 (signed_in u a) (plain r.path) ≡ some (page_at r.page (plain r.path)))
  login_returns r query a u m g l n =
      let found = resolve-In matches static r m in
      (
        visit-resolved matches static a (asked r.path query) r found
            ∙ ap (λ k. check k a (asked r.path query) r.page) g
            ∙ check-protected matches static a (asked r.path query) r.page l n,
        answered-ok r.path query a u,
        settle-outlet matches static 0 (signed_in u a) (plain r.path) r.page (
            visit-resolved matches static (signed_in u a) (plain r.path) r found
            ∙ ap (λ k. check k (signed_in u a) (plain r.path) r.page) g
            ∙ admitted-outlet matches static protected_route (signed_in u a) (plain r.path) r.page
                (l, (u, refl))),
      )

-- ===== src/Routing/Session.antt =====
-- How the state of frontend/src/context/AuthContext.tsx opens and closes the pages.
use crag_project.Base.{Bool, false, String, some, ◌≡◌, refl, ap, ◌∙◌, arith}
use crag_project.Types.{User}
use crag_project.Auth.{AuthState, mount, logout}
use crag_project.Api.Errors.{Reply}
use crag_project.Routing.{
  protected_route, Route, routes, Location, moved, Page, visit, check, settle, Shown, loading,
  page_at,
}
use crag_project.Routing.Guards.{IsStatic, resolve-In, visit-resolved, check-protected}
use crag_project.Routing.Settle.{IsAdmitted, settle-Lands}
use crag_project.Routing.Return.{login_for, asked}
use crag_project.Ui.Clicks.{In}

mount-loading : (reply : Reply User) (a : AuthState) → (mount reply a).loading ≡ false
unfolding mount
mount-loading reply a = refl

module _ (matches : String → String → Bool) (static : IsStatic matches) where
  shows_page :
      (a : AuthState) (at : Location) (s : Shown)
      → a.loading ≡ false
      → settle matches 2 a at ≡ some s
      → IsAdmitted a s
      → (p : Page) × (l : Location) × (settle matches 2 a at ≡ some (page_at p l))
  shows_page a at loading l e ad = absurd (ground (arith, l, ad))
  shows_page a at (page_at p to) l e ad = (p, to, e)

  -- Once the first request for the user has ended, however it ended, no visit ends on the spinner: each
  -- of them, to whatever address, ends on some page. react-router is taken to match a path of the
  -- table by itself alone.
  pub settle-mount :
      (reply : Reply User) (a : AuthState) (at : Location)
      → (p : Page) × (l : Location) × (settle matches 2 (mount reply a) at ≡ some (page_at p l))
  settle-mount reply a at =
      let (s, e, ad) = settle-Lands matches static (mount reply a) at in
      shows_page (mount reply a) at s (mount-loading reply a) e ad

  -- After a logout, also one that the server has refused, every protected page sends the visitor to the login
  -- form with the address asked for, provided that it is known who is signed in. react-router is
  -- taken to match a path of the table by itself alone.
  pub visit-logout :
      (reply : Reply (Unit {0})) (a : AuthState) (r : Route) (query : String)
      → In r routes
      → r.guard ≡ protected_route
      → a.loading ≡ false
      → visit matches (logout reply a).0 (asked r.path query) ≡ moved (login_for r.path query)
  unfolding logout
  visit-logout reply a r query m g l =
      let out = (logout reply a).0 in
      visit-resolved matches static out (asked r.path query) r (resolve-In matches static r m)
      ∙ ap (λ k. check k out (asked r.path query) r.page) g
      ∙ check-protected matches static out (asked r.path query) r.page l refl

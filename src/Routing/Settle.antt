-- ===== src/Routing/Settle.antt =====
-- Every visit comes to rest on a page that the visitor may see.
use crag_project.Base.{
  Bool, true, false, String, Option, none, some, ℕ, suc, ◌≡◌, refl, ◌∙◌, Option-cases, Bool-cases,
  inl, inr,
}
use crag_project.Types.{User}
use crag_project.Auth.{AuthState}
use crag_project.Routing.{
  Page, home, dashboard, Guard, open_route, guest_route, protected_route, Route, routes, Location,
  Origin, plain, spinner, outlet, moved, check, Shown, loading, page_at, resolve, visit, settle,
}
use crag_project.Ui.Clicks.{In}
use crag_project.Routing.Guards.{
  IsStatic, Admits, resolve-In, visit-resolved, visit-unknown, admitted-outlet, check-loading,
  check-guest, check-protected, found-In,
}

-- A page is shown that some route has, and whose guard lets the visitor through; or the spinner,
-- while it is not known who is signed in.
abbrev pub IsAdmitted : AuthState → Shown → Type 0
IsAdmitted a loading = a.loading ≡ true
IsAdmitted a (page_at p at) = (r : Route) × In r routes × (r.page ≡ p) × Admits r.guard a

module _ (matches : String → String → Bool) (static : IsStatic matches) where
  -- Where a visit ends, from what its first rendering gives.
  abbrev Lands : ℕ → AuthState → Location → Type 0
  Lands n a at = (s : Shown) × (settle matches n a at ≡ some s) × IsAdmitted a s

  outlet-Lands :
      (n : ℕ) (a : AuthState) (at : Location) (r : Route)
      → In r routes
      → Admits r.guard a
      → visit matches a at ≡ outlet r.page
      → Lands (suc n) a at
  unfolding settle
  outlet-Lands n a at r m ad e = (page_at r.page at, rw (e, settle) refl, (r, m, refl, ad))

  spinner-Lands :
      (n : ℕ) (a : AuthState) (at : Location)
      → a.loading ≡ true
      → visit matches a at ≡ spinner
      → Lands (suc n) a at
  unfolding settle
  spinner-Lands n a at l e = (loading, rw (e, settle) refl, l)

  moved-Lands :
      (n : ℕ) (a : AuthState) (at to : Location)
      → visit matches a at ≡ moved to
      → Lands n a to
      → Lands (suc n) a at
  unfolding settle
  moved-Lands n a at to e (s, q, ad) = (s, rw (e, settle) q, ad)

  pub admitted-Lands :
      (n : ℕ) (a : AuthState) (at : Location) (r : Route)
      → In r routes
      → resolve matches at.pathname ≡ some r
      → Admits r.guard a
      → Lands (suc n) a at
  admitted-Lands n a at r m e ad = outlet-Lands n a at r m ad (
      visit-resolved matches static a at r e
      ∙ admitted-outlet matches static r.guard a at r.page ad)

  abbrev home_route : Route
  home_route = record { path = "/"; guard = open_route; page = home }

  home-Lands : (n : ℕ) (a : AuthState) → Lands (suc n) a (plain "/")
  home-Lands n a =
      admitted-Lands n a (plain "/") home_route (inl refl)
        (resolve-In matches static home_route (inl refl)) tt

  abbrev login_route : Route
  login_route = record { path = "/login"; guard = guest_route; page = Page.login }

  login-Lands :
      (n : ℕ) (a : AuthState) (from : Option Origin)
      → a.loading ≡ false
      → a.user ≡ none
      → Lands (suc n) a (record { pathname = "/login"; search = ""; from = from })
  login-Lands n a from l u =
      admitted-Lands n a _ login_route (inr (inl refl))
        (resolve-In matches static login_route (inr (inl refl))) (l, u)

  abbrev dashboard_route : Route
  dashboard_route = record { path = "/dashboard"; guard = protected_route; page = dashboard }

  dashboard-Lands :
      (n : ℕ) (a : AuthState) (u : User)
      → a.loading ≡ false
      → a.user ≡ some u
      → Lands (suc n) a (plain "/dashboard")
  dashboard-Lands n a u l e =
      admitted-Lands n a (plain "/dashboard") dashboard_route there
        (resolve-In matches static dashboard_route there) (l, (u, e))
    where
      there : In dashboard_route routes
      there = inr (inr (inr (inr (inr (inl refl)))))

  guarded-Lands :
      (n : ℕ) (g : Guard) (a : AuthState) (at : Location) (r : Route)
      → In r routes
      → r.guard ≡ g
      → visit matches a at ≡ check g a at r.page
      → Lands (suc (suc n)) a at
  guarded-Lands n open_route a at r m same e =
      outlet-Lands (suc n) a at r m (rw same tt) (e ∙ unfold check in refl)
  guarded-Lands n guest_route a at r m same e = elim (Bool-cases a.loading) [
    | inl l ↦
        spinner-Lands (suc n) a at l
          (e ∙ check-loading matches static guest_route a at r.page l (λ q. cc))
    | inr l ↦ elim (Option-cases a.user) [
      | inl u ↦
          outlet-Lands (suc n) a at r m (rw same (l, u))
            (e ∙ admitted-outlet matches static guest_route a at r.page (l, u))
      | inr (u, q) ↦
          moved-Lands (suc n) a at (plain "/dashboard")
            (e ∙ check-guest matches static a at r.page u l q) (dashboard-Lands n a u l q)
    ]
  ]
  guarded-Lands n protected_route a at r m same e = elim (Bool-cases a.loading) [
    | inl l ↦
        spinner-Lands (suc n) a at l
          (e ∙ check-loading matches static protected_route a at r.page l (λ q. cc))
    | inr l ↦ elim (Option-cases a.user) [
      | inl u ↦
          moved-Lands (suc n) a at _ (e ∙ check-protected matches static a at r.page l u)
            (login-Lands n a _ l u)
      | inr (u, q) ↦
          outlet-Lands (suc n) a at r m (rw same (l, (u, q)))
            (e ∙ admitted-outlet matches static protected_route a at r.page (l, (u, q)))
    ]
  ]

  -- Every visit, to whatever address, ends after at most one redirect: on the spinner, only while
  -- it is not known who is signed in, or on the page of a route whose guard lets the visitor
  -- through. react-router is taken to match a path of the table by itself alone.
  pub settle-Lands : (a : AuthState) (at : Location) → Lands 2 a at
  settle-Lands a at = elim (Option-cases (resolve matches at.pathname)) [
    | inl missing ↦
        moved-Lands 1 a at (plain "/") (visit-unknown matches static a at missing) (home-Lands 0 a)
    | inr (r, found) ↦
        guarded-Lands 0 r.guard a at r (found-In matches static at r found) refl
          (visit-resolved matches static a at r found)
  ]

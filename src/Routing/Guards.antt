-- ===== src/Routing/Guards.antt =====
-- The lookup in the table of routes of frontend/src/App.tsx, and what its guards answer.
use crag_project.Base.{
  Bool, true, false, String, none, some, List, [], ◌∷◌, ℕ, suc, find?, ◌≡◌, refl, ◌∙◌, ◌≢◌, All,
  str_eq, Bool-cases, inl, inr, arith, sym,
}
use crag_project.Types.{User}
use crag_project.Auth.{AuthState}
use crag_project.Routing.{
  Page, Guard, open_route, guest_route, protected_route, Route, routes, Location, plain, spinner,
  outlet, moved, check, page_at, resolve, visit, settle,
}
use crag_project.Ui.Clicks.{In, All-In}

-- The paths of the table are static: react-router matches one of them by itself and by no other.
pub record IsStatic (matches : String → String → Bool) : Type 0 where
  pub exact :
      (q : Route)
      → In q routes
      → All (λ (r : Route). matches r.path q.path ≡ str_eq r.path q.path) routes

pub find?-congr {ℓ} :
    {A : Type ℓ} (f g : A → Bool) (xs : List A) → All (λ x. f x ≡ g x) xs → find? f xs ≡ find? g xs
find?-congr f g [] h = refl
find?-congr f g (x ∷ xs) (e, h) = rw (e, find?-congr f g xs h) refl

-- No route of the table is hidden by another.
table_is_apart :
    All (λ (q : Route). find? (λ (r : Route). str_eq r.path q.path) routes ≡ some q) routes
table_is_apart = (
  refl,
  (
    refl,
    (
      refl,
      (
        refl,
        (
          refl,
          (
            refl,
            (refl, (refl, (refl, (refl, (refl, (refl, (refl, (refl, (refl, (refl, tt)))))))))),
          ),
        ),
      ),
    ),
  ),
)

-- The guard of a route lets the visitor through.
abbrev pub Admits : Guard → AuthState → Type 0
Admits open_route a = Unit
Admits guest_route a = (a.loading ≡ false) × (a.user ≡ none)
Admits protected_route a = (a.loading ≡ false) × ((u : User) × (a.user ≡ some u))

module _ (matches : String → String → Bool) (static : IsStatic matches) where
  pub resolve-In : (q : Route) → In q routes → resolve matches q.path ≡ some q
  unfolding resolve
  resolve-In q m =
      find?-congr (λ (r : Route). matches r.path q.path) (λ r. str_eq r.path q.path) routes
        (static.exact q m)
      ∙ All-In (λ (x : Route). find? (λ (r : Route). str_eq r.path x.path) routes ≡ some x) routes q
          table_is_apart m

  pub find?-In : (f : Route → Bool) (xs : List Route) (r : Route) → find? f xs ≡ some r → In r xs
  find?-In f [] r h = ground arith
  find?-In f (x ∷ xs) r h = elim (Bool-cases (f x)) [
    | inl e ↦ inl (sym (ground arith))
    | inr e ↦ inr (find?-In f xs r (rw e at h))
  ]

  pub visit-resolved :
      (a : AuthState) (at : Location) (r : Route)
      → resolve matches at.pathname ≡ some r
      → visit matches a at ≡ check r.guard a at r.page
  unfolding visit
  visit-resolved a at r e = rw (e, visit) refl

  pub visit-unknown :
      (a : AuthState) (at : Location)
      → resolve matches at.pathname ≡ none
      → visit matches a at ≡ moved (plain "/")
  unfolding visit
  visit-unknown a at e = rw (e, visit) refl

  pub settle-outlet :
      (n : ℕ) (a : AuthState) (at : Location) (p : Page)
      → visit matches a at ≡ outlet p
      → settle matches (suc n) a at ≡ some (page_at p at)
  unfolding settle
  settle-outlet n a at p e = rw (e, settle) refl

  -- A route whose guard lets the visitor through shows its page.
  pub admitted-outlet :
      (g : Guard) (a : AuthState) (at : Location) (p : Page)
      → Admits g a
      → check g a at p ≡ outlet p
  unfolding check
  admitted-outlet open_route a at p ad = refl
  admitted-outlet guest_route a at p (l, n) = rw (l, n) refl
  admitted-outlet protected_route a at p (l, (u, e)) = rw (l, e) refl

  pub check-loading :
      (g : Guard) (a : AuthState) (at : Location) (p : Page)
      → a.loading ≡ true
      → g ≢ open_route
      → check g a at p ≡ spinner
  unfolding check
  check-loading open_route a at p l h = absurd (h refl)
  check-loading guest_route a at p l h = rw l refl
  check-loading protected_route a at p l h = rw l refl

  pub check-guest :
      (a : AuthState) (at : Location) (p : Page) (u : User)
      → a.loading ≡ false
      → a.user ≡ some u
      → check guest_route a at p ≡ moved (plain "/dashboard")
  unfolding check
  check-guest a at p u l e = rw (l, e) refl

  pub check-protected :
      (a : AuthState) (at : Location) (p : Page)
      → a.loading ≡ false
      → a.user ≡ none
      → check protected_route a at p
        ≡ moved (record {
          pathname = "/login";
          search = "";
          from = some (record { pathname = at.pathname; search = at.search });
        })
  unfolding check
  check-protected a at p l e = rw (l, e) refl

  pub found-In : (at : Location) (r : Route) → resolve matches at.pathname ≡ some r → In r routes
  unfolding resolve
  found-In at r e = find?-In (λ (x : Route). matches x.path at.pathname) routes r e

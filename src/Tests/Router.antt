-- ===== src/Tests/Router.antt =====
-- The router at concrete addresses, with a test of routes that compares paths.
use crag_project.Base.{ℕ, false, none, some, [], ◌∷◌, ◌≡◌, refl, inl, inr, str_eq}
use crag_project.Text.{Text}
use crag_project.Auth.{AuthState, mount, logout}
use crag_project.Auth
use crag_project.Api.Errors.{ok, failed, other_error}
use crag_project.Routing.{
  Location, Page, chat, protected_route, Route, plain, moved, visit, Shown, settle, page_at,
}
use crag_project.Routing.Guards.{IsStatic}
use crag_project.Routing.Settle.{IsAdmitted, settle-Lands}
use crag_project.Routing.Return.{login_for, asked}
use crag_project.Routing.Session.{settle-mount, visit-logout}
use crag_project.Tests.Data.{plain_user}

pub by_path : IsStatic str_eq
by_path = record {
  exact = λ q m. (
    refl,
    (
      refl,
      (
        refl,
        (
          refl,
          (
            refl,
            (
              refl,
              (refl, (refl, (refl, (refl, (refl, (refl, (refl, (refl, (refl, (refl, tt)))))))))),
            ),
          ),
        ),
      ),
    ),
  );
}

abbrev pub visitor : AuthState
visitor = record { user = none; loading = false }

abbrev pub member : AuthState
member = record { user = some plain_user; loading = false }

abbrev chat_route : Route
chat_route = record { path = "/chat"; guard = protected_route; page = chat }

settle-Lands_example :
    (s : Shown) × (settle str_eq 2 visitor (plain "/nowhere") ≡ some s) × IsAdmitted visitor s
settle-Lands_example = settle-Lands str_eq by_path visitor (plain "/nowhere")

abbrev same : ℕ → Text
same c = c ∷ []

settle-mount_example :
    (p : Page) × (l : Location) × (settle str_eq 2
        (mount (ok plain_user) Auth.initial)
        (plain "/login")
      ≡ some (page_at p l))
settle-mount_example = settle-mount str_eq by_path (ok plain_user) Auth.initial (plain "/login")

visit-logout_example :
    visit str_eq (logout (failed other_error) member).0 (asked "/chat" "")
    ≡ moved (login_for "/chat" "")
visit-logout_example =
    visit-logout str_eq by_path (failed other_error) member chat_route ""
      (inr (inr (inr (inr (inr (inr (inl refl))))))) refl refl

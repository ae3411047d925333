-- ===== src/Routing/Paths.antt =====
-- The paths that the pages link to, as routes of frontend/src/App.tsx, and what a visit to one shows.
use crag_project.Base.{String, Bool, false, some, ◌≡◌, refl, ap, ◌∙◌, inl, inr}
use mathlib.Core.Path.{subst}
use crag_project.Types.{User}
use crag_project.Auth.{AuthState}
use crag_project.Ui.Clicks.{In}
use crag_project.Routing.{
  Guard, protected_route, Route, routes, plain, check, settle, page_at, Page, dashboard, chat,
  documents, support, users, system, system_documents, system_conversations, system_messages,
  system_query_logs, profile,
}
use crag_project.Routing.Guards.{
  IsStatic, resolve-In, visit-resolved, settle-outlet, admitted-outlet,
}

-- The path of a route of the table with this guard.
pub record IsPath (guard : Guard) (to : String) : Type 0 where
  pub route : Route
  pub listed : In route routes
  pub same_path : route.path ≡ to
  pub guarded : route.guard ≡ guard

abbrev routed : String → Guard → Page → Route
routed path guard page = record { path = path; guard = guard; page = page }

pub dashboard-IsPath : IsPath protected_route "/dashboard"
dashboard-IsPath = record {
  route = routed "/dashboard" protected_route dashboard;
  listed = inr (inr (inr (inr (inr (inl refl)))));
  same_path = refl;
  guarded = refl;
}

pub chat-IsPath : IsPath protected_route "/chat"
chat-IsPath = record {
  route = routed "/chat" protected_route chat;
  listed = inr (inr (inr (inr (inr (inr (inl refl))))));
  same_path = refl;
  guarded = refl;
}

pub documents-IsPath : IsPath protected_route "/documents"
documents-IsPath = record {
  route = routed "/documents" protected_route documents;
  listed = inr (inr (inr (inr (inr (inr (inr (inl refl)))))));
  same_path = refl;
  guarded = refl;
}

pub support-IsPath : IsPath protected_route "/support"
support-IsPath = record {
  route = routed "/support" protected_route support;
  listed = inr (inr (inr (inr (inr (inr (inr (inr (inl refl))))))));
  same_path = refl;
  guarded = refl;
}

pub system-IsPath : IsPath protected_route "/system"
system-IsPath = record {
  route = routed "/system" protected_route system;
  listed = inr (inr (inr (inr (inr (inr (inr (inr (inr (inl refl)))))))));
  same_path = refl;
  guarded = refl;
}

pub system_documents-IsPath : IsPath protected_route "/system/documents"
system_documents-IsPath = record {
  route = routed "/system/documents" protected_route system_documents;
  listed = inr (inr (inr (inr (inr (inr (inr (inr (inr (inr (inl refl))))))))));
  same_path = refl;
  guarded = refl;
}

pub system_conversations-IsPath : IsPath protected_route "/system/conversations"
system_conversations-IsPath = record {
  route = routed "/system/conversations" protected_route system_conversations;
  listed = inr (inr (inr (inr (inr (inr (inr (inr (inr (inr (inr (inl refl)))))))))));
  same_path = refl;
  guarded = refl;
}

pub system_messages-IsPath : IsPath protected_route "/system/messages"
system_messages-IsPath = record {
  route = routed "/system/messages" protected_route system_messages;
  listed = inr (inr (inr (inr (inr (inr (inr (inr (inr (inr (inr (inr (inl refl))))))))))));
  same_path = refl;
  guarded = refl;
}

pub system_query_logs-IsPath : IsPath protected_route "/system/query-logs"
system_query_logs-IsPath = record {
  route = routed "/system/query-logs" protected_route system_query_logs;
  listed = inr (inr (inr (inr (inr (inr (inr (inr (inr (inr (inr (inr (inr (inl refl)))))))))))));
  same_path = refl;
  guarded = refl;
}

pub users-IsPath : IsPath protected_route "/users"
users-IsPath = record {
  route = routed "/users" protected_route users;
  listed =
      inr (inr (inr (inr (inr (inr (inr (inr (inr (inr (inr (inr (inr (inr (inl refl))))))))))))));
  same_path = refl;
  guarded = refl;
}

pub profile-IsPath : IsPath protected_route "/profile"
profile-IsPath = record {
  route = routed "/profile" protected_route profile;
  listed = inr (
      inr (inr (inr (inr (inr (inr (inr (inr (inr (inr (inr (inr (inr (inr (inl refl)))))))))))))));
  same_path = refl;
  guarded = refl;
}

pub ruleset protected_paths = (
  dashboard-IsPath, chat-IsPath, documents-IsPath, support-IsPath, system-IsPath,
  system_documents-IsPath, system_conversations-IsPath, system_messages-IsPath,
  system_query_logs-IsPath, users-IsPath, profile-IsPath,
)

module _ (matches : String → String → Bool) (static : IsStatic matches) where
  -- A signed-in user who follows a link to a protected page sees it at once.
  pub path-shown :
      (a : AuthState) (u : User) (to : String)
      → a.loading ≡ false
      → a.user ≡ some u
      → IsPath protected_route to
      → (p : Page) × (settle matches 1 a (plain to) ≡ some (page_at p (plain to)))
  path-shown a u to l e h =
      let r = h.route in
      (
        r.page,
        subst (λ path. settle matches 1 a (plain path) ≡ some (page_at r.page (plain path)))
            h.same_path
            (settle-outlet matches static 0 a (plain r.path) r.page (
              visit-resolved matches static a (plain r.path) r
                (resolve-In matches static r h.listed)
              ∙ ap (λ k. check k a (plain r.path) r.page) h.guarded
              ∙ admitted-outlet matches static protected_route a (plain r.path) r.page
                  (l, (u, e)))),
      )

-- ===== src/Dashboard/Admin.antt =====
-- frontend/src/pages/AdminDashboard.tsx: the start page of an administrator. The figures are those of
-- `System`, read under the same key.
use crag_project.Base.{
  String, Bool, false, Option, none, some, get_or, List, [], ◌∷◌, ◌++◌, all, head?, if◌then◌else◌,
}
use crag_project.Text.{Text, codes, is_empty, split}
use crag_project.Text.Decimal.{decimal}
use crag_project.Types.{User, SystemStats}
use crag_project.Ui.{Query, words, text, link, skeleton, each}
use crag_project.System.{
  View, users, documents, conversations, messages, query_logs, figure, StatCard, stat_card,
  is_ready, dependency_rows,
}

-- `user?.full_name?.split(' ')[0] || user?.email`
unfoldable pub greeted : Option User → Text
greeted none = []
greeted (some user) =
    let first = get_or (head? (split (codes " ") user.full_name)) [] in
    if is_empty first then user.email else first

-- `statCards` of this page
abbrev pub admin_cards : List StatCard
admin_cards =
    stat_card users "Users" "/users"
    ∷ stat_card documents "Documents" "/system"
    ∷ stat_card conversations "Conversations" "/system"
    ∷ stat_card messages "Messages" "/system"
    ∷ stat_card query_logs "Query logs" "/system"
    ∷ []

pub record QuickLink : Type 0 where
  pub to : String
  pub title : String
  pub description : String

abbrev quick_link : String → String → String → QuickLink
quick_link to title description = record { to = to; title = title; description = description }

-- `quickLinks`
abbrev pub quick_links : List QuickLink
quick_links =
    quick_link "/users" "User management" "Inspect accounts, ban or remove users"
    ∷ quick_link "/support" "Support inbox" "Respond to and resolve user tickets"
    ∷ quick_link "/system" "System status" "Platform statistics and dependency health"
    ∷ []

-- `allReady`
unfoldable pub all_ready : Option SystemStats → Bool
all_ready none = false
all_ready (some s) = all is_ready s.dependencies

unfoldable pub health_words : Query SystemStats → String
health_words q =
    if q.is_loading
    then "Checking platform health…"
    else if all_ready q.result
    then "All systems operational"
    else "Some dependencies are unhealthy"

unfoldable pub admin_card : Query SystemStats → StatCard → View
admin_card q c =
    link c.to c.label
    ∷ (if q.is_loading then skeleton 1 else text (decimal (figure q.result c.key)))
    ∷ []

unfoldable pub admin_view : Text → Option User → Query SystemStats → View
admin_view today user q =
    text today
    ∷ words "Admin console ·"
    ∷ text (greeted user)
    ∷ words (health_words q)
    ∷ link "/system" "Full status"
    ∷ (each (admin_card q) admin_cards
        ++ (words "Manage"
            ∷ (each (λ (l : QuickLink). link l.to l.title ∷ words l.description ∷ []) quick_links
                ++ (words "Dependencies"
                    ∷ ((if q.is_loading then skeleton 4 ∷ [] else dependency_rows q.result)
                        ++ words "Backing services powering the platform." ∷ [])))))

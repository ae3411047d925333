-- ===== src/System.antt =====
-- frontend/src/pages/System.tsx: the platform's figures, the health of what it stands on, and the
-- jobs. The pages that it leads to are in `System.Tables`.
pub mod Tables
pub mod Refusal
pub mod Links
use crag_project.Base.{
  ℕ, String, Bool, true, false, Option, none, some, get_or, List, [], ◌∷◌, ◌++◌, str_eq, ◌=?◌,
  if◌then◌else◌,
}
use crag_project.Text.{Text, codes}
use crag_project.Text.Decimal.{decimal}
use crag_project.Types.{SystemStats, DependencyStatus}
use crag_project.Api.Errors.{ApiError, error_status}
use crag_project.Ui.{
  Query, Variant, success, warning, destructive, Widget, words, text, badge, link, skeleton, each,
}

-- The events of a page without handlers.
pub data NoEvent : Type 0 where

-- What a page that only shows things shows.
abbrev pub View : Type 0
View = List (Widget NoEvent)

-- The keys of the figures.
pub data StatKey : Type 0 where
  users documents conversations messages query_logs : StatKey

-- `stats[key]`
unfoldable pub stat : SystemStats → StatKey → ℕ
stat s users = s.users
stat s documents = s.documents
stat s conversations = s.conversations
stat s messages = s.messages
stat s query_logs = s.query_logs

-- `stats?.[key] ?? 0`
unfoldable pub figure : Option SystemStats → StatKey → ℕ
figure none k = 0
figure (some s) k = stat s k

pub record StatCard : Type 0 where
  pub key : StatKey
  pub label : String
  pub to : String

abbrev pub stat_card : StatKey → String → String → StatCard
stat_card key label to = record { key = key; label = label; to = to }

-- `statCards`
abbrev pub stat_cards : List StatCard
stat_cards =
    stat_card users "Users" "/users"
    ∷ stat_card documents "Documents" "/system/documents"
    ∷ stat_card conversations "Conversations" "/system/conversations"
    ∷ stat_card messages "Messages" "/system/messages"
    ∷ stat_card query_logs "Query logs" "/system/query-logs"
    ∷ []

unfoldable pub card : Query SystemStats → StatCard → View
card q c =
    link c.to c.label
    ∷ (if q.is_loading then skeleton 1 else text (decimal (figure q.result c.key)))
    ∷ []

-- `const ready = dependency.status === 'ready'`
unfoldable pub is_ready : DependencyStatus → Bool
is_ready d = str_eq d.status "ready"

unfoldable pub dependency_badge : DependencyStatus → Widget NoEvent
dependency_badge d =
    badge (if is_ready d then success else destructive) (if is_ready d then "Ready" else d.status)

unfoldable pub dependency_row : DependencyStatus → View
dependency_row d = words d.name ∷ dependency_badge d ∷ []

-- `stats?.dependencies.map(…)`
unfoldable pub dependency_rows : Option SystemStats → View
dependency_rows none = []
dependency_rows (some s) = each dependency_row s.dependencies

unfoldable pub job_variant : String → Variant
job_variant status =
    if str_eq status "done"
    then success
    else if str_eq status "failed"
    then destructive
    else warning

unfoldable pub job_row : String × ℕ → View
job_row (status, count) = badge (job_variant status) status ∷ text (decimal count) ∷ []

-- `Object.entries(stats?.ingestion_jobs ?? {})`
unfoldable pub jobs_of : Option SystemStats → List (String × ℕ)
jobs_of none = []
jobs_of (some s) = s.ingestion_jobs

unfoldable pub job_rows : List (String × ℕ) → View
job_rows [] = words "No ingestion jobs have run yet." ∷ []
job_rows (j ∷ js) = each job_row (j ∷ js)

-- What is shown of a failed request.
unfoldable pub failed_view : ApiError → View
failed_view err =
    if error_status err =? 403
    then words "Admin"
      ∷ words "System"
      ∷ words "Administrator access required"
      ∷ words "Sign in with an admin account to view system status."
      ∷ []
    else words "System" ∷ words "Failed to load system status." ∷ []

unfoldable pub view : Query SystemStats → View
view q =
    if q.is_error
    then failed_view q.error
    else words "Admin"
      ∷ words "System"
      ∷ words "Platform statistics and dependency health at a glance."
      ∷ (each (card q) stat_cards
          ++ (words "Dependencies"
              ∷ words "Live health of the backing services."
              ∷ ((if q.is_loading then skeleton 4 ∷ [] else dependency_rows q.result)
                  ++ (words "Ingestion jobs"
                      ∷ words "Distribution of background job states."
                      ∷ (if q.is_loading then skeleton 3 ∷ [] else job_rows (jobs_of q.result))))))

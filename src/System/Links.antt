-- ===== src/System/Links.antt =====
-- Where the links of the pages for administrators lead: frontend/src/pages/System.tsx and the four tables.
use crag_project.Base.{ℕ, String, Bool, Option, none, some, List, [], ◌∷◌}
use crag_project.Text.{Text}
use crag_project.Types.{SystemStats, AdminDocument, AdminConversation, AdminMessage, AdminQueryLog}
use crag_project.Api.Errors.{ApiError}
use crag_project.Ui.{Query, each}
use crag_project.Ui.Links.{EveryLink, link_rules}
use crag_project.Routing.{protected_route}
use crag_project.Routing.Paths.{IsPath, protected_paths}
use crag_project.System.{
  View, StatCard, stat_cards, card, dependency_badge, dependency_row, dependency_rows, job_row,
  jobs_of, job_rows,
}
use crag_project.System
use crag_project.System.Tables.{
  Table, access_card, rows, table_view, web_cell, document_row, conversation_row, message_row,
  query_log_row, documents_view, conversations_view, messages_view, query_logs_view,
}
use crag_project.System.Tables

-- All links lead to protected pages.
abbrev pub IsGuarded : View → Type 0
IsGuarded ws = EveryLink (IsPath protected_route) ws

pub dependency_rows-links : (o : Option SystemStats) → IsGuarded (dependency_rows o)
unfolding dependency_rows dependency_row dependency_badge
dependency_rows-links none = search link_rules depth 2
dependency_rows-links (some s) = search link_rules depth 8

job_rows-links : (js : List (String × ℕ)) → IsGuarded (job_rows js)
unfolding job_rows job_row
job_rows-links [] = search link_rules depth 4
job_rows-links (j ∷ js) = search link_rules depth 10

cards-links : (q : Query SystemStats) → IsGuarded (each (card q) stat_cards)
unfolding card
cards-links q = search (link_rules, protected_paths) depth 30

failed_view-links : (err : ApiError) → IsGuarded (System.failed_view err)
unfolding System.failed_view
failed_view-links err = search link_rules depth 10

view-links : (q : Query SystemStats) → IsGuarded (System.view q)
unfolding System.view
view-links q =
    search (link_rules, failed_view-links, cards-links, dependency_rows-links, job_rows-links) depth
      20

web_cell-links : (b : Bool) → IsGuarded (web_cell b)
unfolding web_cell
web_cell-links b = search link_rules depth 6

table_failed-links : (t : Table) (err : ApiError) → IsGuarded (Tables.failed_view t err)
unfolding Tables.failed_view access_card
table_failed-links t err = search link_rules depth 10

module _ {A : Type 0} (t : Table) (row : A → View) (plain_rows : (x : A) → IsGuarded (row x)) where
  rows-links : (xs : List A) → IsGuarded (rows t row xs)
  unfolding rows
  rows-links [] = search link_rules depth 4
  rows-links (x ∷ xs) = search (link_rules, plain_rows) depth 10

  table_view-links : (q : Query (List A)) → IsGuarded (table_view t row q)
  unfolding table_view
  table_view-links q = search (link_rules, protected_paths, table_failed-links, rows-links) depth 20

document_row-links :
    (format_date : String → Text) (d : AdminDocument) → IsGuarded (document_row format_date d)
unfolding document_row
document_row-links format_date d = search link_rules depth 12

conversation_row-links :
    (format_date : String → Text) (c : AdminConversation)
    → IsGuarded (conversation_row format_date c)
unfolding conversation_row
conversation_row-links format_date c = search link_rules depth 12

module _ (format_date : String → Text) {Score : Type 0} (percent : Score → Text) where
  message_row-links : (m : AdminMessage Score) → IsGuarded (message_row format_date percent m)
  unfolding message_row
  message_row-links m = search (link_rules, web_cell-links) depth 12

  query_log_row-links :
      (seconds : ℕ → Text) (l : AdminQueryLog Score)
      → IsGuarded (query_log_row format_date percent seconds l)
  unfolding query_log_row
  query_log_row-links seconds l = search (link_rules, web_cell-links) depth 12

-- One of the five pages, with the answer that it shows.
pub data SystemPage (Score : Type 0) : Type 0 where
  overview : Query SystemStats → SystemPage Score
  documents_page : Query (List AdminDocument) → SystemPage Score
  conversations_page : Query (List AdminConversation) → SystemPage Score
  messages_page : Query (List (AdminMessage Score)) → SystemPage Score
  query_logs_page : Query (List (AdminQueryLog Score)) → SystemPage Score

module _ (format_date : String → Text) {Score : Type 0} (percent : Score → Text)
    (seconds : ℕ → Text) where
  abbrev pub shown : SystemPage Score → View
  shown (overview q) = System.view q
  shown (documents_page q) = documents_view format_date q
  shown (conversations_page q) = conversations_view format_date q
  shown (messages_page q) = messages_view format_date percent q
  shown (query_logs_page q) = query_logs_view format_date percent seconds q

  pub shown-links : (p : SystemPage Score) → IsGuarded (shown p)
  unfolding documents_view conversations_view messages_view query_logs_view
  shown-links (overview q) = view-links q
  shown-links (documents_page q) = table_view-links _ _ (document_row-links format_date) q
  shown-links (conversations_page q) = table_view-links _ _ (conversation_row-links format_date) q
  shown-links (messages_page q) = table_view-links _ _ (message_row-links format_date percent) q
  shown-links (query_logs_page q) =
      table_view-links _ _ (query_log_row-links format_date percent seconds) q

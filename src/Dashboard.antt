-- ===== src/Dashboard.antt =====
-- frontend/src/pages/Dashboard.tsx: the start page, of a user here and of an administrator in
-- `Dashboard.Admin`. `today` is the date as the browser writes it.
pub mod Admin
pub mod Health
pub mod Links
use crag_project.Base.{
  ℕ, String, Bool, true, false, ◌||◌, Option, none, some, get_or, List, [], ◌∷◌, ◌++◌, str_eq,
  filter, take, head?, length, if◌then◌else◌,
}
use crag_project.Text.{Text, codes, is_empty, split}
use crag_project.Text.Decimal.{decimal}
use crag_project.Types.{User, Conversation, DocumentRecord, SystemStats}
use crag_project.Ui.{
  Query, Variant, success, warning, destructive, outline, Widget, words, text, badge, link,
  skeleton, each,
}
use crag_project.System.{View}
use crag_project.Dashboard.Admin.{greeted, admin_view}

-- `statusVariant[status] ?? 'outline'`
unfoldable pub status_variant : String → Variant
status_variant status =
    if str_eq status "ready"
    then success
    else if str_eq status "pending"
    then warning
    else if str_eq status "queued"
    then warning
    else if str_eq status "running"
    then warning
    else if str_eq status "failed"
    then destructive
    else outline

unfoldable pub is_ready : DocumentRecord → Bool
is_ready d = str_eq d.status "ready"

-- An entry of `stats`.
pub record Stat : Type 0 where
  pub label : String
  pub value : ℕ
  pub to : String

-- The libraries' state at one rendering.
pub record Snapshot : Type 0 where
  pub documents : Query (List DocumentRecord)
  pub conversations : Query (List Conversation)

unfoldable pub stats : Snapshot → List Stat
stats q =
    let docs = get_or q.documents.result [] in
    record { label = "Documents"; value = length docs; to = "/documents" }
    ∷ record {
      label = "Conversations";
      value = length (get_or q.conversations.result []);
      to = "/chat";
    }
    ∷ record {
      label = "Documents ready to query";
      value = length (filter is_ready docs);
      to = "/documents";
    }
    ∷ []

-- `documents.data?.slice(0, 5) ?? []`
unfoldable pub recent : Snapshot → List DocumentRecord
recent q = take 5 (get_or q.documents.result [])

module _ (format_date : String → Text) (today : Text) where
  unfoldable pub stat_card : Bool → Stat → View
  stat_card loading s =
      link s.to s.label ∷ (if loading then skeleton 1 else text (decimal s.value)) ∷ []

  unfoldable pub recent_row : DocumentRecord → View
  recent_row d =
      words d.file_name
      ∷ text (format_date d.created_at)
      ∷ badge (status_variant d.status) d.status
      ∷ []

  unfoldable pub recent_rows : List DocumentRecord → View
  recent_rows [] =
      words "No documents yet"
      ∷ words "Upload your first file to start asking questions."
      ∷ link "/documents" "Upload a document"
      ∷ []
  recent_rows (d ∷ ds) = each recent_row (d ∷ ds)

  -- `UserDashboard`
  unfoldable pub user_view : Option User → Snapshot → View
  user_view user q =
      text today
      ∷ words "Welcome back,"
      ∷ text (greeted user)
      ∷ link "/documents" "Upload"
      ∷ link "/chat" "Ask a question"
      ∷ (each (stat_card (q.documents.is_loading || q.conversations.is_loading)) (stats q)
          ++ (words "Quick actions"
              ∷ link "/documents" "Upload a document"
              ∷ words "Add PDFs, text, or markdown to your knowledge base"
              ∷ link "/chat" "Start a conversation"
              ∷ words "Ask anything about your indexed documents"
              ∷ words "Recent documents"
              ∷ (if q.documents.is_loading then skeleton 3 ∷ [] else recent_rows (recent q))))

  -- `user?.role === 'admin'`
  unfoldable pub is_admin : Option User → Bool
  is_admin none = false
  is_admin (some user) = str_eq user.role "admin"

  -- `Dashboard`
  unfoldable pub view : Option User → Query SystemStats → Snapshot → View
  view user system q = if is_admin user then admin_view today user system else user_view user q

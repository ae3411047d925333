-- ===== src/System/Tables.antt =====
-- The four tables for administrators: frontend/src/pages/SystemDocuments.tsx,
-- SystemConversations.tsx, SystemMessages.tsx and SystemQueryLogs.tsx, which share one shape. `percent` stands
-- for `(score * 100).toFixed(0)`, `seconds` for `(ms / 1000).toFixed(2)`.
use crag_project.Base.{
  ℕ, String, Bool, Option, none, some, get_or, List, [], ◌∷◌, ◌++◌, str_eq, ltb, length, ◌=?◌,
  if◌then◌else◌,
}
use crag_project.Text.{Text, codes}
use crag_project.Text.Decimal.{decimal}
use crag_project.Types.{
  AdminDocument, AdminConversation, AdminMessage, AdminQueryLog, MessageRole, user, assistant,
}
use crag_project.Api.Errors.{ApiError, error_status}
use crag_project.Format.{format_bytes}
use crag_project.Ui.{
  Query, Variant, default, secondary, outline, success, warning, destructive, words, text, badge,
  link, skeleton, each,
}
use crag_project.System.{View}
use Prim.Native.String

-- `AdminAccessCard`
unfoldable pub access_card : String → View
access_card resource =
    words "Administrator access required"
    ∷ words (String.◌++◌ "Sign in with an admin account to view " (String.◌++◌ resource "."))
    ∷ []

-- What tells one table from another: the resource, the titles, the words of the count, the heads of
-- the columns, and what is shown of an empty table.
pub record Table : Type 0 where
  pub resource : String
  pub title : String
  pub about : String
  pub card_title : String
  pub counted : String
  pub heads : List String
  pub empty : String

-- What is shown of a failed request.
unfoldable pub failed_view : Table → ApiError → View
failed_view t err =
    words "Admin"
    ∷ words t.title
    ∷ (if error_status err =? 403
        then access_card t.resource
        else words (String.◌++◌ "Failed to load " (String.◌++◌ t.resource ".")) ∷ [])

module _ {A : Type 0} (t : Table) (row : A → View) where
  unfoldable pub rows : List A → View
  rows [] = words t.empty ∷ []
  rows (x ∷ xs) = each (λ (h : String). words h ∷ []) t.heads ++ each row (x ∷ xs)

  -- `items`
  abbrev pub items : Query (List A) → List A
  items q = get_or q.result []

  unfoldable pub table_view : Query (List A) → View
  table_view q =
      if q.is_error
      then failed_view t q.error
      else link "/system" "Back to System"
        ∷ words "Admin"
        ∷ words t.title
        ∷ words t.about
        ∷ words t.card_title
        ∷ text (decimal (length (items q)) ++ codes t.counted)
        ∷ (if q.is_loading then skeleton 4 ∷ [] else rows (items q))

-- `statusMeta` of SystemDocuments.tsx, with its default
unfoldable pub status_meta : String → String × Variant
status_meta status =
    if str_eq status "ready"
    then ("Ready", success)
    else if str_eq status "pending"
    then ("Pending", warning)
    else if str_eq status "queued"
    then ("Queued", warning)
    else if str_eq status "running"
    then ("Indexing", warning)
    else if str_eq status "failed"
    then ("Failed", destructive)
    else if str_eq status "deleted"
    then ("Deleted", outline)
    else (status, secondary)

abbrev pub documents_table : Table
documents_table = record {
  resource = "documents";
  title = "Documents";
  about = "Every upload on the platform and its owner.";
  card_title = "All documents";
  counted = " uploaded files.";
  heads = "File" ∷ "Owner" ∷ "Type" ∷ "Size" ∷ "Status" ∷ "Uploaded" ∷ [];
  empty = "No documents have been uploaded yet.";
}

abbrev pub conversations_table : Table
conversations_table = record {
  resource = "conversations";
  title = "Conversations";
  about = "Every chat thread across the platform and its owner.";
  card_title = "All conversations";
  counted = " chat threads.";
  heads = "Title" ∷ "Owner" ∷ "Messages" ∷ "Last activity" ∷ [];
  empty = "No conversations have been started yet.";
}

abbrev pub messages_table : Table
messages_table = record {
  resource = "messages";
  title = "Messages";
  about = "Every message exchanged across all chats.";
  card_title = "All messages";
  counted = " messages total.";
  heads = "Sent" ∷ "User" ∷ "Conversation" ∷ "Role" ∷ "Content" ∷ "Confidence" ∷ "Web" ∷ [];
  empty = "No messages have been exchanged yet.";
}

abbrev pub query_logs_table : Table
query_logs_table = record {
  resource = "query logs";
  title = "Query logs";
  about = "Every question asked, the answer given, and how it performed.";
  card_title = "All queries";
  counted = " logged queries.";
  heads =
      "Time" ∷ "User" ∷ "Question" ∷ "Answer" ∷ "Confidence" ∷ "Web" ∷ "Retries" ∷ "Latency" ∷ [];
  empty = "No queries have been logged yet.";
}

-- `title || 'New conversation'`
unfoldable pub title_or : String → String
title_or title = if str_eq title "" then "New conversation" else title

-- `<Badge>Web</Badge>` or a dash
unfoldable pub web_cell : Bool → View
web_cell used = if used then badge success "Web" ∷ [] else words "—" ∷ []

unfoldable pub scope_of : Option String → String
scope_of none = "General chat"
scope_of (some id) = if str_eq id "" then "General chat" else String.◌++◌ "Document " id

-- `formatConfidence`
unfoldable pub format_confidence : {Score : Type 0} → (Score → Text) → Option Score → Text
format_confidence percent none = codes "—"
format_confidence percent (some score) = percent score ++ codes "%"

-- `formatLatency`
unfoldable pub format_latency : (ℕ → Text) → ℕ → Text
format_latency seconds ms =
    if ltb ms 1000 then decimal ms ++ codes " ms" else seconds ms ++ codes " s"

unfoldable pub role_name : MessageRole → String
role_name user = "user"
role_name assistant = "assistant"

unfoldable pub role_variant : MessageRole → Variant
role_variant user = secondary
role_variant assistant = default

module _ (format_date : String → Text) where
  unfoldable pub document_row : AdminDocument → View
  document_row d =
      let (label, variant) = status_meta d.status in
      words d.file_name
      ∷ words d.id
      ∷ text d.owner_email
      ∷ words d.content_type
      ∷ text (format_bytes d.size_bytes)
      ∷ badge variant label
      ∷ text (format_date d.created_at)
      ∷ []

  unfoldable pub conversation_row : AdminConversation → View
  conversation_row c =
      words (title_or c.title)
      ∷ words (scope_of c.document_id)
      ∷ text c.owner_email
      ∷ text (decimal c.message_count)
      ∷ text (format_date c.updated_at)
      ∷ []

  module _ {Score : Type 0} (percent : Score → Text) where
    unfoldable pub message_row : AdminMessage Score → View
    message_row m =
        text (format_date m.created_at)
        ∷ text m.owner_email
        ∷ words (title_or m.conversation_title)
        ∷ text (b'#' ∷ decimal m.conversation_id)
        ∷ badge (role_variant m.role) (role_name m.role)
        ∷ text m.content
        ∷ text (format_confidence percent m.confidence_score)
        ∷ web_cell m.web_search_used

    unfoldable pub query_log_row : (ℕ → Text) → AdminQueryLog Score → View
    query_log_row seconds l =
        text (format_date l.created_at)
        ∷ text l.owner_email
        ∷ text l.query
        ∷ text l.answer
        ∷ text (percent l.confidence_score ++ codes "%")
        ∷ (web_cell l.web_search_used
            ++ text (decimal l.retry_count) ∷ text (format_latency seconds l.latency_ms) ∷ [])

    unfoldable pub messages_view : Query (List (AdminMessage Score)) → View
    messages_view q = table_view messages_table message_row q

    unfoldable pub query_logs_view : (ℕ → Text) → Query (List (AdminQueryLog Score)) → View
    query_logs_view seconds q = table_view query_logs_table (query_log_row seconds) q

  unfoldable pub documents_view : Query (List AdminDocument) → View
  documents_view q = table_view documents_table document_row q

  unfoldable pub conversations_view : Query (List AdminConversation) → View
  conversations_view q = table_view conversations_table conversation_row q

-- ===== src/Queries/Keys.antt =====
-- Which calls of `useQuery` share an entry of React Query's cache.
use crag_project.Base.{
  Bool, true, false, Option, none, some, List, [], ◌∷◌, ◌++◌, ◌≡◌, refl, sym, ap, ◌∙◌, str_eq,
  if◌then◌else◌,
}
use crag_project.Text.{Text, codes}
use crag_project.Text.Decimal.{decimal}
use crag_project.Types.{
  DocumentRecord, DocumentContent, Conversation, Message, ModelsInfo, SystemStats, AdminDocument,
  AdminConversation, AdminMessage, AdminQueryLog,
}
use crag_project.Users.{AdminUserRow, AdminUserDetail}
use crag_project.Support.{SupportThread}
use crag_project.Ui.{QueryKey, KeyPart, str, num, bool, null}
use crag_project.Queries.{
  QueryUse, documents_list, dashboard_documents, pinned_document, document_content,
  chat_conversations, dashboard_conversations, chat_messages, chat_models, documents_models,
  system_stats, dashboard_stats, system_documents, system_conversations, system_messages,
  system_query_logs, users_list, user_detail, support_threads, query, key, path, Data,
}

-- A part of a key as a template literal shows it.
shown : KeyPart → Text
shown (str s) = codes s
shown (num n) = decimal n
shown (bool b) = []
shown null = codes "null"

is_true : KeyPart → Bool
is_true (bool b) = b
is_true _ = false

-- The path that belongs to a key, from the key alone.
path_of : QueryKey → Text
path_of (str a ∷ []) =
    if str_eq a "documents"
    then codes "/documents"
    else if str_eq a "conversations"
    then codes "/conversations"
    else if str_eq a "models-info"
    then codes "/info/models"
    else if str_eq a "system"
    then codes "/admin/system"
    else if str_eq a "admin-documents"
    then codes "/admin/documents"
    else if str_eq a "admin-conversations"
    then codes "/admin/conversations"
    else if str_eq a "admin-messages"
    then codes "/admin/messages"
    else if str_eq a "admin-query-logs"
    then codes "/admin/query-logs"
    else codes "/admin/users"
path_of (str a ∷ p ∷ []) =
    if str_eq a "documents"
    then codes "/documents/" ++ shown p
    else if str_eq a "messages"
    then codes "/conversations/" ++ (shown p ++ codes "/messages")
    else codes "/admin/users/" ++ shown p
path_of (str a ∷ p ∷ r ∷ []) =
    if str_eq a "documents"
    then codes "/documents/" ++ (shown p ++ codes "/content")
    else if is_true p
    then codes "/support/admin/threads?status=" ++ shown r
    else codes "/support/mine"
path_of _ = []

module _ (Score Unknown : Type 0) where
  -- The type that belongs to a key.
  DataOf : QueryKey → Type 0
  DataOf (str a ∷ []) =
      if str_eq a "documents"
      then List DocumentRecord
      else if str_eq a "conversations"
      then List Conversation
      else if str_eq a "models-info"
      then ModelsInfo
      else if str_eq a "system"
      then SystemStats
      else if str_eq a "admin-documents"
      then List AdminDocument
      else if str_eq a "admin-conversations"
      then List AdminConversation
      else if str_eq a "admin-messages"
      then List (AdminMessage Score)
      else if str_eq a "admin-query-logs"
      then List (AdminQueryLog Score)
      else List AdminUserRow
  DataOf (str a ∷ p ∷ []) =
      if str_eq a "documents"
      then Option DocumentRecord
      else if str_eq a "messages"
      then List (Message Score Unknown)
      else AdminUserDetail
  DataOf (str a ∷ p ∷ r ∷ []) = if str_eq a "documents" then DocumentContent else List SupportThread
  DataOf _ = Unit

  path-eq-path_of : (u : QueryUse) → path Score Unknown u ≡ path_of (key Score Unknown u)
  unfolding query path_of shown is_true
  path-eq-path_of documents_list = refl
  path-eq-path_of dashboard_documents = refl
  path-eq-path_of chat_conversations = refl
  path-eq-path_of dashboard_conversations = refl
  path-eq-path_of chat_models = refl
  path-eq-path_of documents_models = refl
  path-eq-path_of system_stats = refl
  path-eq-path_of dashboard_stats = refl
  path-eq-path_of system_documents = refl
  path-eq-path_of system_conversations = refl
  path-eq-path_of system_messages = refl
  path-eq-path_of system_query_logs = refl
  path-eq-path_of users_list = refl
  path-eq-path_of (pinned_document none) = refl
  path-eq-path_of (document_content d none) = refl
  path-eq-path_of (chat_messages none) = refl
  path-eq-path_of (user_detail none) = refl
  path-eq-path_of (pinned_document (some x)) = refl
  path-eq-path_of (document_content d (some x)) = refl
  path-eq-path_of (chat_messages (some x)) = refl
  path-eq-path_of (user_detail (some x)) = refl
  path-eq-path_of (support_threads true s) = refl
  path-eq-path_of (support_threads false s) = refl

  Data-eq-DataOf : (u : QueryUse) → Data Score Unknown u ≡ DataOf (key Score Unknown u)
  unfolding Data DataOf query
  Data-eq-DataOf documents_list = refl
  Data-eq-DataOf dashboard_documents = refl
  Data-eq-DataOf chat_conversations = refl
  Data-eq-DataOf dashboard_conversations = refl
  Data-eq-DataOf chat_models = refl
  Data-eq-DataOf documents_models = refl
  Data-eq-DataOf system_stats = refl
  Data-eq-DataOf dashboard_stats = refl
  Data-eq-DataOf system_documents = refl
  Data-eq-DataOf system_conversations = refl
  Data-eq-DataOf system_messages = refl
  Data-eq-DataOf system_query_logs = refl
  Data-eq-DataOf users_list = refl
  Data-eq-DataOf (pinned_document none) = refl
  Data-eq-DataOf (document_content d none) = refl
  Data-eq-DataOf (chat_messages none) = refl
  Data-eq-DataOf (user_detail none) = refl
  Data-eq-DataOf (pinned_document (some x)) = refl
  Data-eq-DataOf (document_content d (some x)) = refl
  Data-eq-DataOf (chat_messages (some x)) = refl
  Data-eq-DataOf (user_detail (some x)) = refl
  Data-eq-DataOf (support_threads admin s) = refl

  -- Two calls of `useQuery`, of whatever pages, that share an entry of the cache read the same path of
  -- the API and take what is cached for the same type of data.
  pub same_key :
      (u v : QueryUse)
      → key Score Unknown u ≡ key Score Unknown v
      → (path Score Unknown u ≡ path Score Unknown v)
        × (Data Score Unknown u ≡ Data Score Unknown v)
  same_key u v h = (
    path-eq-path_of u ∙ (ap path_of h ∙ sym (path-eq-path_of v)),
    Data-eq-DataOf u ∙ (ap DataOf h ∙ sym (Data-eq-DataOf v)),
  )

-- ===== src/Queries.antt =====
-- The calls of `useQuery` in frontend/src/pages: the key under which React Query keeps the answer,
-- the path that `queryFn` reads below the API's base, the type of what it returns, and whether the
-- query is enabled. An `undefined` or `null` id is `none`.
pub mod Keys
pub mod Refresh
use crag_project.Base.{
  ℕ, String, Bool, true, false, ◌&&◌, Option, none, some, is_some, List, [], ◌∷◌, ◌++◌, str_eq,
}
use crag_project.Text.{Text, codes}
use crag_project.Text.Decimal.{decimal}
use crag_project.Types.{
  DocumentRecord, DocumentContent, Conversation, Message, ModelsInfo, SystemStats, AdminDocument,
  AdminConversation, AdminMessage, AdminQueryLog,
}
use crag_project.Users.{AdminUserRow, AdminUserDetail}
use crag_project.Support.{TicketStatus, SupportThread, query_key, threads_path}
use crag_project.Chat.{truthy}
use crag_project.Ui.{QueryKey, KeyPart, str, num, null}

-- A call of `useQuery`, by the type of what it gives.
pub record UseQuery (Data : Type 0) : Type 0 where
  pub key : QueryKey
  -- below the API's base
  pub path : Text
  pub enabled : Bool

abbrev always : {Data : Type 0} → QueryKey → Text → UseQuery Data
always key path = record { key = key; path = path; enabled = true }

abbrev pub string_part : Option String → KeyPart
string_part none = null
string_part (some s) = str s

abbrev pub id_part : Option ℕ → KeyPart
id_part none = null
id_part (some n) = num n

-- `${x}` for an `x` that may be null
abbrev pub shown_string : Option String → Text
shown_string none = codes "null"
shown_string (some s) = codes s

abbrev pub shown_id : Option ℕ → Text
shown_id none = codes "null"
shown_id (some n) = decimal n

-- `useConversations` of Chat.tsx
unfoldable pub use_conversations : UseQuery (List Conversation)
use_conversations = always (str "conversations" ∷ []) (codes "/conversations")

-- `useMessages` of Chat.tsx
unfoldable pub use_messages :
    {Score Unknown : Type 0} → Option ℕ → UseQuery (List (Message Score Unknown))
use_messages id = record {
  key = str "messages" ∷ id_part id ∷ [];
  path = codes "/conversations/" ++ (shown_id id ++ codes "/messages");
  enabled = is_some id;
}

-- `pinnedDocument`
unfoldable pub use_pinned : Option String → UseQuery (Option DocumentRecord)
use_pinned param = record {
  key = str "documents" ∷ string_part param ∷ [];
  path = codes "/documents/" ++ shown_string param;
  enabled = truthy param;
}

-- `pinnedDocument.data?.status === 'ready'`
unfoldable pub is_readable : Option DocumentRecord → Bool
is_readable none = false
is_readable (some d) = str_eq d.status "ready"

-- `documentContent`
unfoldable pub use_content : Option DocumentRecord → Option String → UseQuery DocumentContent
use_content pinned param = record {
  key = str "documents" ∷ string_part param ∷ str "content" ∷ [];
  path = codes "/documents/" ++ (shown_string param ++ codes "/content");
  enabled = truthy param && is_readable pinned;
}

-- `modelsInfo` of Chat.tsx
unfoldable pub use_chat_models : UseQuery ModelsInfo
use_chat_models = always (str "models-info" ∷ []) (codes "/info/models")

-- `documents` and `modelsInfo` of Documents.tsx
unfoldable pub use_documents : UseQuery (List DocumentRecord)
use_documents = always (str "documents" ∷ []) (codes "/documents")

unfoldable pub use_document_models : UseQuery ModelsInfo
use_document_models = always (str "models-info" ∷ []) (codes "/info/models")

-- `documents` and `conversations` of Dashboard.tsx
unfoldable pub use_own_documents : UseQuery (List DocumentRecord)
use_own_documents = always (str "documents" ∷ []) (codes "/documents")

unfoldable pub use_own_conversations : UseQuery (List Conversation)
use_own_conversations = always (str "conversations" ∷ []) (codes "/conversations")

-- `system` of System.tsx and of AdminDashboard.tsx
unfoldable pub use_system : UseQuery SystemStats
use_system = always (str "system" ∷ []) (codes "/admin/system")

unfoldable pub use_dashboard_system : UseQuery SystemStats
use_dashboard_system = always (str "system" ∷ []) (codes "/admin/system")

-- The queries of the four tables.
unfoldable pub use_admin_documents : UseQuery (List AdminDocument)
use_admin_documents = always (str "admin-documents" ∷ []) (codes "/admin/documents")

unfoldable pub use_admin_conversations : UseQuery (List AdminConversation)
use_admin_conversations = always (str "admin-conversations" ∷ []) (codes "/admin/conversations")

unfoldable pub use_admin_messages : {Score : Type 0} → UseQuery (List (AdminMessage Score))
use_admin_messages = always (str "admin-messages" ∷ []) (codes "/admin/messages")

unfoldable pub use_query_logs : {Score : Type 0} → UseQuery (List (AdminQueryLog Score))
use_query_logs = always (str "admin-query-logs" ∷ []) (codes "/admin/query-logs")

-- `usersQuery` and `detailQuery` of Users.tsx
unfoldable pub use_users : UseQuery (List AdminUserRow)
use_users = always (str "admin-users" ∷ []) (codes "/admin/users")

unfoldable pub use_user_detail : Option ℕ → UseQuery AdminUserDetail
use_user_detail id = record {
  key = str "admin-user-detail" ∷ id_part id ∷ [];
  path = codes "/admin/users/" ++ shown_id id;
  enabled = is_some id;
}

-- `threadsQuery` of Support.tsx
unfoldable pub use_threads : Bool → TicketStatus → UseQuery (List SupportThread)
use_threads admin filter = always (query_key admin filter) (threads_path admin filter)

-- All calls of the pages.
pub data QueryUse : Type 0 where
  documents_list dashboard_documents : QueryUse
  pinned_document : Option String → QueryUse
  document_content : Option DocumentRecord → Option String → QueryUse
  chat_conversations dashboard_conversations : QueryUse
  chat_messages : Option ℕ → QueryUse
  chat_models documents_models : QueryUse
  system_stats dashboard_stats : QueryUse
  system_documents system_conversations system_messages system_query_logs : QueryUse
  users_list : QueryUse
  user_detail : Option ℕ → QueryUse
  support_threads : Bool → TicketStatus → QueryUse

-- What a call gives.
unfoldable pub Data : Type 0 → Type 0 → QueryUse → Type 0
Data Score Unknown documents_list = List DocumentRecord
Data Score Unknown dashboard_documents = List DocumentRecord
Data Score Unknown (pinned_document param) = Option DocumentRecord
Data Score Unknown (document_content pinned param) = DocumentContent
Data Score Unknown chat_conversations = List Conversation
Data Score Unknown dashboard_conversations = List Conversation
Data Score Unknown (chat_messages id) = List (Message Score Unknown)
Data Score Unknown chat_models = ModelsInfo
Data Score Unknown documents_models = ModelsInfo
Data Score Unknown system_stats = SystemStats
Data Score Unknown dashboard_stats = SystemStats
Data Score Unknown system_documents = List AdminDocument
Data Score Unknown system_conversations = List AdminConversation
Data Score Unknown system_messages = List (AdminMessage Score)
Data Score Unknown system_query_logs = List (AdminQueryLog Score)
Data Score Unknown users_list = List AdminUserRow
Data Score Unknown (user_detail id) = AdminUserDetail
Data Score Unknown (support_threads admin filter) = List SupportThread

module _ (Score Unknown : Type 0) where
  unfoldable pub query : (u : QueryUse) → UseQuery (Data Score Unknown u)
  unfolding Data use_conversations use_messages use_pinned use_content use_chat_models use_documents
      use_document_models use_own_documents use_own_conversations use_system use_dashboard_system
      use_admin_documents use_admin_conversations use_admin_messages use_query_logs use_users
      use_user_detail use_threads query_key threads_path
  query documents_list = use_documents
  query dashboard_documents = use_own_documents
  query (pinned_document param) = use_pinned param
  query (document_content pinned param) = use_content pinned param
  query chat_conversations = use_conversations
  query dashboard_conversations = use_own_conversations
  query (chat_messages id) = use_messages id
  query chat_models = use_chat_models
  query documents_models = use_document_models
  query system_stats = use_system
  query dashboard_stats = use_dashboard_system
  query system_documents = use_admin_documents
  query system_conversations = use_admin_conversations
  query system_messages = use_admin_messages
  query system_query_logs = use_query_logs
  query users_list = use_users
  query (user_detail id) = use_user_detail id
  query (support_threads admin filter) = use_threads admin filter

  abbrev pub key : QueryUse → QueryKey
  key u = (query u).key

  abbrev pub path : QueryUse → Text
  path u = (query u).path

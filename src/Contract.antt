-- ===== src/Contract.antt =====
-- The client against the server's declarations: the calls of frontend/src whose answers it reads, and what it
-- takes those to be (the type argument of `api.get<…>` and `api.post<…>`).
pub mod Paths
pub mod Answers
pub mod Unpromised
pub mod Requests
pub mod Guards
pub mod Csrf
pub mod Tickets
use crag_project.Base.{
  String, Bool, true, false, Option, none, some, List, [], ◌∷◌, str_eq, if◌then◌else◌,
}
use crag_project.Text.{Text, codes}
use crag_project.Api.Shapes.{
  Shape, anything, scalar, one_of, nullable, list, dict, object, Fields, closed, field, optional,
  object_of, ◌is◌, text,
}
use crag_project.Api.Shapes.Client.{
  user_record, document_record, conversation, message, document_content, models_info, system_stats,
  admin_document, admin_conversation, admin_message, admin_query_log, admin_user_row,
  admin_user_detail, support_thread,
}
use crag_project.Queries.{
  QueryUse, documents_list, dashboard_documents, pinned_document, document_content as content_use,
  chat_conversations, dashboard_conversations, chat_messages, chat_models, documents_models,
  system_stats as stats_use, dashboard_stats, system_documents, system_conversations,
  system_messages, system_query_logs, users_list, user_detail, support_threads, path,
}
use crag_project.Server.Schemas.{
  document_list_response, document_response, document_content_response, conversation_list_response,
  message_list_response, models_info_response, support_thread_list_response, csrf_response,
  user_response, conversation_response,
}
use crag_project.Server.Schemas.Admin.{
  system_stats as served_stats, admin_documents_response, admin_conversations_response,
  admin_messages_response, admin_query_logs_response, admin_users_response,
  admin_user_detail_response,
}
use crag_project.Server.Routes.{dispatch}
use crag_project.Server.Routes.Answers.{answer}

pub data Call : Type 0 where
  -- a query of a page
  reads : QueryUse → Call
  -- lib/api.ts
  fetches_csrf : Call
  -- context/AuthContext.tsx
  loads_user logs_in registers : Call
  -- pages/Chat.tsx, pages/Documents.tsx
  creates_conversation uploads : Call

abbrev pub call_method : Call → String
call_method (reads u) = "GET"
call_method fetches_csrf = "GET"
call_method loads_user = "GET"
call_method logs_in = "POST"
call_method registers = "POST"
call_method creates_conversation = "POST"
call_method uploads = "POST"

abbrev pub call_path : (Score Unknown : Type 0) → Call → Text
call_path Score Unknown (reads u) = path Score Unknown u
call_path Score Unknown fetches_csrf = codes "/auth/csrf"
call_path Score Unknown loads_user = codes "/auth/me"
call_path Score Unknown logs_in = codes "/auth/login"
call_path Score Unknown registers = codes "/auth/register"
call_path Score Unknown creates_conversation = codes "/conversations"
call_path Score Unknown uploads = codes "/documents/upload"

-- `{ items: T[] }`
abbrev items : Shape → Shape
items s = object_of ("items" is (list s) ∷ [])

abbrev pub expected_by : QueryUse → Shape
expected_by documents_list = items document_record
expected_by dashboard_documents = items document_record
expected_by (pinned_document param) = document_record
expected_by (content_use pinned param) = document_content
expected_by chat_conversations = items conversation
expected_by dashboard_conversations = items conversation
expected_by (chat_messages id) = items message
expected_by chat_models = models_info
expected_by documents_models = models_info
expected_by stats_use = system_stats
expected_by dashboard_stats = system_stats
expected_by system_documents = items admin_document
expected_by system_conversations = items admin_conversation
expected_by system_messages = items admin_message
expected_by system_query_logs = items admin_query_log
expected_by users_list = items admin_user_row
expected_by (user_detail id) = admin_user_detail
expected_by (support_threads admin status) = items support_thread

abbrev pub expected : Call → Shape
expected (reads u) = expected_by u
expected fetches_csrf = object_of ("csrf_token" is text ∷ [])
expected loads_user = user_record
expected logs_in = user_record
expected registers = user_record
expected creates_conversation = conversation
expected uploads = document_record

-- The shape that the server declares for the answer to a request.
unfoldable pub declared : String → Text → Option Shape
unfolding dispatch
declared m t = elim (dispatch m t) [ none ↦ none | some h ↦ answer h ]

-- The same by call.
abbrev pub served : Call → Shape
served (reads documents_list) = document_list_response
served (reads dashboard_documents) = document_list_response
served (reads (pinned_document param)) = document_response
served (reads (content_use pinned param)) = document_content_response
served (reads chat_conversations) = conversation_list_response
served (reads dashboard_conversations) = conversation_list_response
served (reads (chat_messages id)) = message_list_response
served (reads chat_models) = models_info_response
served (reads documents_models) = models_info_response
served (reads stats_use) = served_stats
served (reads dashboard_stats) = served_stats
served (reads system_documents) = admin_documents_response
served (reads system_conversations) = admin_conversations_response
served (reads system_messages) = admin_messages_response
served (reads system_query_logs) = admin_query_logs_response
served (reads users_list) = admin_users_response
served (reads (user_detail id)) = admin_user_detail_response
served (reads (support_threads admin status)) = support_thread_list_response
served fetches_csrf = csrf_response
served loads_user = user_response
served logs_in = user_response
served registers = user_response
served creates_conversation = conversation_response
served uploads = document_response

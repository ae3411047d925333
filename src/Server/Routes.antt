-- ===== src/Server/Routes.antt =====
-- The routes of src/api/routers, in the order in which v1.py includes the routers and each router declares
-- its own, below the prefix `/api/v1`.
pub mod Matching
pub mod Answers
use crag_project.Base.{
  String, Bool, true, false, not, ◌&&◌, Option, none, some, List, [], ◌∷◌, ◌++◌, str_eq,
  if◌then◌else◌,
}
use crag_project.Text.{Text, codes, text_eq, is_empty}
use crag_project.Text.Split.{split_at}

pub data Handler : Type 0 where
  -- auth.py
  get_csrf_token register login logout me forgot_password reset_password : Handler
  -- info.py
  get_models_info : Handler
  -- documents.py
  upload_document list_documents get_document get_document_content delete_document : Handler
  -- conversations.py
  create_conversation list_conversations get_conversation update_conversation delete_conversation
        list_messages send_message send_message_stream :
      Handler
  -- support.py
  create_thread my_threads all_threads update_status get_thread reply_to_thread : Handler
  -- admin.py
  admin_users admin_user_detail admin_set_user_status admin_delete_user admin_documents
        admin_ingestions admin_conversations admin_messages admin_query_logs admin_system :
      Handler

-- A part of a path template between slashes: written out, or a parameter.
pub data Piece : Type 0 where
  exactly : String → Piece
  hole : Piece

pub record Route : Type 0 where
  pub method : String
  pub template : List Piece
  pub handler : Handler

abbrev on : String → List Piece → Handler → Route
on m t h = record { method = m; template = t; handler = h }

abbrev pub auth_routes : List Route
auth_routes =
    on "GET" (exactly "auth" ∷ exactly "csrf" ∷ []) get_csrf_token
    ∷ on "POST" (exactly "auth" ∷ exactly "register" ∷ []) register
    ∷ on "POST" (exactly "auth" ∷ exactly "login" ∷ []) login
    ∷ on "POST" (exactly "auth" ∷ exactly "logout" ∷ []) logout
    ∷ on "GET" (exactly "auth" ∷ exactly "me" ∷ []) me
    ∷ on "POST" (exactly "auth" ∷ exactly "forgot-password" ∷ []) forgot_password
    ∷ on "POST" (exactly "auth" ∷ exactly "reset-password" ∷ []) reset_password
    ∷ []

abbrev pub info_routes : List Route
info_routes = on "GET" (exactly "info" ∷ exactly "models" ∷ []) get_models_info ∷ []

abbrev pub documents_routes : List Route
documents_routes =
    on "POST" (exactly "documents" ∷ exactly "upload" ∷ []) upload_document
    ∷ on "GET" (exactly "documents" ∷ []) list_documents
    ∷ on "GET" (exactly "documents" ∷ hole ∷ []) get_document
    ∷ on "GET" (exactly "documents" ∷ hole ∷ exactly "content" ∷ []) get_document_content
    ∷ on "DELETE" (exactly "documents" ∷ hole ∷ []) delete_document
    ∷ []

abbrev pub conversations_routes : List Route
conversations_routes =
    on "POST" (exactly "conversations" ∷ []) create_conversation
    ∷ on "GET" (exactly "conversations" ∷ []) list_conversations
    ∷ on "GET" (exactly "conversations" ∷ hole ∷ []) get_conversation
    ∷ on "PATCH" (exactly "conversations" ∷ hole ∷ []) update_conversation
    ∷ on "DELETE" (exactly "conversations" ∷ hole ∷ []) delete_conversation
    ∷ on "GET" (exactly "conversations" ∷ hole ∷ exactly "messages" ∷ []) list_messages
    ∷ on "POST" (exactly "conversations" ∷ hole ∷ exactly "messages" ∷ []) send_message
    ∷ on "POST" (exactly "conversations" ∷ hole ∷ exactly "messages" ∷ exactly "stream" ∷ [])
        send_message_stream
    ∷ []

abbrev pub support_routes : List Route
support_routes =
    on "POST" (exactly "support" ∷ []) create_thread
    ∷ on "GET" (exactly "support" ∷ exactly "mine" ∷ []) my_threads
    ∷ on "GET" (exactly "support" ∷ exactly "admin" ∷ exactly "threads" ∷ []) all_threads
    ∷ on "PATCH" (exactly "support" ∷ exactly "admin" ∷ hole ∷ exactly "status" ∷ []) update_status
    ∷ on "GET" (exactly "support" ∷ hole ∷ []) get_thread
    ∷ on "POST" (exactly "support" ∷ hole ∷ exactly "messages" ∷ []) reply_to_thread
    ∷ []

abbrev pub admin_routes : List Route
admin_routes =
    on "GET" (exactly "admin" ∷ exactly "users" ∷ []) admin_users
    ∷ on "GET" (exactly "admin" ∷ exactly "users" ∷ hole ∷ []) admin_user_detail
    ∷ on "PATCH" (exactly "admin" ∷ exactly "users" ∷ hole ∷ exactly "status" ∷ [])
        admin_set_user_status
    ∷ on "DELETE" (exactly "admin" ∷ exactly "users" ∷ hole ∷ []) admin_delete_user
    ∷ on "GET" (exactly "admin" ∷ exactly "documents" ∷ []) admin_documents
    ∷ on "GET" (exactly "admin" ∷ exactly "ingestions" ∷ []) admin_ingestions
    ∷ on "GET" (exactly "admin" ∷ exactly "conversations" ∷ []) admin_conversations
    ∷ on "GET" (exactly "admin" ∷ exactly "messages" ∷ []) admin_messages
    ∷ on "GET" (exactly "admin" ∷ exactly "query-logs" ∷ []) admin_query_logs
    ∷ on "GET" (exactly "admin" ∷ exactly "system" ∷ []) admin_system
    ∷ []

-- `router` of v1.py
abbrev pub routes : List Route
routes =
    auth_routes
    ++ (info_routes
        ++ (documents_routes ++ (conversations_routes ++ (support_routes ++ (admin_routes)))))

-- A path without its query, and its parts between slashes: the one before the first is empty.
unfoldable pub path_part : Text → Text
unfolding split_at
path_part t = elim (split_at 63 t) [ [] ↦ [] | (p ∷ rest) ↦ p ]

unfoldable pub segments : Text → List Text
unfolding path_part
segments t = elim (split_at 47 (path_part t)) [ [] ↦ [] | (p ∷ rest) ↦ rest ]

-- Does the path fill the template? A parameter takes any part that is not empty.
unfoldable pub fills : List Piece → List Text → Bool
fills [] [] = true
fills [] (s ∷ ss) = false
fills (p ∷ ps) [] = false
fills (exactly w ∷ ps) (s ∷ ss) = text_eq (codes w) s && fills ps ss
fills (hole ∷ ps) (s ∷ ss) = not (is_empty s) && fills ps ss

-- The handler of the first route with the method whose template the path fills.
unfoldable pub first_match : String → List Text → List Route → Option Handler
unfolding fills
first_match m ss [] = none
first_match m ss (r ∷ rs) =
    let rest = first_match m ss rs in
    if str_eq m r.method && fills r.template ss then some r.handler else rest

unfoldable pub dispatch : String → Text → Option Handler
unfolding segments first_match
dispatch m t = first_match m (segments t) routes

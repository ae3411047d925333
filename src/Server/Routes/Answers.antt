-- ===== src/Server/Routes/Answers.antt =====
-- What the handlers of src/api/routers take and give: their `payload` parameter and their `response_model`.
use crag_project.Base.{Option, none, some}
use crag_project.Api.Shapes.{Shape}
use crag_project.Server.Schemas.{
  conversation_list_response, conversation_response, csrf_response, detail_response,
  document_content_response, document_list_response, document_response, message_list_response,
  message_response, models_info_response, support_thread_list_response, support_thread_out,
  user_response,
}
use crag_project.Server.Schemas.Admin.{
  admin_conversations_response, admin_documents_response, admin_ingestions_response,
  admin_messages_response, admin_query_logs_response, admin_user_detail_response,
  admin_user_response, admin_users_response, system_stats,
}
use crag_project.Server.Schemas.Payloads.{
  admin_user_status_update_request, create_conversation_request, create_support_thread_request,
  forgot_password_request, login_request, register_request, reset_password_request,
  send_message_request, support_reply_request, support_status_update_request,
  update_conversation_request,
}
use crag_project.Server.Routes.{
  Handler, get_csrf_token, register, login, logout, me, forgot_password, reset_password,
  get_models_info, upload_document, list_documents, get_document, get_document_content,
  delete_document, create_conversation, list_conversations, get_conversation, update_conversation,
  delete_conversation, list_messages, send_message, send_message_stream, create_thread, my_threads,
  all_threads, update_status, get_thread, reply_to_thread, admin_users, admin_user_detail,
  admin_set_user_status, admin_delete_user, admin_documents, admin_ingestions, admin_conversations,
  admin_messages, admin_query_logs, admin_system,
}

-- The shapes of the answers that the decorators of src/api/routers/auth.py declare; `none` where there is no
-- body, or a stream.
abbrev pub auth_answer : Handler → Option Shape
auth_answer get_csrf_token = some csrf_response
auth_answer register = some user_response
auth_answer login = some user_response
auth_answer me = some user_response
auth_answer forgot_password = some detail_response
auth_answer reset_password = some detail_response
auth_answer other = none

-- The shapes of the answers that the decorators of src/api/routers/info.py declare; `none` where there is no
-- body, or a stream.
abbrev pub info_answer : Handler → Option Shape
info_answer get_models_info = some models_info_response
info_answer other = none

-- The shapes of the answers that the decorators of src/api/routers/documents.py declare; `none` where there is no
-- body, or a stream.
abbrev pub documents_answer : Handler → Option Shape
documents_answer upload_document = some document_response
documents_answer list_documents = some document_list_response
documents_answer get_document = some document_response
documents_answer get_document_content = some document_content_response
documents_answer other = none

-- The shapes of the answers that the decorators of src/api/routers/conversations.py declare; `none` where there is no
-- body, or a stream.
abbrev pub conversations_answer : Handler → Option Shape
conversations_answer create_conversation = some conversation_response
conversations_answer list_conversations = some conversation_list_response
conversations_answer get_conversation = some conversation_response
conversations_answer update_conversation = some conversation_response
conversations_answer list_messages = some message_list_response
conversations_answer send_message = some message_response
conversations_answer other = none

-- The shapes of the answers that the decorators of src/api/routers/support.py declare; `none` where there is no
-- body, or a stream.
abbrev pub support_answer : Handler → Option Shape
support_answer create_thread = some support_thread_out
support_answer my_threads = some support_thread_list_response
support_answer all_threads = some support_thread_list_response
support_answer update_status = some detail_response
support_answer get_thread = some support_thread_out
support_answer reply_to_thread = some detail_response
support_answer other = none

-- The shapes of the answers that the decorators of src/api/routers/admin.py declare; `none` where there is no
-- body, or a stream.
abbrev pub admin_answer : Handler → Option Shape
admin_answer admin_users = some admin_users_response
admin_answer admin_user_detail = some admin_user_detail_response
admin_answer admin_set_user_status = some admin_user_response
admin_answer admin_documents = some admin_documents_response
admin_answer admin_ingestions = some admin_ingestions_response
admin_answer admin_conversations = some admin_conversations_response
admin_answer admin_messages = some admin_messages_response
admin_answer admin_query_logs = some admin_query_logs_response
admin_answer admin_system = some system_stats
admin_answer other = none

-- The answers of all routers.
abbrev pub answer : Handler → Option Shape
answer get_csrf_token = auth_answer get_csrf_token
answer register = auth_answer register
answer login = auth_answer login
answer logout = auth_answer logout
answer me = auth_answer me
answer forgot_password = auth_answer forgot_password
answer reset_password = auth_answer reset_password
answer get_models_info = info_answer get_models_info
answer upload_document = documents_answer upload_document
answer list_documents = documents_answer list_documents
answer get_document = documents_answer get_document
answer get_document_content = documents_answer get_document_content
answer delete_document = documents_answer delete_document
answer create_conversation = conversations_answer create_conversation
answer list_conversations = conversations_answer list_conversations
answer get_conversation = conversations_answer get_conversation
answer update_conversation = conversations_answer update_conversation
answer delete_conversation = conversations_answer delete_conversation
answer list_messages = conversations_answer list_messages
answer send_message = conversations_answer send_message
answer send_message_stream = conversations_answer send_message_stream
answer create_thread = support_answer create_thread
answer my_threads = support_answer my_threads
answer all_threads = support_answer all_threads
answer update_status = support_answer update_status
answer get_thread = support_answer get_thread
answer reply_to_thread = support_answer reply_to_thread
answer admin_users = admin_answer admin_users
answer admin_user_detail = admin_answer admin_user_detail
answer admin_set_user_status = admin_answer admin_set_user_status
answer admin_delete_user = admin_answer admin_delete_user
answer admin_documents = admin_answer admin_documents
answer admin_ingestions = admin_answer admin_ingestions
answer admin_conversations = admin_answer admin_conversations
answer admin_messages = admin_answer admin_messages
answer admin_query_logs = admin_answer admin_query_logs
answer admin_system = admin_answer admin_system

-- The shapes of the JSON bodies that the handlers of src/api/routers/auth.py take.
abbrev pub auth_payload : Handler → Option Shape
auth_payload register = some register_request
auth_payload login = some login_request
auth_payload forgot_password = some forgot_password_request
auth_payload reset_password = some reset_password_request
auth_payload other = none

-- The shapes of the JSON bodies that the handlers of src/api/routers/conversations.py take.
abbrev pub conversations_payload : Handler → Option Shape
conversations_payload create_conversation = some create_conversation_request
conversations_payload update_conversation = some update_conversation_request
conversations_payload send_message = some send_message_request
conversations_payload send_message_stream = some send_message_request
conversations_payload other = none

-- The shapes of the JSON bodies that the handlers of src/api/routers/support.py take.
abbrev pub support_payload : Handler → Option Shape
support_payload create_thread = some create_support_thread_request
support_payload update_status = some support_status_update_request
support_payload reply_to_thread = some support_reply_request
support_payload other = none

-- The shapes of the JSON bodies that the handlers of src/api/routers/admin.py take.
abbrev pub admin_payload : Handler → Option Shape
admin_payload admin_set_user_status = some admin_user_status_update_request
admin_payload other = none

-- The JSON bodies of all routers; a handler that takes none, or a form, has none.
abbrev pub payload : Handler → Option Shape
payload get_csrf_token = auth_payload get_csrf_token
payload register = auth_payload register
payload login = auth_payload login
payload logout = auth_payload logout
payload me = auth_payload me
payload forgot_password = auth_payload forgot_password
payload reset_password = auth_payload reset_password
payload get_models_info = none
payload upload_document = none
payload list_documents = none
payload get_document = none
payload get_document_content = none
payload delete_document = none
payload create_conversation = conversations_payload create_conversation
payload list_conversations = conversations_payload list_conversations
payload get_conversation = conversations_payload get_conversation
payload update_conversation = conversations_payload update_conversation
payload delete_conversation = conversations_payload delete_conversation
payload list_messages = conversations_payload list_messages
payload send_message = conversations_payload send_message
payload send_message_stream = conversations_payload send_message_stream
payload create_thread = support_payload create_thread
payload my_threads = support_payload my_threads
payload all_threads = support_payload all_threads
payload update_status = support_payload update_status
payload get_thread = support_payload get_thread
payload reply_to_thread = support_payload reply_to_thread
payload admin_users = admin_payload admin_users
payload admin_user_detail = admin_payload admin_user_detail
payload admin_set_user_status = admin_payload admin_set_user_status
payload admin_delete_user = admin_payload admin_delete_user
payload admin_documents = admin_payload admin_documents
payload admin_ingestions = admin_payload admin_ingestions
payload admin_conversations = admin_payload admin_conversations
payload admin_messages = admin_payload admin_messages
payload admin_query_logs = admin_payload admin_query_logs
payload admin_system = admin_payload admin_system

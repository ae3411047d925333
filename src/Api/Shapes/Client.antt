-- ===== src/Api/Shapes/Client.antt =====
-- frontend/src/lib/types.ts, and the interfaces of frontend/src/pages/Users.tsx and Support.tsx: the shapes that
-- the client takes the answers to have. An interface that extends another lists the other's fields first.
use crag_project.Base.{[], ◌∷◌}
use crag_project.Api.Shapes.{
  Shape, anything, one_of, nullable, list, dict, object_of, ◌is◌, ◌may_be◌, flag, num, text,
}

abbrev pub user_record : Shape
user_record = object_of (
    "id" is num
    ∷ "email" is text
    ∷ "full_name" is text
    ∷ "role" is text
    ∷ "is_active" is flag
    ∷ "created_at" is text
    ∷ [])

abbrev pub document_record : Shape
document_record = object_of (
    "id" is text
    ∷ "file_name" is text
    ∷ "content_type" is text
    ∷ "size_bytes" is num
    ∷ "status" is text
    ∷ "error" is (nullable text)
    ∷ "created_at" is text
    ∷ [])

abbrev pub conversation : Shape
conversation = object_of (
    "id" is num
    ∷ "title" is text
    ∷ "document_id" may_be (nullable text)
    ∷ "created_at" is text
    ∷ "updated_at" is text
    ∷ [])

abbrev pub retrieval_evidence : Shape
retrieval_evidence = object_of (
    "document_id" is (nullable text)
    ∷ "file_name" may_be (nullable text)
    ∷ "text" is text
    ∷ "score" may_be (nullable num)
    ∷ "retrieval_source" may_be (nullable text)
    ∷ [])

abbrev pub message : Shape
message = object_of (
    "id" is num
    ∷ "conversation_id" is num
    ∷ "role" is (one_of ("user" ∷ "assistant" ∷ []))
    ∷ "content" is text
    ∷ "confidence_score" is (nullable num)
    ∷ "web_search_used" is flag
    ∷ "sources" is (list anything)
    ∷ "trace" is (list anything)
    ∷ "retrieval_evidence" is (list retrieval_evidence)
    ∷ "created_at" is text
    ∷ [])

abbrev pub document_content : Shape
document_content =
    object_of ("document_id" is text ∷ "file_name" is text ∷ "text" is (nullable text) ∷ [])

abbrev pub chat_model_info : Shape
chat_model_info = object_of (
    "generation_model" is text
    ∷ "embedding_model" is text
    ∷ "rerank_model" is text
    ∷ "grader_model" is text
    ∷ "provider" is text
    ∷ [])

abbrev pub ingestion_model_info : Shape
ingestion_model_info =
    object_of ("extraction_model" is text ∷ "embedding_model" is text ∷ "provider" is text ∷ [])

abbrev pub models_info : Shape
models_info = object_of ("chat" is chat_model_info ∷ "ingestion" is ingestion_model_info ∷ [])

abbrev pub dependency_status : Shape
dependency_status = object_of ("name" is text ∷ "status" is text ∷ "detail" is (nullable text) ∷ [])

abbrev pub system_stats : Shape
system_stats = object_of (
    "users" is num
    ∷ "documents" is num
    ∷ "ingestion_jobs" is (dict num)
    ∷ "conversations" is num
    ∷ "messages" is num
    ∷ "query_logs" is num
    ∷ "dependencies" is (list dependency_status)
    ∷ [])

abbrev pub admin_document : Shape
admin_document = object_of (
    "id" is text
    ∷ "file_name" is text
    ∷ "content_type" is text
    ∷ "size_bytes" is num
    ∷ "status" is text
    ∷ "error" is (nullable text)
    ∷ "created_at" is text
    ∷ "user_id" is num
    ∷ "owner_email" is text
    ∷ "owner_full_name" is text
    ∷ [])

abbrev pub admin_conversation : Shape
admin_conversation = object_of (
    "id" is num
    ∷ "title" is text
    ∷ "document_id" is (nullable text)
    ∷ "user_id" is num
    ∷ "owner_email" is text
    ∷ "owner_full_name" is text
    ∷ "message_count" is num
    ∷ "created_at" is text
    ∷ "updated_at" is text
    ∷ [])

abbrev pub admin_message : Shape
admin_message = object_of (
    "id" is num
    ∷ "conversation_id" is num
    ∷ "conversation_title" is text
    ∷ "user_id" is num
    ∷ "owner_email" is text
    ∷ "role" is (one_of ("user" ∷ "assistant" ∷ []))
    ∷ "content" is text
    ∷ "confidence_score" is (nullable num)
    ∷ "web_search_used" is flag
    ∷ "created_at" is text
    ∷ [])

abbrev pub admin_query_log : Shape
admin_query_log = object_of (
    "id" is num
    ∷ "user_id" is num
    ∷ "owner_email" is text
    ∷ "query" is text
    ∷ "answer" is text
    ∷ "confidence_score" is num
    ∷ "web_search_used" is flag
    ∷ "retry_count" is num
    ∷ "latency_ms" is num
    ∷ "created_at" is text
    ∷ [])

abbrev pub admin_user_row : Shape
admin_user_row = object_of (
    "id" is num
    ∷ "email" is text
    ∷ "full_name" is text
    ∷ "role" is text
    ∷ "is_active" is flag
    ∷ "created_at" is text
    ∷ [])

abbrev pub admin_user_detail : Shape
admin_user_detail = object_of (
    "id" is num
    ∷ "email" is text
    ∷ "full_name" is text
    ∷ "role" is text
    ∷ "is_active" is flag
    ∷ "created_at" is text
    ∷ "document_count" is num
    ∷ "conversation_count" is num
    ∷ "message_count" is num
    ∷ "query_log_count" is num
    ∷ "recent_conversations"
      is (list (object_of ("id" is num ∷ "title" is text ∷ "message_count" is num ∷ [])))
    ∷ [])

abbrev pub ticket_status : Shape
ticket_status = one_of ("open" ∷ "pending" ∷ "resolved" ∷ [])

abbrev pub support_message : Shape
support_message = object_of (
    "id" is num
    ∷ "sender_id" is num
    ∷ "sender_role" is text
    ∷ "content" is text
    ∷ "created_at" is text
    ∷ [])

abbrev pub support_thread : Shape
support_thread = object_of (
    "id" is num
    ∷ "subject" is text
    ∷ "status" is ticket_status
    ∷ "user_email" may_be text
    ∷ "messages" is (list support_message)
    ∷ [])

-- ===== src/Server/Schemas/Admin.antt =====
-- src/schemas.py: the answers of the endpoints below /admin. A pydantic model sends all its
-- fields, a default included; a `datetime` goes out as a string. A model that extends another lists
-- the other's fields first.
use crag_project.Base.{[], ◌∷◌}
use crag_project.Api.Shapes.{Shape, nullable, list, dict, object_of, ◌is◌, flag, num, text}
use crag_project.Server.Schemas.{document_response}

abbrev pub admin_user_response : Shape
admin_user_response = object_of (
    "id" is num
    ∷ "email" is text
    ∷ "full_name" is text
    ∷ "role" is text
    ∷ "is_active" is flag
    ∷ "created_at" is text
    ∷ [])

abbrev pub admin_users_response : Shape
admin_users_response = object_of ("items" is (list admin_user_response) ∷ [])

abbrev pub admin_document_response : Shape
admin_document_response = object_of (
    "id" is text
    ∷ "file_name" is text
    ∷ "content_type" is text
    ∷ "size_bytes" is num
    ∷ "status" is text
    ∷ "error" is (nullable text)
    ∷ "created_at" is text
    ∷ "user_id" is num
    ∷ "owner_email" is text
    ∷ "owner_full_name" is text
    ∷ [])

abbrev pub admin_documents_response : Shape
admin_documents_response = object_of ("items" is (list admin_document_response) ∷ [])

abbrev pub admin_conversation_item : Shape
admin_conversation_item = object_of (
    "id" is num
    ∷ "title" is text
    ∷ "document_id" is (nullable text)
    ∷ "user_id" is num
    ∷ "owner_email" is text
    ∷ "owner_full_name" is text
    ∷ "message_count" is num
    ∷ "created_at" is text
    ∷ "updated_at" is text
    ∷ [])

abbrev pub admin_conversations_response : Shape
admin_conversations_response = object_of ("items" is (list admin_conversation_item) ∷ [])

abbrev pub admin_message_item : Shape
admin_message_item = object_of (
    "id" is num
    ∷ "conversation_id" is num
    ∷ "conversation_title" is text
    ∷ "user_id" is num
    ∷ "owner_email" is text
    ∷ "role" is text
    ∷ "content" is text
    ∷ "confidence_score" is (nullable num)
    ∷ "web_search_used" is flag
    ∷ "created_at" is text
    ∷ [])

abbrev pub admin_messages_response : Shape
admin_messages_response = object_of ("items" is (list admin_message_item) ∷ [])

abbrev pub admin_query_log_item : Shape
admin_query_log_item = object_of (
    "id" is num
    ∷ "user_id" is num
    ∷ "owner_email" is text
    ∷ "query" is text
    ∷ "answer" is text
    ∷ "confidence_score" is num
    ∷ "web_search_used" is flag
    ∷ "retry_count" is num
    ∷ "latency_ms" is num
    ∷ "created_at" is text
    ∷ [])

abbrev pub admin_query_logs_response : Shape
admin_query_logs_response = object_of ("items" is (list admin_query_log_item) ∷ [])

abbrev pub dependency_status : Shape
dependency_status = object_of ("name" is text ∷ "status" is text ∷ "detail" is (nullable text) ∷ [])

abbrev pub system_stats : Shape
system_stats = object_of (
    "users" is num
    ∷ "documents" is num
    ∷ "ingestion_jobs" is (dict num)
    ∷ "conversations" is num
    ∷ "messages" is num
    ∷ "query_logs" is num
    ∷ "dependencies" is (list dependency_status)
    ∷ [])

abbrev pub recent_conversation_item : Shape
recent_conversation_item = object_of (
    "id" is num
    ∷ "title" is text
    ∷ "message_count" is num
    ∷ "created_at" is text
    ∷ "updated_at" is text
    ∷ [])

abbrev pub admin_user_detail_response : Shape
admin_user_detail_response = object_of (
    "profile" is admin_user_response
    ∷ "document_count" is num
    ∷ "conversation_count" is num
    ∷ "message_count" is num
    ∷ "query_log_count" is num
    ∷ "storage_bytes" is num
    ∷ "recent_documents" is (list document_response)
    ∷ "recent_conversations" is (list recent_conversation_item)
    ∷ [])

abbrev pub ingestion_job_response : Shape
ingestion_job_response = object_of (
    "id" is num
    ∷ "document_id" is text
    ∷ "status" is text
    ∷ "parent_chunks" is num
    ∷ "child_chunks" is num
    ∷ "graph_relationships" is num
    ∷ "error" is (nullable text)
    ∷ "created_at" is text
    ∷ [])

abbrev pub admin_ingestions_response : Shape
admin_ingestions_response = object_of ("items" is (list ingestion_job_response) ∷ [])

-- ===== src/Server/Schemas.antt =====
-- src/schemas.py: the answers that the endpoints declare as `response_model`. A pydantic model sends all its
-- fields, a default included; a `datetime` goes out as a string. A model that extends another lists
-- the other's fields first.
pub mod Admin
pub mod Payloads
use crag_project.Base.{String, [], ◌∷◌}
use crag_project.Api.Shapes.{
  Shape, anything, nullable, list, dict, object_of, ◌is◌, flag, num, text,
}

abbrev pub user_response : Shape
user_response = object_of (
    "id" is num
    ∷ "email" is text
    ∷ "full_name" is text
    ∷ "role" is text
    ∷ "is_active" is flag
    ∷ "created_at" is text
    ∷ [])

abbrev pub csrf_response : Shape
csrf_response = object_of ("csrf_token" is text ∷ [])

abbrev pub document_response : Shape
document_response = object_of (
    "id" is text
    ∷ "file_name" is text
    ∷ "content_type" is text
    ∷ "size_bytes" is num
    ∷ "status" is text
    ∷ "error" is (nullable text)
    ∷ "created_at" is text
    ∷ [])

abbrev pub document_list_response : Shape
document_list_response = object_of ("items" is (list document_response) ∷ [])

abbrev pub document_content_response : Shape
document_content_response =
    object_of ("document_id" is text ∷ "file_name" is text ∷ "text" is (nullable text) ∷ [])

abbrev pub chat_model_info : Shape
chat_model_info = object_of (
    "generation_model" is text
    ∷ "embedding_model" is text
    ∷ "rerank_model" is text
    ∷ "grader_model" is text
    ∷ "provider" is text
    ∷ [])

abbrev pub ingestion_model_info : Shape
ingestion_model_info =
    object_of ("extraction_model" is text ∷ "embedding_model" is text ∷ "provider" is text ∷ [])

abbrev pub models_info_response : Shape
models_info_response =
    object_of ("chat" is chat_model_info ∷ "ingestion" is ingestion_model_info ∷ [])

abbrev pub conversation_response : Shape
conversation_response = object_of (
    "id" is num
    ∷ "title" is text
    ∷ "document_id" is (nullable text)
    ∷ "created_at" is text
    ∷ "updated_at" is text
    ∷ [])

abbrev pub conversation_list_response : Shape
conversation_list_response = object_of ("items" is (list conversation_response) ∷ [])

abbrev pub message_response : Shape
message_response = object_of (
    "id" is num
    ∷ "conversation_id" is num
    ∷ "role" is text
    ∷ "content" is text
    ∷ "confidence_score" is (nullable num)
    ∷ "web_search_used" is flag
    ∷ "sources" is (list anything)
    ∷ "trace" is (list anything)
    ∷ "retrieval_evidence" is (list anything)
    ∷ "created_at" is text
    ∷ [])

abbrev pub message_list_response : Shape
message_list_response = object_of ("items" is (list message_response) ∷ [])

abbrev pub detail_response : Shape
detail_response = object_of ("message" is text ∷ [])

abbrev pub support_message_out : Shape
support_message_out =
    object_of ("id" is num ∷ "sender_role" is text ∷ "content" is text ∷ "created_at" is text ∷ [])

abbrev pub support_thread_out : Shape
support_thread_out = object_of (
    "id" is num
    ∷ "subject" is text
    ∷ "status" is text
    ∷ "user_email" is (nullable text)
    ∷ "user_full_name" is (nullable text)
    ∷ "messages" is (list support_message_out)
    ∷ "created_at" is text
    ∷ "updated_at" is text
    ∷ [])

abbrev pub support_thread_list_response : Shape
support_thread_list_response = object_of ("items" is (list support_thread_out) ∷ [])

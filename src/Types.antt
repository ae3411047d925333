-- ===== src/Types.antt =====
-- frontend/src/lib/types.ts: the records that the API returns. A `string` that the program takes
-- apart is a `Text`, one that it only compares or shows is a `String`; an optional or nullable
-- field is an `Option`. Scores are floating-point numbers, which the program only compares and
-- prints: their type is a parameter.
use crag_project.Base.{ℕ, String, Bool, Option, List}
use crag_project.Text.{Text}

pub record User : Type 0 where
  pub id : ℕ
  pub email : Text
  pub full_name : Text
  pub role : String
  pub is_active : Bool
  pub created_at : String

pub record DocumentRecord : Type 0 where
  pub id : String
  pub file_name : String
  pub content_type : String
  pub size_bytes : ℕ
  pub status : String
  pub error : Option String
  pub created_at : String

pub record Conversation : Type 0 where
  pub id : ℕ
  pub title : String
  pub document_id : Option String
  pub created_at : String
  pub updated_at : String

pub data MessageRole : Type 0 where
  user assistant : MessageRole

-- A message's number; the page numbers a message of its own by a negative one.
pub data ℤ : Type 0 where
  pos : ℕ → ℤ
  negsuc : ℕ → ℤ

pub record RetrievalEvidence (Score : Type 0) : Type 0 where
  pub document_id : Option String
  pub file_name : Option String
  pub text : String
  pub score : Option Score
  pub retrieval_source : Option String

-- `sources` and `trace` are `unknown[]`, of which the program reads nothing but that they are there.
pub record Message (Score Unknown : Type 0) : Type 0 where
  pub id : ℤ
  pub conversation_id : ℕ
  pub role : MessageRole
  pub content : Text
  pub confidence_score : Option Score
  pub web_search_used : Bool
  pub sources : List Unknown
  pub trace : List Unknown
  pub retrieval_evidence : List (RetrievalEvidence Score)
  pub created_at : String

pub record DocumentContent : Type 0 where
  pub document_id : String
  pub file_name : String
  pub text : Option Text

pub record ChatModelInfo : Type 0 where
  pub generation_model : String
  pub embedding_model : String
  pub rerank_model : String
  pub grader_model : String
  pub provider : String

pub record IngestionModelInfo : Type 0 where
  pub extraction_model : String
  pub embedding_model : String
  pub provider : String

pub record ModelsInfo : Type 0 where
  pub chat : ChatModelInfo
  pub ingestion : IngestionModelInfo

pub record DependencyStatus : Type 0 where
  pub name : String
  pub status : String
  pub detail : Option String

pub record SystemStats : Type 0 where
  pub users : ℕ
  pub documents : ℕ
  pub ingestion_jobs : List (String × ℕ)
  pub conversations : ℕ
  pub messages : ℕ
  pub query_logs : ℕ
  pub dependencies : List DependencyStatus

pub record AdminDocument : Type 0 where
  pub document : DocumentRecord
  pub open document use *
  pub user_id : ℕ
  pub owner_email : Text
  pub owner_full_name : Text

pub record AdminConversation : Type 0 where
  pub id : ℕ
  pub title : String
  pub document_id : Option String
  pub user_id : ℕ
  pub owner_email : Text
  pub owner_full_name : Text
  pub message_count : ℕ
  pub created_at : String
  pub updated_at : String

pub record AdminMessage (Score : Type 0) : Type 0 where
  pub id : ℕ
  pub conversation_id : ℕ
  pub conversation_title : String
  pub user_id : ℕ
  pub owner_email : Text
  pub role : MessageRole
  pub content : Text
  pub confidence_score : Option Score
  pub web_search_used : Bool
  pub created_at : String

pub record AdminQueryLog (Score : Type 0) : Type 0 where
  pub id : ℕ
  pub user_id : ℕ
  pub owner_email : Text
  pub query : Text
  pub answer : Text
  pub confidence_score : Score
  pub web_search_used : Bool
  pub retry_count : ℕ
  pub latency_ms : ℕ
  pub created_at : String

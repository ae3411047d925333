-- ===== src/Tests/Data.antt =====
-- The data that the tests share.
use crag_project.Base.{
  ℕ, String, true, false, Option, none, some, List, [], refl, map, ◌==◌, if◌then◌else◌,
}
use crag_project.Text.{Text, codes, text_eq}
use crag_project.Types.{User, DocumentRecord, Conversation, Message, assistant, pos}
use crag_project.Api.Csrf.{RequestConfig}
use crag_project.Api.Errors.{other_error}
use crag_project.Api.Stream.{StreamEvent, delta, done, TextDecoder, Response, no_detail, chunk}
use crag_project.Api.Stream.Chunks.{IsStreaming}
use crag_project.Chat.{ChatState}
use crag_project.Chat.Sending.{MessageCache}
use crag_project.Ui.{Query, Mutation}

abbrev pub plain_user : User
plain_user = record {
  id = 7;
  email = codes "ann@example.org";
  full_name = codes "Ann Lee";
  role = "user";
  is_active = true;
  created_at = "2025-01-02";
}

abbrev pub admin_user : User
admin_user = record plain_user { id = 1; role = "admin" }

abbrev pub ready_document : DocumentRecord
ready_document = record {
  id = "d1";
  file_name = "notes.txt";
  content_type = "text/plain";
  size_bytes = 12;
  status = "ready";
  error = none;
  created_at = "2025-01-03";
}

abbrev pub thread : ℕ → Option String → Conversation
thread id document = record {
  id = id;
  title = "Thread";
  document_id = document;
  created_at = "2025-01-03";
  updated_at = "2025-01-04";
}

abbrev pub loaded : {A : Type 0} → A → Query A
loaded a = record { result = some a; is_loading = false; is_error = false; error = other_error }

abbrev pub unloaded : {A : Type 0} → Query A
unloaded = record { result = none; is_loading = true; is_error = false; error = other_error }

abbrev pub idle : Mutation
idle = record { is_pending = false }

abbrev pub ChatMessage : Type 0
ChatMessage = Message ℕ (Unit {0})

-- A cache of messages that is a function of the thread.
abbrev pub messages : MessageCache ChatMessage
messages = record {
  Cache = ℕ → Option (List ChatMessage);
  get = λ cache id. cache id;
  set = λ cache id list. λ k. if k == id then some list else cache k;
}

abbrev pub page : Option ℕ → ChatState messages.Cache
page active = record {
  active_id = active;
  draft = codes " why? ";
  viewer_open = false;
  stream_text = none;
  auto_created = none;
  cache = λ k. none;
}

abbrev pub answer_message : ChatMessage
answer_message = record {
  id = pos 12;
  conversation_id = 4;
  role = assistant;
  content = codes "hi";
  confidence_score = some 8;
  web_search_used = false;
  sources = [];
  trace = [];
  retrieval_evidence = [];
  created_at = "2025-01-05";
}

-- Two payloads: `D` for a delta, `E` for the end.
abbrev pub parse : Text → Option (StreamEvent ChatMessage)
parse p =
    if text_eq p (codes "D")
    then some (delta (codes "hi"))
    else if text_eq p (codes "E")
    then some (done answer_message)
    else none

-- Bytes that are characters.
abbrev pub decoder : TextDecoder
decoder = record { State = Unit {0}; start = tt; decode = λ s bytes. (bytes, s) }

pub decoder-IsStreaming : IsStreaming decoder
decoder-IsStreaming = record { decode-nil = λ s. refl; decode-append = λ s a b. refl }

abbrev pub no_reply : RequestConfig → Option Text
no_reply call = none

abbrev pub jar : Text
jar = codes "theme=dark; rag_csrf=tok"

abbrev pub answer_with : List (List ℕ) → Response
answer_with chunks = record {
  ok = true;
  status = 200;
  json = no_detail;
  body = some (map chunk chunks);
}

abbrev pub date : String → Text
date s = codes s

-- ===== src/Contract/Answers.antt =====
-- What the client takes an answer to be, against what the server says that it is.
use crag_project.Base.{String, true, List, [], ◌∷◌, str_eq, if◌then◌else◌, ◌≡◌, refl}
use crag_project.Api.Shapes.{Json, Shape, list, object, Fields, closed, field, optional, conforms}
use crag_project.Api.Shapes.Fits.{fits}
use crag_project.Api.Shapes.Sound.{fits_sound}
use crag_project.Queries.{
  QueryUse, documents_list, dashboard_documents, pinned_document, document_content as content_use,
  chat_conversations, dashboard_conversations, chat_messages, chat_models, documents_models,
  system_stats as stats_use, dashboard_stats, system_documents, system_conversations,
  system_messages, system_query_logs, users_list, user_detail, support_threads,
}
use crag_project.Contract.{
  Call, reads, fetches_csrf, loads_user, logs_in, registers, creates_conversation, uploads,
  expected, served,
}

-- A shape without the field at the end of a path of names; a list is gone through.
unfoldable mutual
  pub without : List String → Shape → Shape
  without ns (list s) = list (without ns s)
  without ns (object fs) = object (without_field ns fs)
  without ns s = s

  without_field : List String → Fields → Fields
  without_field [] fs = fs
  without_field ns closed = closed
  without_field (n ∷ []) (field m s fs) =
      let rest = without_field (n ∷ []) fs in if str_eq n m then rest else field m s rest
  without_field (n ∷ []) (optional m s fs) =
      let rest = without_field (n ∷ []) fs in if str_eq n m then rest else optional m s rest
  without_field (n ∷ k ∷ ns) (field m s fs) =
      let rest = without_field (n ∷ k ∷ ns) fs in
      let inner = without (k ∷ ns) s in field m (if str_eq n m then inner else s) rest
  without_field (n ∷ k ∷ ns) (optional m s fs) =
      let rest = without_field (n ∷ k ∷ ns) fs in
      let inner = without (k ∷ ns) s in optional m (if str_eq n m then inner else s) rest

-- The fields that the client relies on and the server does not promise.
abbrev pub unpromised : Call → List (List String)
unpromised (reads (chat_messages id)) =
    ("items" ∷ "role" ∷ []) ∷ ("items" ∷ "retrieval_evidence" ∷ []) ∷ []
unpromised (reads system_messages) = ("items" ∷ "role" ∷ []) ∷ []
unpromised (reads (support_threads admin status)) =
    ("items" ∷ "status" ∷ [])
    ∷ ("items" ∷ "user_email" ∷ [])
    ∷ ("items" ∷ "messages" ∷ "sender_id" ∷ [])
    ∷ []
unpromised (reads (user_detail id)) =
    ("id" ∷ [])
    ∷ ("email" ∷ [])
    ∷ ("full_name" ∷ [])
    ∷ ("role" ∷ [])
    ∷ ("is_active" ∷ [])
    ∷ ("created_at" ∷ [])
    ∷ []
unpromised c = []

unfoldable pub without_all : List (List String) → Shape → Shape
unfolding without
without_all [] s = s
without_all (p ∷ ps) s = without_all ps (without p s)

unfoldable pub promised : Call → Shape
unfolding without_all
promised c = without_all (unpromised c) (expected c)

query-fits : (u : QueryUse) → fits (served (reads u)) (promised (reads u)) ≡ true
unfolding fits promised
query-fits documents_list = refl
query-fits dashboard_documents = refl
query-fits (pinned_document param) = refl
query-fits (content_use pinned param) = refl
query-fits chat_conversations = refl
query-fits dashboard_conversations = refl
query-fits (chat_messages id) = refl
query-fits chat_models = refl
query-fits documents_models = refl
query-fits stats_use = refl
query-fits dashboard_stats = refl
query-fits system_documents = refl
query-fits system_conversations = refl
query-fits system_messages = refl
query-fits system_query_logs = refl
query-fits users_list = refl
query-fits (user_detail id) = refl
query-fits (support_threads admin status) = refl

call-fits : (c : Call) → fits (served c) (promised c) ≡ true
unfolding fits promised
call-fits (reads u) = query-fits u
call-fits fetches_csrf = refl
call-fits loads_user = refl
call-fits logs_in = refl
call-fits registers = refl
call-fits creates_conversation = refl
call-fits uploads = refl

-- Every answer that the server declares for a call is what the client takes it to be, but for the fields that
-- `unpromised` names.
pub served-promised :
    (c : Call) (j : Json) → conforms (served c) j ≡ true → conforms (promised c) j ≡ true
served-promised c j h = fits_sound (served c) (promised c) (call-fits c) j h

-- ===== src/Contract/Unpromised.antt =====
-- Answers that the server's declarations allow and the client's types do not.
use crag_project.Base.{
  String, Bool, true, false, not, ◌&&◌, List, [], ◌∷◌, str_eq, ◌≡◌, refl, filter, All,
}
use crag_project.Text.{codes}
use crag_project.Api.Shapes.{
  Json, null, truth, number, word, array, record_of, no_more, then_one, Members, end, member,
  Scalar, boolean, numeric, string, Shape, anything, scalar, one_of, nullable, list, dict, object,
  Fields, closed, field, optional, conforms,
}
use crag_project.Queries.{
  documents_list, dashboard_documents, pinned_document, document_content as content_use,
  chat_conversations, dashboard_conversations, chat_messages, chat_models, documents_models,
  system_stats as stats_use, dashboard_stats, system_documents, system_conversations,
  system_messages, system_query_logs, users_list, user_detail, support_threads,
}
use crag_project.Contract.{
  Call, reads, fetches_csrf, loads_user, logs_in, registers, creates_conversation, uploads,
  expected, served,
}
use crag_project.Contract.Answers.{without_all, unpromised}

abbrev sample_scalar : Scalar → Json
sample_scalar boolean = truth true
sample_scalar numeric = number "1"
sample_scalar string = word (codes "text")

-- A value of a shape: the smallest but for lists, which have one item.
unfoldable mutual
  pub sample : Shape → Json
  sample anything = null
  sample (scalar k) = sample_scalar k
  sample (one_of []) = null
  sample (one_of (n ∷ names)) = word (codes n)
  sample (nullable s) = null
  sample (list s) = array (then_one (sample s) no_more)
  sample (dict s) = record_of end
  sample (object fs) = record_of (sample_fields fs)

  pub sample_fields : Fields → Members
  sample_fields closed = end
  sample_fields (field n s fs) = member n (sample s) (sample_fields fs)
  sample_fields (optional n s fs) = sample_fields fs

same_path : List String → List String → Bool
same_path [] [] = true
same_path [] (n ∷ ns) = false
same_path (m ∷ ms) [] = false
same_path (m ∷ ms) (n ∷ ns) = str_eq m n && same_path ms ns

-- The client's shape without the unpromised fields other than this one.
unfoldable pub leaving : Call → List String → Shape
unfolding without_all same_path
leaving c p = without_all (filter (λ q. not (same_path p q)) (unpromised c)) (expected c)

abbrev pub Breaks : Call → List String → Type 0
Breaks c p = conforms (leaving c p) (sample (served c)) ≡ false

-- None of the fields that `unpromised` names could be left off it: the server's declaration allows an answer
-- that is not what the client takes it to be, even if the call's other unpromised fields are let go.
pub unpromised-Breaks :
    (c : Call) → (conforms (served c) (sample (served c)) ≡ true) × All (Breaks c) (unpromised c)
unfolding conforms sample leaving
unpromised-Breaks (reads documents_list) = (refl, tt)
unpromised-Breaks (reads dashboard_documents) = (refl, tt)
unpromised-Breaks (reads (pinned_document param)) = (refl, tt)
unpromised-Breaks (reads (content_use pinned param)) = (refl, tt)
unpromised-Breaks (reads chat_conversations) = (refl, tt)
unpromised-Breaks (reads dashboard_conversations) = (refl, tt)
unpromised-Breaks (reads (chat_messages id)) = (refl, (refl, (refl, tt)))
unpromised-Breaks (reads chat_models) = (refl, tt)
unpromised-Breaks (reads documents_models) = (refl, tt)
unpromised-Breaks (reads stats_use) = (refl, tt)
unpromised-Breaks (reads dashboard_stats) = (refl, tt)
unpromised-Breaks (reads system_documents) = (refl, tt)
unpromised-Breaks (reads system_conversations) = (refl, tt)
unpromised-Breaks (reads system_messages) = (refl, (refl, tt))
unpromised-Breaks (reads system_query_logs) = (refl, tt)
unpromised-Breaks (reads users_list) = (refl, tt)
unpromised-Breaks (reads (user_detail id)) =
    (refl, (refl, (refl, (refl, (refl, (refl, (refl, tt)))))))
unpromised-Breaks (reads (support_threads admin status)) = (refl, (refl, (refl, (refl, tt))))
unpromised-Breaks fetches_csrf = (refl, tt)
unpromised-Breaks loads_user = (refl, tt)
unpromised-Breaks logs_in = (refl, tt)
unpromised-Breaks registers = (refl, tt)
unpromised-Breaks creates_conversation = (refl, tt)
unpromised-Breaks uploads = (refl, tt)

-- ===== src/Contract/Paths.antt =====
-- The path of each call against the routes of the server.
use crag_project.Base.{
  join_and, split_and, absurd_bool, ℕ, String, true, false, none, some, List, [], ◌∷◌, ◌≡◌, refl,
  sym, ap, ◌∙◌, ◌++◌,
}
use crag_project.Text.{Text, codes, is_empty}
use crag_project.Text.Decimal.{decimal, decimal-nonempty}
use crag_project.Queries.{
  QueryUse, documents_list, dashboard_documents, pinned_document, document_content as content_use,
  chat_conversations, dashboard_conversations, chat_messages, chat_models, documents_models,
  system_stats as stats_use, dashboard_stats, system_documents, system_conversations,
  system_messages, system_query_logs, users_list, user_detail, support_threads, query,
}
use crag_project.Server.Routes.{
  dispatch, segments, first_match, routes, Handler, get_document, get_document_content,
  list_messages, admin_user_detail,
}
use crag_project.Server.Routes.Matching.{
  slashed, segments-slashed, is_part, are_parts, is_part-decimal,
}
use crag_project.Server.Routes.Answers.{answer}
use crag_project.Support.{open_ticket, pending, resolved}
use crag_project.Contract.{
  Call, reads, fetches_csrf, loads_user, logs_in, registers, creates_conversation, uploads,
  call_method, call_path, declared, served,
}

-- A path that is put together from parts goes to the first route that they fill.
pub dispatch-slashed :
    (m : String) (p : Text) (ps : List Text)
    → are_parts (p ∷ ps) ≡ true
    → dispatch m (slashed (p ∷ ps)) ≡ first_match m (p ∷ ps) routes
unfolding dispatch
dispatch-slashed m p ps h = ap (λ ss. first_match m ss routes) (segments-slashed p ps h)

-- A parameter of a path: not empty, without slash and question mark.
pub record IsParameter (d : Text) : Type 0 where
  pub part : is_part d ≡ true
  pub some_text : is_empty d ≡ false

pub decimal-IsParameter : (n : ℕ) → IsParameter (decimal n)
decimal-IsParameter n = record { part = is_part-decimal n; some_text = decimal-nonempty n }

are_parts-around :
    (ps : List Text) (d : Text) (qs : List Text)
    → are_parts ps ≡ true
    → is_part d ≡ true
    → are_parts qs ≡ true
    → are_parts (ps ++ d ∷ qs) ≡ true
are_parts-around [] d qs f h g = join_and h g
are_parts-around (p ∷ ps) d qs f h g =
    let (this, rest) = split_and (is_part p) (are_parts ps) f in
    join_and this (are_parts-around ps d qs rest h g)

-- A path with one parameter goes where it goes with every text that is not empty.
pub dispatch-parameter :
    (m : String) (h : Handler) (p : Text) (ps qs : List Text)
    → are_parts (p ∷ ps) ≡ true
    → are_parts qs ≡ true
    → ((x : ℕ) (t : Text) → first_match m (p ∷ (ps ++ (x ∷ t) ∷ qs)) routes ≡ some h)
    → (d : Text) → IsParameter d
    → dispatch m (slashed (p ∷ (ps ++ d ∷ qs))) ≡ some h
dispatch-parameter m h p ps qs f g found [] i = absurd_bool (sym i.some_text)
dispatch-parameter m h p ps qs f g found (x ∷ t) i =
    dispatch-slashed m p (ps ++ (x ∷ t) ∷ qs) (are_parts-around (p ∷ ps) (x ∷ t) qs f i.part g)
    ∙ found x t

module _ (d : Text) (h : IsParameter d) where
  user_path : dispatch "GET" (codes "/admin/users/" ++ d) ≡ some admin_user_detail
  unfolding first_match
  user_path =
      dispatch-parameter "GET" admin_user_detail (codes "admin") (codes "users" ∷ []) [] refl refl
        (λ x t. refl) d h

  document_path : dispatch "GET" (codes "/documents/" ++ d) ≡ some get_document
  unfolding first_match
  document_path =
      dispatch-parameter "GET" get_document (codes "documents") [] [] refl refl (λ x t. refl) d h

  content_path :
      dispatch "GET" (codes "/documents/" ++ (d ++ codes "/content")) ≡ some get_document_content
  unfolding first_match
  content_path =
      dispatch-parameter "GET" get_document_content (codes "documents") [] (codes "content" ∷ [])
        refl refl (λ x t. refl) d h

  messages_path :
      dispatch "GET" (codes "/conversations/" ++ (d ++ codes "/messages")) ≡ some list_messages
  unfolding first_match
  messages_path =
      dispatch-parameter "GET" list_messages (codes "conversations") [] (codes "messages" ∷ []) refl
        refl (λ x t. refl) d h

-- What a call needs to be made: its query is enabled, and the id of a document is fit for a path.
abbrev pub IsMade : Call → Type 0
IsMade (reads (pinned_document none)) = ⊥
IsMade (reads (pinned_document (some s))) = IsParameter (codes s)
IsMade (reads (content_use pinned none)) = ⊥
IsMade (reads (content_use pinned (some s))) = IsParameter (codes s)
IsMade (reads (chat_messages none)) = ⊥
IsMade (reads (user_detail none)) = ⊥
IsMade c = Unit

declared-dispatch :
    (m : String) (t : Text) (h : Handler) → dispatch m t ≡ some h → declared m t ≡ answer h
unfolding declared
declared-dispatch m t h e = ap (λ o. elim o [ none ↦ none | some k ↦ answer k ]) e

module _ (Score Unknown : Type 0) where
  abbrev Declares : Call → Type 0
  Declares c = declared (call_method c) (call_path Score Unknown c) ≡ some (served c)

  query-declared : (u : QueryUse) → IsMade (reads u) → Declares (reads u)
  unfolding declared dispatch query first_match segments
  query-declared documents_list i = refl
  query-declared dashboard_documents i = refl
  query-declared (pinned_document none) i = absurd i
  query-declared (pinned_document (some s)) i =
      declared-dispatch "GET" (codes "/documents/" ++ codes s) get_document
        (document_path (codes s) i)
  query-declared (content_use pinned none) i = absurd i
  query-declared (content_use pinned (some s)) i =
      declared-dispatch "GET" (codes "/documents/" ++ (codes s ++ codes "/content"))
        get_document_content (content_path (codes s) i)
  query-declared chat_conversations i = refl
  query-declared dashboard_conversations i = refl
  query-declared (chat_messages none) i = absurd i
  query-declared (chat_messages (some n)) i =
      declared-dispatch "GET" (codes "/conversations/" ++ (decimal n ++ codes "/messages"))
        list_messages (messages_path (decimal n) (decimal-IsParameter n))
  query-declared chat_models i = refl
  query-declared documents_models i = refl
  query-declared stats_use i = refl
  query-declared dashboard_stats i = refl
  query-declared system_documents i = refl
  query-declared system_conversations i = refl
  query-declared system_messages i = refl
  query-declared system_query_logs i = refl
  query-declared users_list i = refl
  query-declared (user_detail none) i = absurd i
  query-declared (user_detail (some n)) i =
      declared-dispatch "GET" (codes "/admin/users/" ++ decimal n) admin_user_detail
        (user_path (decimal n) (decimal-IsParameter n))
  query-declared (support_threads true open_ticket) i = refl
  query-declared (support_threads true pending) i = refl
  query-declared (support_threads true resolved) i = refl
  query-declared (support_threads false status) i = refl

  -- Every call whose answer the client reads goes to a route of the server, and that route declares the shape of
  -- its answer as `served` has it; a call with the id of a document is for an id without slash and question
  -- mark.
  pub call-served :
      (c : Call) → IsMade c → declared (call_method c) (call_path Score Unknown c) ≡ some (served c)
  unfolding declared dispatch first_match segments
  call-served (reads u) i = query-declared u i
  call-served fetches_csrf i = refl
  call-served loads_user i = refl
  call-served logs_in i = refl
  call-served registers i = refl
  call-served creates_conversation i = refl
  call-served uploads i = refl

-- ===== src/Chat.antt =====
-- frontend/src/pages/Chat.tsx: the state of the page, its two effects that keep the selected
-- conversation in step with what is shown, and the handlers. Sending is in `Chat.Sending`.
pub mod Selection
pub mod Sending
pub mod Session
pub mod Streaming
pub mod View
pub mod Scope
pub mod Interleaving
use crag_project.Base.{
  ℕ, String, Bool, true, false, not, ◌&&◌, ◌||◌, Option, none, some, get_or, List, [], ◌∷◌, ◌++◌,
  str_eq, any, filter, ◌=?◌, ◌==◌, if◌then◌else◌,
}
use crag_project.Text.{Text, codes, is_empty, trim}
use crag_project.Text.Decimal.{decimal}
use crag_project.Types.{Conversation, DocumentRecord}
use crag_project.Api.Errors.{Reply, ok, failed}
use crag_project.Ui.{
  Query, Effect, send, toast_success, toast_error, invalidate, set_search_params, str, num, Field,
  string_field,
}

-- The component's `useState`s and `autoCreatedDoc`; `Cache` is React Query's cache of messages.
pub record ChatState (Cache : Type 0) : Type 0 where
  pub active_id : Option ℕ
  pub draft : Text
  pub viewer_open : Bool
  pub stream_text : Option Text
  pub auto_created : Option String
  pub cache : Cache

-- A string that is there and not empty: `if (documentParam)`.
unfoldable pub truthy : Option String → Bool
truthy none = false
truthy (some s) = not (str_eq s "")

-- `c.document_id === documentParam`
unfoldable pub same_document : Option String → Option String → Bool
same_document none none = true
same_document none (some b) = false
same_document (some a) none = false
same_document (some a) (some b) = str_eq a b

-- The threads of the pinned document, or the general ones.
unfoldable pub visible : Option String → List Conversation → List Conversation
unfolding truthy same_document
visible param all =
    if truthy param
    then filter (λ (c : Conversation). same_document c.document_id param) all
    else filter (λ (c : Conversation). not (truthy c.document_id)) all

-- The body of `api.post('/conversations', …)`.
unfoldable pub create_fields : Option String → Option DocumentRecord → List Field
unfolding truthy
create_fields param pinned =
    (if truthy param
      then elim pinned [ none ↦ [] | some d ↦ string_field "title" d.file_name ∷ [] ]
      else [])
    ++ (elim param [ none ↦ [] | some p ↦ string_field "document_id" p ∷ [] ])

-- `createConversation.mutate()`
abbrev pub create : Option String → Option DocumentRecord → Effect
create param pinned = send "POST" (codes "/conversations") (create_fields param pinned)

abbrev pub conversation_url : ℕ → Text
conversation_url id = codes "/conversations/" ++ decimal id

-- Is the thread among these?
abbrev pub shows : ℕ → List Conversation → Bool
shows id cs = any (λ (c : Conversation). c.id == id) cs

-- The id that the effect below selects, from the visible threads and the one selected so far.
unfoldable pub select : List Conversation → Option ℕ → Option ℕ
select [] active = none
select (c ∷ cs) none = some c.id
select (c ∷ cs) (some id) = if shows id (c ∷ cs) then some id else some c.id

-- `deleteConversation.mutate(id)`
abbrev pub delete : ℕ → Effect
delete id = send "DELETE" (conversation_url id) []

-- `pinnedDocument`'s `queryFn`
unfoldable pub load_pinned : Reply DocumentRecord → Option DocumentRecord × List Effect
load_pinned (ok d) = (some d, [])
load_pinned (failed err) =
    (none, toast_error (codes "That document is no longer available") ∷ set_search_params ∷ [])

module _ {Cache : Type 0} where
  -- The effect that opens the viewer when a document is pinned.
  unfoldable pub open_viewer : Option String → ChatState Cache → ChatState Cache
  open_viewer param s = if truthy param then record s { viewer_open = true } else s

  -- The effect that creates a thread for a pinned document that has none yet.
  unfoldable pub auto_create :
      Option String
      → Query (List Conversation)
      → Option DocumentRecord
      → ChatState Cache
      → ChatState Cache × List Effect
  unfolding truthy same_document
  auto_create param q pinned s =
      if not (truthy param)
      then (record s { auto_created = none }, [])
      else if q.is_loading
      then (s, [])
      else let exists =
          any (λ (c : Conversation). same_document c.document_id param) (get_or q.result []) in
        if not exists && not (same_document s.auto_created param)
        then (record s { auto_created = param }, create param pinned ∷ [])
        else (s, [])

  -- The effect that keeps the selected thread among the visible ones.
  unfoldable pub keep_active :
      Option String → Option (List Conversation) → ChatState Cache → ChatState Cache
  unfolding select
  keep_active param none s = s
  keep_active param (some all) s = record s { active_id = select (visible param all) s.active_id }

  -- `createConversation`'s `onSuccess`
  unfoldable pub created : Conversation → ChatState Cache → ChatState Cache × List Effect
  created c s = (record s { active_id = some c.id }, invalidate (str "conversations" ∷ []) ∷ [])

  -- `deleteConversation`'s `onSuccess`
  unfoldable pub deleted : ChatState Cache → ChatState Cache × List Effect
  deleted s = (
    record s { active_id = none },
    invalidate (str "conversations" ∷ [])
        ∷ ((elim s.active_id [
          | none ↦ []
          | some id ↦ invalidate (str "messages" ∷ num id ∷ []) ∷ []
        ])
            ++ toast_success "Conversation deleted" ∷ []),
  )

  -- `onSubmit`: the content that `sendMessage` is called with, if it is called.
  unfoldable pub on_submit : Bool → ChatState Cache → ChatState Cache × Option Text
  unfolding trim
  on_submit is_pending s =
      let content = trim s.draft in
      elim s.active_id [
        | none ↦ (s, none)
        | some id ↦
            if is_empty content || is_pending
            then (s, none)
            else (record s { draft = [] }, some content)
      ]

-- ===== src/Chat/View.antt =====
-- What frontend/src/pages/Chat.tsx shows: the list of threads, the header, the messages with the
-- answer that streams in, the form, and the viewer of the pinned document. `at_least` and `percent` stand for
-- the browser's arithmetic on scores: `score >= n / 10` and `(score * 100).toFixed(0)`.
use crag_project.Base.{
  ℕ, String, Bool, true, false, not, ◌||◌, Option, none, some, get_or, is_some, List, [], ◌∷◌, ◌++◌,
  ◌=?◌, str_eq, find?, if◌then◌else◌,
}
use crag_project.Text.{Text, codes, is_empty, trim}
use crag_project.Types.{
  Conversation, DocumentRecord, DocumentContent, Message, MessageRole, user, assistant, ModelsInfo,
}
use crag_project.Ui.{
  Query, Mutation, Effect, Variant, success, warning, destructive, outline, Widget, words, text,
  badge, button, input, skeleton, when, each,
}
use crag_project.Chat.{ChatState, on_submit, truthy, visible, create, delete}

pub data ChatEvent : Type 0 where
  new_conversation : ChatEvent
  select_thread : ℕ → ChatEvent
  delete_thread : ℕ → ChatEvent
  toggle_viewer : ChatEvent
  close_viewer : ChatEvent
  set_draft : Text → ChatEvent
  submit : ChatEvent

-- The calls of this page: a message that is sent (`sendMessage.mutate`) beside those that every page
-- makes.
pub data ChatCall : Type 0 where
  effect : Effect → ChatCall
  send_content : Text → ChatCall

module _ {Cache : Type 0} where
  -- The handlers of the elements, `onSubmit` included.
  unfoldable pub on_click :
      Option String
      → Option DocumentRecord
      → Bool
      → ChatState Cache
      → ChatEvent
      → ChatState Cache × List ChatCall
  on_click param pinned is_pending s new_conversation = (s, effect (create param pinned) ∷ [])
  on_click param pinned is_pending s (select_thread id) = (record s { active_id = some id }, [])
  on_click param pinned is_pending s (delete_thread id) = (s, effect (delete id) ∷ [])
  on_click param pinned is_pending s toggle_viewer =
      (record s { viewer_open = not s.viewer_open }, [])
  on_click param pinned is_pending s close_viewer = (record s { viewer_open = false }, [])
  on_click param pinned is_pending s (set_draft t) = (record s { draft = t }, [])
  on_click param pinned is_pending s submit =
      let (s', content) = on_submit is_pending s in
      (s', elim content [ none ↦ [] | some c ↦ send_content c ∷ [] ])

  -- `sendMessage.isPending || activeId === null || !draft.trim()`
  unfoldable pub submit_disabled : Bool → ChatState Cache → Bool
  submit_disabled is_pending s =
      is_pending || (not (is_some s.active_id) || is_empty (trim s.draft))

-- `statusMeta` of this page.
unfoldable pub document_meta : String → Option (String × Variant)
document_meta status =
    if str_eq status "ready"
    then some ("Ready", success)
    else if str_eq status "pending"
    then some ("Pending", warning)
    else if str_eq status "queued"
    then some ("Queued", warning)
    else if str_eq status "running"
    then some ("Indexing", warning)
    else if str_eq status "failed"
    then some ("Failed", destructive)
    else none

unfoldable pub thread_row : Conversation → List (Widget ChatEvent)
thread_row c =
    button (codes c.title) false (select_thread c.id)
    ∷ button (codes "Delete conversation") false (delete_thread c.id)
    ∷ []

unfoldable pub thread_list : List Conversation → List (Widget ChatEvent)
thread_list [] = words "No conversations yet. Start a new one to begin." ∷ []
thread_list (c ∷ cs) = each thread_row (c ∷ cs)

abbrev pub model_row : String → String → List (Widget ChatEvent)
model_row label model = words label ∷ words model ∷ []

unfoldable pub models_menu : Option ModelsInfo → List (Widget ChatEvent)
models_menu none = []
models_menu (some m) =
    let chat = m.chat in
    words chat.generation_model
    ∷ words "Chat models"
    ∷ words chat.provider
    ∷ (model_row "Answers" chat.generation_model
        ++ (model_row "Embeddings" chat.embedding_model
            ++ (model_row "Rerank" chat.rerank_model ++ model_row "Grading" chat.grader_model)))

unfoldable pub delete_button : Option ℕ → List (Widget ChatEvent)
delete_button none = []
delete_button (some id) = button (codes "Delete") false (delete_thread id) ∷ []

-- What stands under the title.
unfoldable pub state_words : Bool → Option Text → String
state_words is_pending stream_text =
    if is_pending
    then (if is_empty (get_or stream_text []) then "Thinking…" else "Answering…")
    else "Ready to answer"

-- The answer so far, or three dots.
unfoldable pub pending_answer : Bool → Option Text → List (Widget ChatEvent)
pending_answer is_pending stream_text = when is_pending (
    if is_empty (get_or stream_text []) then skeleton 3 ∷ [] else text (get_or stream_text []) ∷ [])

unfoldable pub viewer_body : Bool → Option Text → List (Widget ChatEvent)
viewer_body true content = skeleton 8 ∷ []
viewer_body false content =
    if is_empty (get_or content [])
    then words "No preview available for this document yet." ∷ []
    else text (get_or content []) ∷ []

-- `documentContent.data?.text ?? null`
unfoldable pub content_text : Option DocumentContent → Option Text
content_text none = none
content_text (some c) = c.text

-- `DocumentViewer`
unfoldable pub document_viewer : DocumentRecord → Option Text → Bool → List (Widget ChatEvent)
document_viewer d content content_loading =
    let (label, variant) = get_or (document_meta d.status) (d.status, outline) in
    words d.file_name
    ∷ badge variant label
    ∷ button (codes "Close document viewer") false close_viewer
    ∷ viewer_body content_loading content

-- The badge of an answer's confidence.
unfoldable pub confidence :
    {Score : Type 0} → (ℕ → Score → Bool) → (Score → Text) → Option Score → List (Widget ChatEvent)
confidence at_least percent none = []
confidence at_least percent (some score) =
    badge (if at_least 7 score then success else if at_least 4 score then warning else destructive)
      "Confidence"
    ∷ text (percent score ++ codes "%")
    ∷ []

-- The libraries' state at one rendering.
pub record Snapshot (M : Type 0) : Type 0 where
  pub conversations : Query (List Conversation)
  pub messages : Query (List M)
  pub pinned : Option DocumentRecord
  pub content : Query DocumentContent
  pub models : Option ModelsInfo
  pub create_mutation : Mutation
  pub send_mutation : Mutation

module _ {Score Unknown : Type 0} (at_least : ℕ → Score → Bool) (percent : Score → Text)
    (format_date : String → Text) where
  -- What stands after the date.
  unfoldable pub notes : MessageRole → Message Score Unknown → List (Widget ChatEvent)
  notes user m = []
  notes assistant m =
      confidence at_least percent m.confidence_score
      ++ when m.web_search_used (words "web search used" ∷ [])

  unfoldable pub message_row : Message Score Unknown → List (Widget ChatEvent)
  message_row m = text m.content ∷ text (format_date m.created_at) ∷ notes m.role m

  unfoldable pub message_list :
      Option ℕ → Mutation → List (Message Score Unknown) → List (Widget ChatEvent)
  message_list none create_mutation ms =
      words "Ask your documents anything"
      ∷ words "Select a conversation from the list, or start a new one to begin."
      ∷ button (codes "New conversation") create_mutation.is_pending new_conversation
      ∷ []
  message_list (some id) create_mutation [] =
      words "Ask a question about your uploaded documents." ∷ []
  message_list (some id) create_mutation (m ∷ ms) = each message_row (m ∷ ms)

  module _ {Cache : Type 0} (param : Option String) (q : Snapshot (Message Score Unknown))
      (s : ChatState Cache) where
    unfoldable pub side_bar : List (Widget ChatEvent)
    side_bar =
        button (codes "New conversation") q.create_mutation.is_pending new_conversation
        ∷ (if q.conversations.is_loading
            then skeleton 3 ∷ []
            else thread_list (visible param (get_or q.conversations.result [])))

    unfoldable pub title : String
    title =
        elim (find? (λ (c : Conversation). s.active_id =? c.id)
          (get_or q.conversations.result [])) [ none ↦ "Conversation" | some c ↦ c.title ]

    unfoldable pub header : List (Widget ChatEvent)
    header =
        words title
        ∷ words (state_words q.send_mutation.is_pending s.stream_text)
        ∷ (when (truthy param) (
              button (codes (if s.viewer_open then "Hide document" else "View document")) false
                toggle_viewer
              ∷ [])
            ++ (models_menu q.models ++ delete_button s.active_id))

    unfoldable pub form : List (Widget ChatEvent)
    form =
        input s.draft set_draft
        ∷ button (codes "Send message") (submit_disabled q.send_mutation.is_pending s) submit
        ∷ []

    -- The viewer, once for wide screens and once, over a backdrop that closes it, for narrow ones.
    unfoldable pub viewer : Option DocumentRecord → List (Widget ChatEvent)
    viewer none = []
    viewer (some d) =
        let shown = document_viewer d (content_text q.content.result) q.content.is_loading in
        when s.viewer_open (shown ++ button (codes "") false close_viewer ∷ shown)

    unfoldable pub view : List (Widget ChatEvent)
    view =
        side_bar
        ++ (header
            ++ (message_list s.active_id q.create_mutation (get_or q.messages.result [])
                ++ (pending_answer q.send_mutation.is_pending s.stream_text
                    ++ (form ++ viewer q.pinned))))

-- ===== src/Chat/Scope.antt =====
-- The threads that the page of frontend/src/pages/Chat.tsx offers to open or to delete, and when its form
-- can be submitted.
use mathlib.Core.List.{append_assoc}
use crag_project.Base.{
  ℕ, String, Bool, true, false, not, Option, none, some, get_or, is_some, List, [], ◌∷◌, ◌++◌,
  ==_refl, ◌≡◌, refl, arith, All, sym, ap, ◌∙◌,
}
use crag_project.Text.{Text}
use crag_project.Types.{
  Conversation, DocumentRecord, Message, ModelsInfo, user, assistant, MessageRole,
}
use crag_project.Ui.{Mutation, when, skeleton, each}
use crag_project.Ui.Clicks.{
  EveryClick, EveryClick-nil, EveryClick-append, EveryClick-button, EveryClick-if, click_rules,
}
use crag_project.Chat.{ChatState, truthy, visible, shows, keep_active, on_submit}
use crag_project.Chat.Selection.{IsInStep, keep_active-IsInStep}
use crag_project.Chat.View.{
  ChatEvent, new_conversation, select_thread, delete_thread, toggle_viewer, close_viewer, set_draft,
  submit, submit_disabled, thread_row, thread_list, models_menu, delete_button, document_viewer,
  viewer_body, viewer, side_bar, header, form, view, message_list, message_row, notes, confidence,
  pending_answer, Snapshot,
}

-- A thread that is opened or deleted is one of these.
abbrev pub IsScoped : List Conversation → ChatEvent → Type 0
IsScoped cs (select_thread id) = shows id cs ≡ true
IsScoped cs (delete_thread id) = shows id cs ≡ true
IsScoped cs new_conversation = Unit
IsScoped cs toggle_viewer = Unit
IsScoped cs close_viewer = Unit
IsScoped cs (set_draft t) = Unit
IsScoped cs submit = Unit

-- A selected thread is one of these.
abbrev pub IsActiveIn : List Conversation → Option ℕ → Type 0
IsActiveIn cs none = Unit
IsActiveIn cs (some id) = shows id cs ≡ true

IsInStep-IsActiveIn : (cs : List Conversation) (a : Option ℕ) → IsInStep cs a → IsActiveIn cs a
IsInStep-IsActiveIn [] none h = tt
IsInStep-IsActiveIn [] (some id) h = ground (arith, h)
IsInStep-IsActiveIn (c ∷ cs) none h = tt
IsInStep-IsActiveIn (c ∷ cs) (some id) h = h

shows-append : (pre cs : List Conversation) (c : Conversation) → shows c.id (pre ++ c ∷ cs) ≡ true
shows-append [] cs c = rw (==_refl c.id) refl
shows-append (b ∷ pre) cs c = ground (arith, shows-append pre cs c)

-- Each of these threads is one of a list that holds them behind others.
All-shows :
    (pre cs all : List Conversation)
    → pre ++ cs ≡ all
    → All (λ (c : Conversation). shows c.id all ≡ true) cs
All-shows pre [] all h = tt
All-shows pre (c ∷ cs) all h = (
  ap (shows c.id) (sym h) ∙ shows-append pre cs c,
  All-shows (pre ++ c ∷ []) cs all (append_assoc pre (c ∷ []) cs ∙ h),
)

-- The button of the form is enabled exactly when submitting the form sends something.
pub submit_disabled-on_submit :
    {Cache : Type 0} (pending : Bool) (s : ChatState Cache)
    → submit_disabled pending s ≡ not (is_some (on_submit pending s).1)
unfolding submit_disabled on_submit
submit_disabled-on_submit pending s = ground arith

module _ (all : List Conversation) where
  thread_row-IsScoped :
      (c : Conversation) → shows c.id all ≡ true → EveryClick (IsScoped all) (thread_row c)
  unfolding thread_row
  thread_row-IsScoped c h = search (click_rules, h) depth 12

  thread_rows-IsScoped :
      (cs : List Conversation)
      → All (λ (c : Conversation). shows c.id all ≡ true) cs
      → EveryClick (IsScoped all) (each thread_row cs)
  thread_rows-IsScoped [] h = EveryClick-nil
  thread_rows-IsScoped (c ∷ cs) (h, hs) =
      EveryClick-append (thread_row c) (each thread_row cs) (thread_row-IsScoped c h)
        (thread_rows-IsScoped cs hs)

  thread_list-IsScoped :
      (cs : List Conversation)
      → All (λ (c : Conversation). shows c.id all ≡ true) cs
      → EveryClick (IsScoped all) (thread_list cs)
  unfolding thread_list
  thread_list-IsScoped [] h = search click_rules depth 8
  thread_list-IsScoped (c ∷ cs) h = thread_rows-IsScoped (c ∷ cs) h

  delete_button-IsScoped :
      (a : Option ℕ) → IsActiveIn all a → EveryClick (IsScoped all) (delete_button a)
  unfolding delete_button
  delete_button-IsScoped none h = EveryClick-nil
  delete_button-IsScoped (some id) h = search (click_rules, h) depth 8

  models_menu-IsScoped : (m : Option ModelsInfo) → EveryClick (IsScoped all) (models_menu m)
  unfolding models_menu
  models_menu-IsScoped none = EveryClick-nil
  models_menu-IsScoped (some m) = search click_rules depth 20

  pending_answer-IsScoped :
      (b : Bool) (t : Option Text) → EveryClick (IsScoped all) (pending_answer b t)
  unfolding pending_answer
  pending_answer-IsScoped b t = search click_rules depth 12

  viewer_body-IsScoped : (b : Bool) (t : Option Text) → EveryClick (IsScoped all) (viewer_body b t)
  unfolding viewer_body
  viewer_body-IsScoped true t = search click_rules depth 12
  viewer_body-IsScoped false t = search click_rules depth 12

  document_viewer-IsScoped :
      (d : DocumentRecord) (t : Option Text) (b : Bool)
      → EveryClick (IsScoped all) (document_viewer d t b)
  unfolding document_viewer
  document_viewer-IsScoped d t b = search (click_rules, viewer_body-IsScoped b t) depth 12

  confidence-IsScoped :
      {Score : Type 0} (at_least : ℕ → Score → Bool) (percent : Score → Text) (c : Option Score)
      → EveryClick (IsScoped all) (confidence at_least percent c)
  unfolding confidence
  confidence-IsScoped at_least percent none = EveryClick-nil
  confidence-IsScoped at_least percent (some c) = search click_rules depth 12

module _ {Score Unknown : Type 0} (at_least : ℕ → Score → Bool) (percent : Score → Text)
    (format_date : String → Text) (all : List Conversation) where
  notes-IsScoped :
      (r : MessageRole) (m : Message Score Unknown)
      → EveryClick (IsScoped all) (notes at_least percent format_date r m)
  unfolding notes
  notes-IsScoped user m = EveryClick-nil
  notes-IsScoped assistant m =
      EveryClick-append _ _ (confidence-IsScoped all at_least percent m.confidence_score)
        (search click_rules depth 8)

  message_row-IsScoped :
      (m : Message Score Unknown)
      → EveryClick (IsScoped all) (message_row at_least percent format_date m)
  unfolding message_row
  message_row-IsScoped m = search (click_rules, notes-IsScoped m.role m) depth 12

  message_list-IsScoped :
      (a : Option ℕ) (create : Mutation) (ms : List (Message Score Unknown))
      → EveryClick (IsScoped all) (message_list at_least percent format_date a create ms)
  unfolding message_list
  message_list-IsScoped none create ms = search click_rules depth 12
  message_list-IsScoped (some id) create [] = search click_rules depth 12
  message_list-IsScoped (some id) create (m ∷ ms) =
      search (click_rules, message_row-IsScoped) depth 12

  module _ {Cache : Type 0} (param : Option String) (q : Snapshot (Message Score Unknown)) where
    header-IsScoped :
        (s : ChatState Cache)
        → IsActiveIn all s.active_id
        → EveryClick (IsScoped all) (header at_least percent format_date param q s)
    unfolding header
    header-IsScoped s h = record {
      at =
          let toggle : EveryClick (IsScoped all) (when (truthy param) _) =
            search click_rules depth 8 in
          (EveryClick-append _ _ toggle (
            EveryClick-append _ _ (models_menu-IsScoped all q.models)
              (delete_button-IsScoped all s.active_id h))).at;
    }

    viewer-IsScoped :
        (s : ChatState Cache) (d : Option DocumentRecord)
        → EveryClick (IsScoped all) (viewer at_least percent format_date param q s d)
    unfolding viewer
    viewer-IsScoped s none = EveryClick-nil
    viewer-IsScoped s (some d) = search (click_rules, document_viewer-IsScoped) depth 16

    form-IsScoped :
        (s : ChatState Cache)
        → EveryClick (IsScoped all) (form at_least percent format_date param q s)
    unfolding form
    form-IsScoped s = search click_rules depth 16

module _ {Cache Score Unknown : Type 0} (at_least : ℕ → Score → Bool) (percent : Score → Text)
    (format_date : String → Text) (param : Option String)
    (q : Snapshot (Message Score Unknown)) where
  side_bar-IsScoped :
      (all : List Conversation) (s : ChatState Cache)
      → q.conversations.result ≡ some all
      → EveryClick (IsScoped (visible param all)) (side_bar at_least percent format_date param q s)
  unfolding side_bar
  side_bar-IsScoped all s loaded = rw loaded (
      EveryClick-button _ _ new_conversation _ tt (
        EveryClick-if q.conversations.is_loading (skeleton 3 ∷ []) _ (search click_rules depth 8) (
          thread_list-IsScoped (visible param all) (visible param all)
            (All-shows [] (visible param all) (visible param all) refl))))

  -- Once the effect of selection has run on the threads that the page shows, whatever was selected
  -- before, every thread that the page offers to open or to delete is a visible one: a thread of the pinned
  -- document, or one without a document if none is pinned.
  pub view-IsScoped :
      (all : List Conversation) (s : ChatState Cache)
      → q.conversations.result ≡ some all
      → EveryClick
          (IsScoped (visible param all))
          (view at_least percent format_date param q (keep_active param (some all) s))
  unfolding view
  view-IsScoped all s loaded =
      let now = keep_active param (some all) s in
      let vis = visible param all in
      let in_step = IsInStep-IsActiveIn vis now.active_id (keep_active-IsInStep param all s).0 in
      EveryClick-append _ _ (side_bar-IsScoped all now loaded) (
        EveryClick-append _ _ (header-IsScoped at_least percent format_date vis param q now in_step)
          (EveryClick-append _ _
            (message_list-IsScoped at_least percent format_date vis now.active_id q.create_mutation
              (get_or q.messages.result []))
            (EveryClick-append _ _
              (pending_answer-IsScoped vis q.send_mutation.is_pending now.stream_text)
              (EveryClick-append _ _ (form-IsScoped at_least percent format_date vis param q now)
                (viewer-IsScoped at_least percent format_date vis param q now q.pinned)))))

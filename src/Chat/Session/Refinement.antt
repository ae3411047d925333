-- ===== src/Chat/Session/Refinement.antt =====
-- The session of frontend/src/pages/Chat.tsx and what its history says of it.
use crag_project.Base.{
  ℕ, String, false, Option, some, get_or, is_some, List, [], ◌++◌, ◌≡◌, All, refl, inl, inr,
  Bool-cases, Option-cases,
}
use crag_project.Text.{Text, is_empty, trim}
use crag_project.Types.{DocumentRecord, Message}
use crag_project.Chat.{ChatState, created, deleted, on_submit}
use crag_project.Chat.Sending.{MessageCache}
use crag_project.Chat.View.{
  ChatEvent, new_conversation, select_thread, delete_thread, toggle_viewer, close_viewer, set_draft,
  submit, on_click,
}
use crag_project.Chat.Session.History.{asking, answer, thread_log, IsOneByOne, IsProper}
use crag_project.Chat.Session.Silent.{auto_create-silent, open_viewer-silent, keep_active-silent}
use crag_project.Chat.Session.{
  Seen, Session, mutate, click, Steps, mounted, clicked, viewer_effect, creation_effect,
  selection_effect, creation_done, deletion_done, part_came, ended, list_came,
}
use crag_project.Chat.Session.Agrees.{
  IsCache, Agrees, silent-Agrees, came-Agrees, ended-Agrees, fetched-Agrees, begun-Agrees,
}

module _ {Score Unknown : Type 0} (messages : MessageCache (Message Score Unknown))
    (laws : IsCache messages) (first : ChatState messages.Cache) (k : ℕ) where
  open messages use {Cache, get, set}

  -- What a click leaves of a session and adds to its history.
  abbrev After :
      Session Cache × List (Seen (Message Score Unknown))
      → List (Seen (Message Score Unknown))
      → Type 0
  After (σ, seen) h = Agrees messages first k σ (seen ++ h)

  mutate-Agrees :
      (now : ℕ) (iso : String) (t : Text) (σ : Session Cache)
      (h : List (Seen (Message Score Unknown))) (s : ChatState Cache) (id : ℕ)
      → s.active_id ≡ some id
      → is_some σ.sending ≡ false
      → s.cache ≡ σ.page.cache
      → is_empty t ≡ false
      → Agrees messages first k σ h
      → After (mutate messages now iso t (record σ { page = s })) h
  unfolding mutate
  mutate-Agrees now iso t σ h s id q p f e a =
      rw (q, mutate) (begun-Agrees messages first k laws σ h s id now iso t p f e a)

  submit-Agrees :
      (now : ℕ) (iso : String) (param : Option String) (pinned : Option DocumentRecord)
      (σ : Session Cache) (h : List (Seen (Message Score Unknown)))
      → Agrees messages first k σ h
      → After (click messages now iso param pinned submit σ) h
  unfolding click on_click on_submit
  submit-Agrees now iso param pinned σ h a = elim (Option-cases σ.page.active_id) [
    | inl n ↦ rw (n, click, on_click, on_submit) a
    | inr (id, q) ↦ elim (Bool-cases (is_empty (trim σ.page.draft))) [
      | inl e ↦ rw (q, e, click, on_click, on_submit) a
      | inr e ↦ elim (Bool-cases (is_some σ.sending)) [
        | inl p ↦ rw (q, e, p, click, on_click, on_submit) a
        | inr p ↦
            rw (q, e, p, click, on_click, on_submit)
              (mutate-Agrees now iso (trim σ.page.draft) σ h (record σ.page { draft = [] }) id q p
                refl e a)
      ]
    ]
  ]

  click-Agrees :
      (now : ℕ) (iso : String) (param : Option String) (pinned : Option DocumentRecord)
      (e : ChatEvent) (σ : Session Cache) (h : List (Seen (Message Score Unknown)))
      → Agrees messages first k σ h
      → After (click messages now iso param pinned e σ) h
  unfolding click on_click
  click-Agrees now iso param pinned new_conversation σ h a = a
  click-Agrees now iso param pinned (select_thread id) σ h a =
      silent-Agrees messages first k σ h _ refl refl a
  click-Agrees now iso param pinned (delete_thread id) σ h a = a
  click-Agrees now iso param pinned toggle_viewer σ h a =
      silent-Agrees messages first k σ h _ refl refl a
  click-Agrees now iso param pinned close_viewer σ h a =
      silent-Agrees messages first k σ h _ refl refl a
  click-Agrees now iso param pinned (set_draft t) σ h a =
      silent-Agrees messages first k σ h _ refl refl a
  click-Agrees now iso param pinned submit σ h a = submit-Agrees now iso param pinned σ h a

  Steps-Agrees :
      (σ : Session Cache) (h : List (Seen (Message Score Unknown)))
      → Steps messages first σ h
      → Agrees messages first k σ h
  Steps-Agrees _ _ mounted = record {
    sending = refl;
    streaming = refl;
    log = refl;
    one_by_one = tt;
    proper = tt;
  }
  Steps-Agrees _ _ (clicked {σ} {h} now iso param pinned e r) =
      click-Agrees now iso param pinned e σ h (Steps-Agrees σ h r)
  Steps-Agrees _ _ (viewer_effect {σ} {h} param r) =
      let (e, f) = open_viewer-silent param σ.page in
      silent-Agrees messages first k σ h _ e f (Steps-Agrees σ h r)
  Steps-Agrees _ _ (creation_effect {σ} {h} param q pinned r) =
      let (e, f) = auto_create-silent param q pinned σ.page in
      silent-Agrees messages first k σ h _ e f (Steps-Agrees σ h r)
  Steps-Agrees _ _ (selection_effect {σ} {h} param all r) =
      let (e, f) = keep_active-silent param all σ.page in
      silent-Agrees messages first k σ h _ e f (Steps-Agrees σ h r)
  Steps-Agrees _ _ (creation_done {σ} {h} c r) =
      silent-Agrees messages first k σ h _ (unfold created in refl) (unfold created in refl)
        (Steps-Agrees σ h r)
  Steps-Agrees _ _ (deletion_done {σ} {h} r) =
      silent-Agrees messages first k σ h _ (unfold deleted in refl) (unfold deleted in refl)
        (Steps-Agrees σ h r)
  Steps-Agrees _ _ (part_came {σ} {h} id e p r) =
      came-Agrees messages first k σ h id e p (Steps-Agrees σ h r)
  Steps-Agrees _ _ (ended {σ} {h} id failed p r) =
      ended-Agrees messages first k σ h id failed p (Steps-Agrees σ h r)
  Steps-Agrees _ _ (list_came {σ} {h} id l r) =
      fetched-Agrees messages first k laws σ h id l (Steps-Agrees σ h r)

  -- Whatever the user does and the server sends, in whatever order, the page agrees with what was
  -- seen from outside: whether and in which thread a question is being answered, the answer so
  -- far, and the messages of every thread, which are those fetched last and the questions asked
  -- since. Clicks on other threads, the creation and the deletion of threads, and the page's
  -- effects change none of it, and a question is only asked after the end of the one before, is
  -- not blank, and is filed under its thread. The cache is taken to give back what is set in it.
  pub Steps-refine :
      (σ : Session Cache) (h : List (Seen (Message Score Unknown)))
      → Steps messages first σ h
      → (σ.sending ≡ asking h)
        × (σ.page.stream_text ≡ answer first.stream_text h)
        × (get_or (get σ.page.cache k) [] ≡ thread_log (get_or (get first.cache k) []) k h)
        × IsOneByOne h
        × All IsProper h
  Steps-refine σ h r =
      let a = Steps-Agrees σ h r in (a.sending, a.streaming, a.log, a.one_by_one, a.proper)

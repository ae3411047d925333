-- ===== src/Chat/Session.antt =====
-- The chat page of frontend/src/pages/Chat.tsx over time: what the user does and what comes from the
-- server, in any order. A message that is being sent takes many steps, between which the user goes
-- on. That React Query in the end drops cached lists that no page shows is left out.
pub mod History
pub mod Silent
pub mod Agrees
pub mod Refinement
pub mod Answers
pub mod Sends
use crag_project.Base.{
  ℕ, String, Bool, true, false, Option, none, some, is_some, List, [], ◌∷◌, ◌++◌, ◌≡◌,
}
use crag_project.Text.{Text}
use crag_project.Types.{Conversation, DocumentRecord, Message}
use crag_project.Api.Stream.{StreamEvent, resolved, rejected}
use crag_project.Ui.{Query}
use crag_project.Chat.{ChatState, open_viewer, auto_create, keep_active, created, deleted}
use crag_project.Chat.Sending.{MessageCache, optimistic, begin_send, on_event, settle}
use crag_project.Chat.View.{ChatEvent, ChatCall, effect, send_content, on_click}

-- What is seen from outside the page: a question and its thread, a part of the answer, its end (whether
-- the promise was rejected), and a list of a thread's messages that React Query has fetched.
pub data Seen (M : Type 0) : Type 0 where
  asked : ℕ → M → Seen M
  came : StreamEvent M → Seen M
  over : Bool → Seen M
  fetched : ℕ → List M → Seen M

-- The page, and the thread of the message that is being sent: `sendMessage.isPending`.
pub record Session (Cache : Type 0) : Type 0 where
  pub page : ChatState Cache
  pub sending : Option ℕ

module _ {Score Unknown : Type 0} (messages : MessageCache (Message Score Unknown)) where
  open messages use {Cache, set}

  -- `sendMessage.mutate(content)` up to the call of `streamChat`, with what is seen of it.
  unfoldable pub mutate :
      ℕ → String → Text → Session Cache → Session Cache × List (Seen (Message Score Unknown))
  mutate now iso content σ = elim σ.page.active_id [
    | none ↦ (σ, [])
    | some id ↦ (
      record { page = begin_send messages id now iso content σ.page; sending = some id },
      asked id (optimistic now iso id content) ∷ [],
    )
  ]

  -- The calls of a handler.
  unfoldable pub perform :
      ℕ
      → String
      → List ChatCall
      → Session Cache
      → Session Cache × List (Seen (Message Score Unknown))
  unfolding mutate
  perform now iso [] σ = (σ, [])
  perform now iso (effect e ∷ calls) σ = perform now iso calls σ
  perform now iso (send_content c ∷ calls) σ = mutate now iso c σ

  -- A click, or Enter in the form.
  unfoldable pub click :
      ℕ
      → String
      → Option String
      → Option DocumentRecord
      → ChatEvent
      → Session Cache
      → Session Cache × List (Seen (Message Score Unknown))
  unfolding perform
  click now iso param pinned e σ =
      let (s, calls) = on_click param pinned (is_some σ.sending) σ.page e in
      perform now iso calls (record σ { page = s })

  -- The end of `streamChat`.
  unfoldable pub finish : Bool → ChatState Cache → ChatState Cache
  unfolding settle
  finish true s = (settle messages (rejected (s, []))).0
  finish false s = (settle messages (resolved (s, []))).0

  -- The states that the page can come to from `first`, with what was seen, the last first.
  pub data Steps (first : ChatState Cache)
      : Session Cache → List (Seen (Message Score Unknown)) → Type 0 where
    mounted : Steps first (record { page = first; sending = none }) []
    clicked :
        {σ : Session Cache} {h : List (Seen (Message Score Unknown))} (now : ℕ) (iso : String)
        (param : Option String) (pinned : Option DocumentRecord) (e : ChatEvent)
        → Steps first σ h
        → Steps first (click now iso param pinned e σ).0 ((click now iso param pinned e σ).1 ++ h)
    viewer_effect :
        {σ : Session Cache} {h : List (Seen (Message Score Unknown))} (param : Option String)
        → Steps first σ h
        → Steps first (record σ { page = open_viewer param σ.page }) h
    creation_effect :
        {σ : Session Cache} {h : List (Seen (Message Score Unknown))} (param : Option String)
        (q : Query (List Conversation)) (pinned : Option DocumentRecord)
        → Steps first σ h
        → Steps first (record σ { page = (auto_create param q pinned σ.page).0 }) h
    selection_effect :
        {σ : Session Cache} {h : List (Seen (Message Score Unknown))} (param : Option String)
        (all : Option (List Conversation))
        → Steps first σ h
        → Steps first (record σ { page = keep_active param all σ.page }) h
    creation_done :
        {σ : Session Cache} {h : List (Seen (Message Score Unknown))} (c : Conversation)
        → Steps first σ h
        → Steps first (record σ { page = (created c σ.page).0 }) h
    deletion_done :
        {σ : Session Cache} {h : List (Seen (Message Score Unknown))}
        → Steps first σ h
        → Steps first (record σ { page = (deleted σ.page).0 }) h
    part_came :
        {σ : Session Cache} {h : List (Seen (Message Score Unknown))} (id : ℕ)
        (e : StreamEvent (Message Score Unknown))
        → σ.sending ≡ some id
        → Steps first σ h
        → Steps first (record σ { page = (on_event messages id (σ.page, []) e).0 }) (came e ∷ h)
    ended :
        {σ : Session Cache} {h : List (Seen (Message Score Unknown))} (id : ℕ) (failed : Bool)
        → σ.sending ≡ some id
        → Steps first σ h
        → Steps first (record { page = finish failed σ.page; sending = none }) (over failed ∷ h)
    list_came :
        {σ : Session Cache} {h : List (Seen (Message Score Unknown))} (id : ℕ)
        (list : List (Message Score Unknown))
        → Steps first σ h
        → Steps first
            (record σ { page = record σ.page { cache = set σ.page.cache id list } })
            (fetched id list ∷ h)

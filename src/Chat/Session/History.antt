-- ===== src/Chat/Session/History.antt =====
-- What a user of the chat page, frontend/src/pages/Chat.tsx, can say of it from what has been seen: one
-- question at a time, its answer so far, and a list of messages for each thread.
use crag_project.Base.{
  ℕ, true, false, Option, none, some, get_or, is_some, List, [], ◌∷◌, ◌++◌, ◌≡◌, ◌==◌,
  if◌then◌else◌,
}
use crag_project.Text.{Text, is_empty}
use crag_project.Types.{Message}
use crag_project.Api.Stream.{delta, done, error}
use crag_project.Chat.Session.{Seen, asked, came, over, fetched}

module _ {M : Type 0} where
  -- The thread whose question is being answered.
  abbrev pub asking : List (Seen M) → Option ℕ
  asking [] = none
  asking (asked id m ∷ h) = some id
  asking (came e ∷ h) = asking h
  asking (over failed ∷ h) = none
  asking (fetched id l ∷ h) = asking h

  -- The answer so far: the parts since the question, or since the last frame.
  abbrev pub answer : Option Text → List (Seen M) → Option Text
  answer before [] = before
  answer before (asked id m ∷ h) = some []
  answer before (came (delta t) ∷ h) = some (get_or (answer before h) [] ++ t)
  answer before (came (done m) ∷ h) = none
  answer before (came (error d) ∷ h) = none
  answer before (over true ∷ h) = none
  answer before (over false ∷ h) = answer before h
  answer before (fetched id l ∷ h) = answer before h

  -- The messages of the thread `k`: those fetched last, and then the questions asked since.
  abbrev pub thread_log : List M → ℕ → List (Seen M) → List M
  thread_log before k [] = before
  thread_log before k (asked id m ∷ h) =
      let rest = thread_log before k h in if k == id then rest ++ m ∷ [] else rest
  thread_log before k (came e ∷ h) = thread_log before k h
  thread_log before k (over failed ∷ h) = thread_log before k h
  thread_log before k (fetched id l ∷ h) =
      let rest = thread_log before k h in if k == id then l else rest

  -- Each question is asked after the end of the one before, and parts come only between the two.
  abbrev pub IsOneByOne : List (Seen M) → Type 0
  IsOneByOne [] = Unit
  IsOneByOne (asked id m ∷ h) = (asking h ≡ none) × IsOneByOne h
  IsOneByOne (came e ∷ h) = (is_some (asking h) ≡ true) × IsOneByOne h
  IsOneByOne (over failed ∷ h) = (is_some (asking h) ≡ true) × IsOneByOne h
  IsOneByOne (fetched id l ∷ h) = IsOneByOne h

-- A question is not blank, and it is filed under the thread in which it was asked.
abbrev pub IsProper : {Score Unknown : Type 0} → Seen (Message Score Unknown) → Type 0
IsProper (asked id m) = (m.conversation_id ≡ id) × (is_empty m.content ≡ false)
IsProper (came e) = Unit
IsProper (over failed) = Unit
IsProper (fetched id l) = Unit

-- ===== src/Tests/Session.antt =====
-- The chat page over time at concrete data.
use crag_project.Base.{All, true, none, some, get_or, List, [], ◌∷◌, ◌++◌, ◌≡◌, refl, ==_refl}
use crag_project.Text.{codes}
use crag_project.Api.Stream.{delta}
use crag_project.Text.Decimal.{decimal}
use crag_project.Ui.{text}
use crag_project.Ui.Clicks.{In}
use crag_project.Chat.Interleaving.{Steps-answer_shown}
use crag_project.Chat.Sending.{on_event}
use crag_project.Chat.View.{Snapshot, view, select_thread, submit, on_click}
use crag_project.Chat.{on_submit}
use crag_project.Chat.Session.{
  mutate, Seen, came, Session, click, mounted, clicked, part_came, Steps,
}
use crag_project.Chat.Session.History.{asking, answer, thread_log, IsOneByOne, IsProper}
use crag_project.Chat.Session.Agrees.{IsCache}
use crag_project.Chat.Session.Refinement.{Steps-refine}
use crag_project.Tests.Data.{ChatMessage, messages, page, loaded, unloaded, idle, date, thread}

messages-IsCache : IsCache messages
messages-IsCache = record {
  get-set = λ c id l. rw (==_refl id) refl;
  get-set_other = λ c id k l e. rw e refl;
}

abbrev opened : Session messages.Cache
opened = record { page = page (some 4); sending = none }

-- A question in thread 4, and then a click on thread 5.
abbrev asking_4 : Session messages.Cache × List (Seen ChatMessage)
asking_4 = click messages 9 "2025-01-06" none none submit opened

abbrev at_5 : Session messages.Cache × List (Seen ChatMessage)
at_5 = click messages 9 "2025-01-06" none none (select_thread 5) asking_4.0

-- A part of the answer comes while thread 5 is selected.
abbrev answered_at_5 : Session messages.Cache
answered_at_5 = record at_5.0 {
  page = (on_event messages 4 (at_5.0.page, []) (delta (codes "hi"))).0;
}

abbrev history : List (Seen ChatMessage)
history = came (delta (codes "hi")) ∷ (at_5.1 ++ (asking_4.1 ++ []))

session-Steps : Steps messages (page (some 4)) answered_at_5 history
unfolding click on_click on_submit mutate
session-Steps = part_came 4 (delta (codes "hi")) refl (
    clicked 9 "2025-01-06" none none (select_thread 5)
      (clicked 9 "2025-01-06" none none submit mounted))

Steps-refine_example :
    (answered_at_5.sending ≡ asking history)
    × (answered_at_5.page.stream_text ≡ answer none history)
    × (get_or (answered_at_5.page.cache 4) [] ≡ thread_log [] 4 history)
    × IsOneByOne history
    × All IsProper history
Steps-refine_example =
    Steps-refine messages messages-IsCache (page (some 4)) 4 answered_at_5 history session-Steps

-- The question stands in its own thread alone, and the answer so far is on the page.
other_thread_is_empty : (thread_log [] 5 history ≡ []) × (answer none history ≡ some (codes "hi"))
unfolding click on_click on_submit mutate
other_thread_is_empty = (refl, refl)

-- Two threads, and an answer on its way.
abbrev two_threads : Snapshot ChatMessage
two_threads = record {
  conversations = loaded (thread 4 none ∷ thread 5 none ∷ []);
  messages = loaded [];
  pinned = none;
  content = unloaded;
  models = none;
  create_mutation = idle;
  send_mutation = record { is_pending = true };
}

-- The answer to the question in thread 4 stands below the messages of thread 5.
Steps-answer_shown_example :
    In (text (codes "hi")) (view (λ n s. true) decimal date none two_threads answered_at_5.page)
unfolding click on_click on_submit
Steps-answer_shown_example =
    Steps-answer_shown (λ n s. true) decimal date messages messages-IsCache (page (some 4)) none
      two_threads answered_at_5 history 4 (codes "hi") session-Steps refl refl refl refl

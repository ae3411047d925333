-- ===== src/Tests/Chat.antt =====
-- The chat page at concrete inputs.
use mathlib.Core.List.{flatten}
use crag_project.Base.{
  ◌++◌, map, ℕ, Bool, true, false, none, some, List, [], ◌∷◌, ◌≡◌, ◌≤◌, refl, length,
}
use crag_project.Text.{Text, codes, split, starts_with, join, trim}
use crag_project.Types.{Conversation}
use crag_project.Api.Stream.{Response, delta, done, chunk, broken}
use crag_project.Api.Cookie.{read_cookie}
use crag_project.Api.Csrf.{token_or, get_csrf, is_missing}
use crag_project.Ui.{toast_error}
use crag_project.Ui.Clicks.{EveryClick}
use crag_project.Chat.{truthy, same_document, visible, create, keep_active}
use crag_project.Chat.Selection.{
  IsInStep, creations, keep_active-IsInStep, creations-once, creations-exactly,
}
use crag_project.Chat.Sending.{optimistic, send_message}
use crag_project.Chat.Streaming.{
  finished, send_message-answered, send_message-unfinished, send_message-failure,
  send_message-no_token, send_message-broken,
}
use crag_project.Chat.Streaming.Reports.{reload, failure}
use crag_project.Chat.View.{Snapshot, view}
use crag_project.Chat.Scope.{IsScoped, view-IsScoped}
use crag_project.Chat.Session.{asked, came, over, Seen, Session, Steps, mounted}
use crag_project.Chat.Session.Answers.{streamed}
use crag_project.Chat.Session.Sends.{send_message-Answer}
use crag_project.Tests.Data.{
  ChatMessage, messages, page, thread, ready_document, loaded, unloaded, idle, answer_message,
  parse, decoder, decoder-IsStreaming, no_reply, jar, answer_with, date,
}
use crag_project.Tests.Stream.{payload, payload-IsPayload, end_payload, end_payload-IsPayload}

abbrev threads : List Conversation
threads = thread 4 none ∷ thread 5 (some "d1") ∷ thread 6 none ∷ []

keep_active-IsInStep_example :
    IsInStep (visible none threads) (keep_active none (some threads) (page (some 5))).active_id
    × (keep_active none (some threads) (keep_active none (some threads) (page (some 5)))
        ≡ keep_active none (some threads) (page (some 5)))
keep_active-IsInStep_example = keep_active-IsInStep none threads (page (some 5))

creations-once_example :
    length (
      creations
        (some "d2")
        ((loaded threads, none) ∷ (loaded threads, some ready_document) ∷ [])
        (page none))
    ≤ 1
creations-once_example =
    creations-once (some "d2") ((loaded threads, none) ∷ (loaded threads, some ready_document) ∷ [])
      (page none)

creations-exactly_example :
    creations (some "d2") ((loaded threads, none) ∷ (loaded threads, none) ∷ []) (page none)
    ≡ create (some "d2") none ∷ []
creations-exactly_example =
    creations-exactly (some "d2") (loaded threads) none ((loaded threads, none) ∷ []) (page none)
      (unfold truthy in refl) refl (unfold same_document in refl) (unfold same_document in refl)

abbrev snapshot : Snapshot ChatMessage
snapshot = record {
  conversations = loaded threads;
  messages = loaded (answer_message ∷ []);
  pinned = none;
  content = unloaded;
  models = none;
  create_mutation = idle;
  send_mutation = idle;
}

abbrev at_least : ℕ → ℕ → Bool
at_least n score = true

abbrev percent : ℕ → Text
percent score = codes "80"

view-IsScoped_example :
    EveryClick
      (IsScoped (visible none threads))
      (view at_least percent date none snapshot (keep_active none (some threads) (page (some 5))))
view-IsScoped_example =
    view-IsScoped at_least percent date none snapshot threads (page (some 5)) refl

abbrev question : Text
question = codes "why?"

abbrev token : Text
token = codes "tok"

token_or_example : token_or no_reply jar (get_csrf no_reply jar) ≡ some token
unfolding token_or read_cookie is_missing split starts_with join
token_or_example = refl

no_token_example : token_or no_reply [] (get_csrf no_reply []) ≡ none
unfolding token_or read_cookie is_missing split starts_with join get_csrf
no_token_example = refl

abbrev whole : List (List ℕ)
whole = codes "data: D\n" ∷ codes "\ndata: E\n\n" ∷ []

abbrev part : List (List ℕ)
part = codes "data: D\n" ∷ codes "\n" ∷ []

send_message-answered_example :
    send_message messages parse decoder no_reply
      (λ r. some (answer_with whole))
      99
      "now"
      jar
      question
      (page (some 4))
    ≡ (
      finished messages parse decoder no_reply
          (λ r. some (answer_with whole))
          99
          "now"
          4
          question
          (page (some 4)),
      reload 4,
    )
send_message-answered_example =
    send_message-answered messages parse decoder no_reply (λ r. some (answer_with whole)) 99 "now"
      jar question token 4 (page (some 4)) (answer_with whole) whole ((payload, codes "hi") ∷ [])
      end_payload answer_message refl token_or_example refl refl refl decoder-IsStreaming
      (unfold flatten in refl) (payload-IsPayload, (end_payload-IsPayload, tt)) (refl, tt) refl

send_message-unfinished_example :
    send_message messages parse decoder no_reply
      (λ r. some (answer_with part))
      99
      "now"
      jar
      question
      (page (some 4))
    ≡ (
      record (finished messages parse decoder no_reply
          (λ r. some (answer_with part))
          99
          "now"
          4
          question
          (page (some 4))) { stream_text = some (flatten (codes "hi" ∷ [])) },
      [],
    )
send_message-unfinished_example =
    send_message-unfinished messages parse decoder no_reply (λ r. some (answer_with part)) 99 "now"
      jar question token 4 (page (some 4)) (answer_with part) part ((payload, codes "hi") ∷ []) refl
      token_or_example refl refl refl decoder-IsStreaming (unfold flatten in refl)
      (payload-IsPayload, tt) (refl, tt)

send_message-failure_example :
    send_message messages parse decoder no_reply (λ r. none) 99 "now" jar question (page (some 4))
    ≡ (
      finished messages parse decoder no_reply (λ r. none) 99 "now" 4 question (page (some 4)),
      toast_error (codes "Network error while sending the message.") ∷ [],
    )
send_message-failure_example =
    send_message-failure messages parse decoder no_reply (λ r. none) 99 "now" jar question token
      (codes "Network error while sending the message.") 4 (page (some 4)) none refl
      token_or_example refl (unfold failure in refl)

send_message-no_token_example :
    send_message messages parse decoder no_reply (λ r. none) 99 "now" [] question (page (some 4))
    ≡ (finished messages parse decoder no_reply (λ r. none) 99 "now" 4 question (page (some 4)), [])
send_message-no_token_example =
    send_message-no_token messages parse decoder no_reply (λ r. none) 99 "now" [] question 4
      (page (some 4)) refl no_token_example

abbrev broken_answer : Response
broken_answer = record (answer_with []) { body = some (map chunk part ++ broken ∷ []) }

send_message-broken_example :
    send_message messages parse decoder no_reply
      (λ r. some broken_answer)
      99
      "now"
      jar
      question
      (page (some 4))
    ≡ (
      finished messages parse decoder no_reply
          (λ r. some broken_answer)
          99
          "now"
          4
          question
          (page (some 4)),
      [],
    )
send_message-broken_example =
    send_message-broken messages parse decoder no_reply (λ r. some broken_answer) 99 "now" jar
      question token 4 (page (some 4)) broken_answer part ((payload, codes "hi") ∷ []) refl
      token_or_example refl refl refl decoder-IsStreaming (unfold flatten in refl)
      (payload-IsPayload, tt) (refl, tt)

abbrev waiting_session : Session messages.Cache
waiting_session = record { page = page (some 4); sending = none }

abbrev asked_4 : List (Seen ChatMessage)
asked_4 = asked 4 (optimistic 9 "2025-01-06" 4 (trim (codes " why? "))) ∷ []

-- The answer comes in two chunks, with the words "hi" and its end.
send_message-Answer_example :
    Steps messages
      (page (some 4))
      (record {
        page =
            (send_message messages parse decoder no_reply
              (λ r. some (answer_with whole))
              9
              "2025-01-06"
              jar
              (trim (codes " why? "))
              (record (page (some 4)) { draft = [] })).0;
        sending = none;
      })
      (over false ∷ came (done answer_message) ∷ came (delta (codes "hi")) ∷ asked_4)
send_message-Answer_example =
    send_message-Answer messages (page (some 4)) parse decoder no_reply
      (λ r. some (answer_with whole)) 9 "2025-01-06" jar token 4 waiting_session [] _ mounted refl
      refl (unfold trim in refl) decoder-IsStreaming token_or_example
      (streamed whole (payload ∷ end_payload ∷ []) refl refl
        (payload-IsPayload, (end_payload-IsPayload, tt)) (unfold flatten in refl))

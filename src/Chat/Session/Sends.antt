-- ===== src/Chat/Session/Sends.antt =====
-- The message that `Chat.Sending` sends in one go, as a run of the session of
-- frontend/src/pages/Chat.tsx.
use crag_project.Base.{
  ℕ, String, Bool, false, ◌||◌, if◌then◌else◌, Option, none, some, List, [], ◌∷◌, ◌++◌, ◌≡◌, refl,
  ap, ◌∙◌, is_some, sym,
}
use mathlib.Core.Path.{subst}
use crag_project.Text.{Text, is_empty, trim}
use crag_project.Types.{Message}
use crag_project.Api.Csrf.{RequestConfig, token_or, get_csrf}
use crag_project.Api.Stream.{StreamEvent, TextDecoder, StreamRequest, Response, stream_url}
use crag_project.Api.Stream.Chunks.{IsStreaming}
use crag_project.Chat.{ChatState, on_submit}
use crag_project.Chat.Sending.{
  MessageCache, optimistic, begin_send, on_event, settle, send_to, send_message,
}
use crag_project.Chat.Streaming.Reports.{stream_chat-answer}
use crag_project.Chat.Session.Answers.{Answer, IsOpen, IsClosed, answer-IsClosed}
use crag_project.Chat.View.{send_content, submit, on_click}
use crag_project.Chat.Session.{Seen, asked, Session, mutate, perform, click, Steps, clicked}

-- The request that carries a message.
abbrev pub request_of : ℕ → Text → Text → StreamRequest
request_of id token content = record { url = stream_url id; csrf_header = token; content = content }

module _ {Score Unknown : Type 0} (messages : MessageCache (Message Score Unknown))
    (first : ChatState messages.Cache) where
  open messages use {Cache}

  -- What sending a message makes of a session, and what submitting the form does.
  abbrev begun :
      ℕ → ℕ → String → Text → ChatState Cache → Session Cache × List (Seen (Message Score Unknown))
  begun id now iso t s = (
    record { page = begin_send messages id now iso t s; sending = some id },
    asked id (optimistic now iso id t) ∷ [],
  )

  mutate-begun :
      (now : ℕ) (iso : String) (t : Text) (id : ℕ) (σ : Session Cache)
      → σ.page.active_id ≡ some id
      → mutate messages now iso t σ ≡ begun id now iso t σ.page
  unfolding mutate
  mutate-begun now iso t id σ q =
      ap (λ (o : Option ℕ). elim o [ none ↦ (σ, []) | some i ↦ begun i now iso t σ.page ]) q

  on_submit-sends :
      (b : Bool) (s : ChatState Cache) (id : ℕ)
      → b ≡ false
      → s.active_id ≡ some id
      → is_empty (trim s.draft) ≡ false
      → on_submit b s ≡ (record s { draft = [] }, some (trim s.draft))
  unfolding on_submit
  on_submit-sends b s id p q e =
      ap
        (λ (o : Option ℕ). elim o [
          | none ↦ (s, none)
          | some i ↦
              if is_empty (trim s.draft) || b
              then (s, none)
              else (record s { draft = [] }, some (trim s.draft))
        ])
        q
      ∙ rw (e, p) refl

  submitted :
      (now : ℕ) (iso : String) (id : ℕ) (σ : Session Cache)
      → is_some σ.sending ≡ false
      → σ.page.active_id ≡ some id
      → is_empty (trim σ.page.draft) ≡ false
      → click messages now iso none none submit σ
        ≡ begun id now iso (trim σ.page.draft) (record σ.page { draft = [] })
  unfolding click on_click
  submitted now iso id σ n q e =
      ap
        (λ (r : ChatState Cache × Option Text).
          perform messages now iso (elim r.1 [ none ↦ [] | some c ↦ send_content c ∷ [] ])
            (record σ { page = r.0 }))
        (on_submit-sends (is_some σ.sending) σ.page id n q e)
      ∙ mutate-begun now iso (trim σ.page.draft) id
          (record σ { page = record σ.page { draft = [] } }) q

  module _ (parse : Text → Option (StreamEvent (Message Score Unknown)))
      (decoder : TextDecoder) where
    module _ (reply : RequestConfig → Option Text) (fetch : StreamRequest → Option Response) where
      send_to-IsClosed :
          (now : ℕ) (iso : String) (jar t token : Text) (id : ℕ) (s : ChatState Cache)
          (h seen : List (Seen (Message Score Unknown)))
          → IsStreaming decoder
          → token_or reply jar (get_csrf reply jar) ≡ some token
          → Answer parse decoder h (fetch (request_of id token t)) seen
          → IsOpen messages first parse decoder id (begin_send messages id now iso t s) h
          → IsClosed messages first parse decoder
              (send_to messages parse decoder reply fetch id now iso jar t s)
              seen
      unfolding send_to
      send_to-IsClosed now iso jar t token id s h seen streaming k a g =
          subst (λ o. IsClosed messages first parse decoder (settle messages o) seen)
            (sym (
              stream_chat-answer parse (on_event messages id) decoder reply fetch jar token t id
                (begin_send messages id now iso t s, []) k))
            (answer-IsClosed messages first parse decoder id (begin_send messages id now iso t s) _
              h seen streaming a g)

      -- When the form is submitted in a session that the page can come to, with a thread selected, a
      -- draft that is not blank, no other message on its way and a token at hand, and the user then
      -- waits, `send_message` leaves the page as this run of the session does: the question is
      -- asked; then, if no stream comes back, one event comes that says why, and if the body is the
      -- frames of some payloads, in whatever chunks, the events of those payloads come, each once
      -- and in order; then the promise ends, rejected exactly if the connection breaks. The decoder
      -- is taken to decode pieces to the text of the whole, each payload to stand on one line
      -- without white space at its ends.
      pub send_message-Answer :
          (now : ℕ) (iso : String) (jar token : Text) (id : ℕ) (σ : Session Cache)
          (h seen : List (Seen (Message Score Unknown)))
          → Steps messages first σ h
          → σ.sending ≡ none
          → σ.page.active_id ≡ some id
          → is_empty (trim σ.page.draft) ≡ false
          → IsStreaming decoder
          → token_or reply jar (get_csrf reply jar) ≡ some token
          → Answer parse decoder
              (asked id (optimistic now iso id (trim σ.page.draft)) ∷ h)
              (fetch (request_of id token (trim σ.page.draft)))
              seen
          → Steps messages first
              (record {
                page =
                    (send_message messages parse decoder reply fetch now iso jar
                      (trim σ.page.draft)
                      (record σ.page { draft = [] })).0;
                sending = none;
              })
              seen
      unfolding send_message
      send_message-Answer now iso jar token id σ h seen r n q e streaming k a =
          rw (q, send_message)
            (send_to-IsClosed now iso jar _ token id _ _ seen streaming k a (
              subst (λ c. Steps messages first c.0 (c.1 ++ h))
                (submitted now iso id σ (ap is_some n) q e) (clicked now iso none none submit r)))

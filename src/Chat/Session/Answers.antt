-- ===== src/Chat/Session/Answers.antt =====
-- What is seen of the answer to a message of frontend/src/pages/Chat.tsx, by what the network gives, and
-- that the session comes to it.
use mathlib.Core.Path.{subst}
use mathlib.Core.List.{flatten}
use crag_project.Base.{
  ℕ, true, false, Option, none, some, List, [], ◌∷◌, ◌++◌, map, ◌≡◌, refl, ◌∙◌, sym, foldl, All,
}
use crag_project.Text.{Text}
use crag_project.Types.{Message}
use crag_project.Api.Stream.{
  StreamEvent, delta, done, error, TextDecoder, Response, resolved, rejected, answer, chunk, broken,
}
use crag_project.Api.Stream.Chunks.{IsStreaming}
use crag_project.Api.Stream.Frames.{wire, IsPayload, report, read_loop-wire, read_loop-wire_broken}
use crag_project.Ui.{Effect}
use crag_project.Chat.{ChatState}
use crag_project.Chat.Sending.{MessageCache, on_event, settle}
use crag_project.Chat.Streaming.Reports.{failure, answer-failure, answer-stream}
use crag_project.Chat.Session.{Seen, came, over, finish, Steps, part_came, ended}

module _ {Score Unknown : Type 0} (parse : Text → Option (StreamEvent (Message Score Unknown)))
    (decoder : TextDecoder) where
  -- The history once these payloads have been read: each that is an event has come, in order.
  abbrev pub heard :
      List (Seen (Message Score Unknown)) → List Text → List (Seen (Message Score Unknown))
  heard h [] = h
  heard h (p ∷ ps) = heard (elim (parse p) [ none ↦ h | some e ↦ came e ∷ h ]) ps

  -- What is seen of an answer, after the history `h`, by what the network gives for the request: a
  -- failure is one event that says why; a body of frames, in whatever chunks, is the events of
  -- their payloads, and the promise is rejected if the connection breaks after them.
  pub data Answer (h : List (Seen (Message Score Unknown)))
      : Option Response → List (Seen (Message Score Unknown)) → Type 0 where
    refused :
        {r : Option Response} (why : Text)
        → failure r ≡ some why
        → Answer h r (over false ∷ came (error (some why)) ∷ h)
    streamed :
        {r : Response} (chunks : List (List ℕ)) (ps : List Text)
        → r.ok ≡ true
        → r.body ≡ some (map chunk chunks)
        → All IsPayload ps
        → (decoder.decode decoder.start (flatten chunks)).0 ≡ wire ps
        → Answer h (some r) (over false ∷ heard h ps)
    cut_off :
        {r : Response} (chunks : List (List ℕ)) (ps : List Text)
        → r.ok ≡ true
        → r.body ≡ some (map chunk chunks ++ broken ∷ [])
        → All IsPayload ps
        → (decoder.decode decoder.start (flatten chunks)).0 ≡ wire ps
        → Answer h (some r) (over true ∷ heard h ps)

module _ {Score Unknown : Type 0} (messages : MessageCache (Message Score Unknown))
    (first : ChatState messages.Cache) where
  open messages use {Cache}

  module _ (parse : Text → Option (StreamEvent (Message Score Unknown)))
      (decoder : TextDecoder) where
    -- A session in which the message of thread `id` is on its way.
    abbrev pub IsOpen : ℕ → ChatState Cache → List (Seen (Message Score Unknown)) → Type 0
    IsOpen id s h = Steps messages first (record { page = s; sending = some id }) h

    on_event-IsOpen :
        (id : ℕ) (s : ChatState Cache) (calls : List Effect)
        (e : StreamEvent (Message Score Unknown)) (h : List (Seen (Message Score Unknown)))
        → IsOpen id s h
        → IsOpen id (on_event messages id (s, calls) e).0 (came e ∷ h)
    unfolding on_event
    on_event-IsOpen id s calls (delta t) h g = part_came id (delta t) refl g
    on_event-IsOpen id s calls (done m) h g = part_came id (done m) refl g
    on_event-IsOpen id s calls (error d) h g = part_came id (error d) refl g

    reported :
        Option (StreamEvent (Message Score Unknown))
        → ℕ
        → ChatState Cache × List Effect
        → ChatState Cache × List Effect
    reported none id r = r
    reported (some e) id r = on_event messages id r e

    reported-IsOpen :
        (id : ℕ) (o : Option (StreamEvent (Message Score Unknown)))
        (r : ChatState Cache × List Effect) (h : List (Seen (Message Score Unknown)))
        → IsOpen id r.0 h
        → IsOpen id (reported o id r).0 (elim o [ none ↦ h | some e ↦ came e ∷ h ])
    unfolding reported
    reported-IsOpen id none r h g = g
    reported-IsOpen id (some e) (s, calls) h g = on_event-IsOpen id s calls e h g

    report-reported :
        (id : ℕ) (r : ChatState Cache × List Effect) (p : Text)
        → report parse (on_event messages id) r p ≡ reported (parse p) id r
    unfolding reported
    report-reported id r p =
        elim (parse p)
          as (λ o. (elim o [ none ↦ r | some e ↦ on_event messages id r e ]) ≡ reported o id r) [
            | none ↦ refl
            | some e ↦ refl
          ]

    payloads-IsOpen :
        (id : ℕ) (ps : List Text) (r : ChatState Cache × List Effect)
        (h : List (Seen (Message Score Unknown)))
        → IsOpen id r.0 h
        → IsOpen id (foldl (report parse (on_event messages id)) r ps).0 (heard parse decoder h ps)
    payloads-IsOpen id [] r h g = g
    payloads-IsOpen id (p ∷ ps) r h g =
        payloads-IsOpen id ps (report parse (on_event messages id) r p) _ (
          subst
            (λ (t : ChatState Cache × List Effect).
              IsOpen id t.0 (elim (parse p) [ none ↦ h | some e ↦ came e ∷ h ]))
            (sym (report-reported id r p)) (reported-IsOpen id (parse p) r h g))

    -- A session in which no message is on its way any more.
    abbrev pub IsClosed :
        ChatState Cache × List Effect → List (Seen (Message Score Unknown)) → Type 0
    IsClosed r h = Steps messages first (record { page = r.0; sending = none }) h

    resolved-IsClosed :
        (id : ℕ) (r : ChatState Cache × List Effect) (h : List (Seen (Message Score Unknown)))
        → IsOpen id r.0 h
        → IsClosed (settle messages (resolved r)) (over false ∷ h)
    unfolding settle finish
    resolved-IsClosed id (s, calls) h g = ended id false refl g

    rejected-IsClosed :
        (id : ℕ) (r : ChatState Cache × List Effect) (h : List (Seen (Message Score Unknown)))
        → IsOpen id r.0 h
        → IsClosed (settle messages (rejected r)) (over true ∷ h)
    unfolding settle finish
    rejected-IsClosed id (s, calls) h g = ended id true refl g

    pub answer-IsClosed :
        (id : ℕ) (s : ChatState Cache) (r : Option Response)
        (h seen : List (Seen (Message Score Unknown)))
        → IsStreaming decoder
        → Answer parse decoder h r seen
        → IsOpen id s h
        → IsClosed (settle messages (answer parse (on_event messages id) decoder r (s, []))) seen
    answer-IsClosed id s r h _ streaming (refused why f) g =
        subst (λ o. IsClosed (settle messages o) (over false ∷ came (error (some why)) ∷ h))
          (sym (answer-failure parse (on_event messages id) decoder r why (s, []) f))
          (resolved-IsClosed id _ _ (on_event-IsOpen id s [] (error (some why)) h g))
    answer-IsClosed id s _ h _ streaming (streamed {r} chunks ps k b i same) g =
        subst (λ o. IsClosed (settle messages o) (over false ∷ heard parse decoder h ps))
          (sym (
            answer-stream parse (on_event messages id) decoder r (map chunk chunks) (s, []) k b
            ∙ read_loop-wire parse (on_event messages id) decoder streaming chunks ps (s, []) i
                same))
          (resolved-IsClosed id _ _ (payloads-IsOpen id ps (s, []) h g))
    answer-IsClosed id s _ h _ streaming (cut_off {r} chunks ps k b i same) g =
        subst (λ o. IsClosed (settle messages o) (over true ∷ heard parse decoder h ps))
          (sym (
            answer-stream parse (on_event messages id) decoder r (map chunk chunks ++ broken ∷ [])
              (s, []) k b
            ∙ read_loop-wire_broken parse (on_event messages id) decoder streaming chunks ps (s, [])
                i same))
          (rejected-IsClosed id _ _ (payloads-IsOpen id ps (s, []) h g))

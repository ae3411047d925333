-- ===== src/Chat/Streaming.antt =====
-- What sending a message in frontend/src/pages/Chat.tsx does from the click to the end of the
-- server's stream: `sendMessage` on top of `streamChat`, for every way the answer can go.
pub mod Reports
use mathlib.Core.List.{flatten, append-nil, append_assoc, foldl-append}
use crag_project.Base.{
  ℕ, String, true, false, Option, none, some, get_or, List, [], ◌∷◌, ◌++◌, ◌≡◌, refl, sym, ap, ◌∙◌,
  foldl, map, All, arith,
}
use crag_project.Text.{Text, codes}
use crag_project.Text.Decimal.{decimal}
use crag_project.Types.{Message}
use crag_project.Api.Csrf.{RequestConfig, token_or, get_csrf}
use crag_project.Api.Stream.{
  broken, rejected, StreamEvent, delta, done, error, TextDecoder, StreamRequest, Response, resolved,
  rejected, stream_chat, answer, body_detail, stream_url, chunk, read_loop, Read,
}
use crag_project.Api.Stream.Chunks.{IsStreaming}
use crag_project.Api.Stream.Frames.{wire, IsPayload, report, read_loop-wire, read_loop-wire_broken}
use crag_project.Ui.{Effect, toast_error, invalidate, str, num}
use crag_project.Chat.{ChatState}
use crag_project.Chat.Sending.{
  MessageCache, append_message, optimistic, on_event, settle, send_to, send_message,
}
use crag_project.Chat.Streaming.Reports.{
  failure, answer-failure, answer-stream, stream_chat-answer, stream_chat-rejected, IsDelta, reload,
  texts, payloads, reports_done, report-deltas,
}

module _ {Score Unknown : Type 0} (messages : MessageCache (Message Score Unknown)) where
  module _ (parse : Text → Option (StreamEvent (Message Score Unknown))) where
    module _ (decoder : TextDecoder) (reply : RequestConfig → Option Text)
        (fetch : StreamRequest → Option Response) where
      -- The page with the user's message shown, before anything comes back.
      abbrev shown : ℕ → String → ℕ → Text → ChatState messages.Cache → ChatState messages.Cache
      shown now iso id content s = append_message messages id (optimistic now iso id content) s

      -- The state of the page once the answer is over.
      abbrev pub finished :
          ℕ → String → ℕ → Text → ChatState messages.Cache → ChatState messages.Cache
      finished now iso id content s = record (shown now iso id content s) { stream_text = none }

      -- The same with an empty streaming answer, and no calls made.
      abbrev waiting :
          ℕ → String → ℕ → Text → ChatState messages.Cache → ChatState messages.Cache × List Effect
      waiting now iso id content s =
          (record (shown now iso id content s) { stream_text = some [] }, [])

      -- The request that carries a message.
      abbrev pub message_request : ℕ → Text → Text → StreamRequest
      message_request id token content = record {
        url = stream_url id;
        csrf_header = token;
        content = content;
      }

      -- A message goes to the selected thread.
      send_message-send_to :
          (now : ℕ) (iso : String) (jar content : Text) (id : ℕ) (s : ChatState messages.Cache)
          → s.active_id ≡ some id
          → send_message messages parse decoder reply fetch now iso jar content s
            ≡ send_to messages parse decoder reply fetch id now iso jar content s
      unfolding send_message
      send_message-send_to now iso jar content id s a = rw a refl

      send_to-answer :
          (now : ℕ) (iso : String) (jar content token : Text) (id : ℕ)
          (s : ChatState messages.Cache) (r : Option Response)
          → token_or reply jar (get_csrf reply jar) ≡ some token
          → fetch (message_request id token content) ≡ r
          → send_to messages parse decoder reply fetch id now iso jar content s
            ≡ settle messages
                (answer parse (on_event messages id) decoder r (waiting now iso id content s))
      unfolding send_to
      send_to-answer now iso jar content token id s r t f = ap (settle messages) (
          stream_chat-answer parse (on_event messages id) decoder reply fetch jar token content id
            (waiting now iso id content s) t
          ∙ ap (λ o. answer parse (on_event messages id) decoder o (waiting now iso id content s))
              f)

      -- If a thread is selected and a CSRF token can be had, but no stream comes back (no network,
      -- a refusal, or no body), the user gets exactly one toast, which says why, and the streaming
      -- text is gone; the user's message stays in the cache.
      pub send_message-failure :
          (now : ℕ) (iso : String) (jar content token why : Text) (id : ℕ)
          (s : ChatState messages.Cache) (r : Option Response)
          → s.active_id ≡ some id
          → token_or reply jar (get_csrf reply jar) ≡ some token
          → fetch (message_request id token content) ≡ r
          → failure r ≡ some why
          → send_message messages parse decoder reply fetch now iso jar content s
            ≡ (finished now iso id content s, toast_error why ∷ [])
      unfolding settle on_event
      send_message-failure now iso jar content token why id s r a t f h =
          send_message-send_to now iso jar content id s a
          ∙ send_to-answer now iso jar content token id s r t f
          ∙ ap (settle messages) (
              answer-failure parse (on_event messages id) decoder r why
                (waiting now iso id content s) h)

      -- If a thread is selected and no CSRF token can be had, nothing is sent and the user is told
      -- nothing: the streaming text is gone, and the message stays in the cache as if it had been
      -- sent.
      pub send_message-no_token :
          (now : ℕ) (iso : String) (jar content : Text) (id : ℕ) (s : ChatState messages.Cache)
          → s.active_id ≡ some id
          → token_or reply jar (get_csrf reply jar) ≡ none
          → send_message messages parse decoder reply fetch now iso jar content s
            ≡ (finished now iso id content s, [])
      unfolding send_to settle
      send_message-no_token now iso jar content id s a t =
          send_message-send_to now iso jar content id s a
          ∙ ap (settle messages) (
              stream_chat-rejected parse (on_event messages id) decoder reply fetch jar content id
                (waiting now iso id content s) t)

      -- What a stream with these frames, in whatever chunks, makes of the page.
      send_message-frames :
          (now : ℕ) (iso : String) (jar content token : Text) (id : ℕ)
          (s : ChatState messages.Cache) (r : Response) (chunks : List (List ℕ)) (ps : List Text)
          → s.active_id ≡ some id
          → token_or reply jar (get_csrf reply jar) ≡ some token
          → fetch (message_request id token content) ≡ some r
          → r.ok ≡ true
          → r.body ≡ some (map chunk chunks)
          → IsStreaming decoder
          → (decoder.decode decoder.start (flatten chunks)).0 ≡ wire ps
          → All IsPayload ps
          → send_message messages parse decoder reply fetch now iso jar content s
            ≡ foldl (report parse (on_event messages id)) (waiting now iso id content s) ps
      unfolding settle
      send_message-frames now iso jar content token id s r chunks ps a t f k b streaming same h =
          send_message-send_to now iso jar content id s a
          ∙ send_to-answer now iso jar content token id s (some r) t f
          ∙ ap (settle messages) (
              answer-stream parse (on_event messages id) decoder r (map chunk chunks)
                (waiting now iso id content s) k b
              ∙ read_loop-wire parse (on_event messages id) decoder streaming chunks ps
                  (waiting now iso id content s) h same)

      -- If a thread is selected, a CSRF token can be had, and the response is a success whose
      -- body, in whatever chunks of bytes, is the frames of some deltas and of a last event with
      -- the message, then sending a message ends with the streaming text gone and the user's
      -- message in the cache, and makes exactly two calls: the thread's messages and the list of
      -- threads are read again. The decoder is taken to decode pieces to the text of the whole,
      -- each payload to stand on one line without white space at its ends.
      pub send_message-answered :
          (now : ℕ) (iso : String) (jar content token : Text) (id : ℕ)
          (s : ChatState messages.Cache) (r : Response) (chunks : List (List ℕ))
          (ds : List (Text × Text)) (last : Text) (answered : Message Score Unknown)
          → s.active_id ≡ some id
          → token_or reply jar (get_csrf reply jar) ≡ some token
          → fetch (message_request id token content) ≡ some r
          → r.ok ≡ true
          → r.body ≡ some (map chunk chunks)
          → IsStreaming decoder
          → (decoder.decode decoder.start (flatten chunks)).0 ≡ wire (payloads ds ++ last ∷ [])
          → All IsPayload (payloads ds ++ last ∷ [])
          → All (IsDelta parse) ds
          → parse last ≡ some (done answered)
          → send_message messages parse decoder reply fetch now iso jar content s
            ≡ (finished now iso id content s, reload id)
      send_message-answered now iso jar content token id s r chunks ds last answered a t f k b
            streaming same h deltas ends =
          let base = shown now iso id content s in
          let step = report parse (on_event messages id) in
          send_message-frames now iso jar content token id s r chunks (payloads ds ++ last ∷ []) a t
            f k b streaming same h
          ∙ foldl-append step (waiting now iso id content s) (payloads ds) (last ∷ [])
          ∙ ap (λ u. step u last) (report-deltas messages parse id ds base [] [] deltas)
          ∙ reports_done messages parse id last answered base [] (flatten (texts ds)) ends

      -- If a thread is selected, a CSRF token can be had, and the response is a success whose
      -- body, in whatever chunks of bytes, is the frames of some deltas, after which the stream
      -- ends without an event that says that the answer is done or that it failed, then the text
      -- received so far stays in the state, no call is made and no error is reported. The decoder
      -- is taken to decode pieces to the text of the whole, each payload to stand on one line
      -- without white space at its ends.
      pub send_message-unfinished :
          (now : ℕ) (iso : String) (jar content token : Text) (id : ℕ)
          (s : ChatState messages.Cache) (r : Response) (chunks : List (List ℕ))
          (ds : List (Text × Text))
          → s.active_id ≡ some id
          → token_or reply jar (get_csrf reply jar) ≡ some token
          → fetch (message_request id token content) ≡ some r
          → r.ok ≡ true
          → r.body ≡ some (map chunk chunks)
          → IsStreaming decoder
          → (decoder.decode decoder.start (flatten chunks)).0 ≡ wire (payloads ds)
          → All IsPayload (payloads ds)
          → All (IsDelta parse) ds
          → send_message messages parse decoder reply fetch now iso jar content s
            ≡ (record (shown now iso id content s) { stream_text = some (flatten (texts ds)) }, [])
      send_message-unfinished now iso jar content token id s r chunks ds a t f k b streaming same h
            deltas =
          send_message-frames now iso jar content token id s r chunks (payloads ds) a t f k b
            streaming same h
          ∙ report-deltas messages parse id ds (shown now iso id content s) [] [] deltas

      -- If a thread is selected, a CSRF token can be had, and the response is a success whose
      -- body, in whatever chunks of bytes, is the frames of some deltas, after which the
      -- connection breaks, then the text received so far is gone, no call is made and the user is
      -- told nothing. The decoder is taken to decode pieces to the text of the whole, each payload
      -- to stand on one line without white space at its ends.
      pub send_message-broken :
          (now : ℕ) (iso : String) (jar content token : Text) (id : ℕ)
          (s : ChatState messages.Cache) (r : Response) (chunks : List (List ℕ))
          (ds : List (Text × Text))
          → s.active_id ≡ some id
          → token_or reply jar (get_csrf reply jar) ≡ some token
          → fetch (message_request id token content) ≡ some r
          → r.ok ≡ true
          → r.body ≡ some (map chunk chunks ++ broken ∷ [])
          → IsStreaming decoder
          → (decoder.decode decoder.start (flatten chunks)).0 ≡ wire (payloads ds)
          → All IsPayload (payloads ds)
          → All (IsDelta parse) ds
          → send_message messages parse decoder reply fetch now iso jar content s
            ≡ (finished now iso id content s, [])
      unfolding settle
      send_message-broken now iso jar content token id s r chunks ds a t f k b streaming same h
            deltas =
          let step = on_event messages id in
          send_message-send_to now iso jar content id s a
          ∙ send_to-answer now iso jar content token id s (some r) t f
          ∙ ap (settle messages) (
              answer-stream parse step decoder r (map chunk chunks ++ broken ∷ [])
                (waiting now iso id content s) k b
              ∙ read_loop-wire_broken parse step decoder streaming chunks (payloads ds)
                  (waiting now iso id content s) h same
              ∙ ap rejected
                  (report-deltas messages parse id ds (shown now iso id content s) [] [] deltas))

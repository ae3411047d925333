-- ===== src/Chat/Streaming/Reports.antt =====
-- The steps of an answer to a message: what `streamChat` comes to, by what the network gave, and what
-- the callback of frontend/src/pages/Chat.tsx makes of the payloads that it reports.
use mathlib.Core.List.{flatten, append-nil, append_assoc}
use crag_project.Base.{
  ℕ, true, false, Option, none, some, get_or, List, [], ◌∷◌, ◌++◌, ◌≡◌, refl, sym, ap, ◌∙◌, foldl,
  map, All, arith,
}
use crag_project.Text.{Text, codes}
use crag_project.Text.Decimal.{decimal}
use crag_project.Types.{Message}
use crag_project.Api.Csrf.{RequestConfig, token_or, get_csrf}
use crag_project.Api.Stream.{
  StreamEvent, delta, done, error, TextDecoder, StreamRequest, Response, resolved, rejected,
  stream_chat, answer, ErrorBody, unreadable, no_detail, detail, body_detail, stream_url, read_loop,
  Read,
}
use crag_project.Api.Stream.Frames.{report}
use crag_project.Ui.{Effect, invalidate, str, num}
use crag_project.Chat.{ChatState}
use crag_project.Chat.Sending.{MessageCache, on_event}

-- What a refusal says: the server's own words, if it gives any.
abbrev pub refusal : ErrorBody → ℕ → Text
refusal (detail d) status = d
refusal unreadable status = codes "Request failed (" ++ (decimal status ++ codes ")")
refusal no_detail status = codes "Request failed (" ++ (decimal status ++ codes ")")

refusal-body_detail :
    (json : ErrorBody) (status : ℕ)
    → get_or (body_detail json) (codes "Request failed (" ++ (decimal status ++ codes ")"))
      ≡ refusal json status
unfolding body_detail
refusal-body_detail unreadable status = refl
refusal-body_detail no_detail status = refl
refusal-body_detail (detail d) status = refl

-- What the user is told when no stream comes back: a network error, a status that is not 2xx, or
-- an answer without a body.
unfoldable pub failure : Option Response → Option Text
failure none = some (codes "Network error while sending the message.")
failure (some r) = elim r.ok [
  | true ↦ elim r.body [ none ↦ some (codes "Empty response from the server.") | some reads ↦ none ]
  | false ↦ some (refusal r.json r.status)
]

module _ {M S : Type 0} (parse : Text → Option (StreamEvent M)) (on_event : S → StreamEvent M → S)
    (decoder : TextDecoder) where
  pub answer-failure :
      (r : Option Response) (why : Text) (s : S)
      → failure r ≡ some why
      → answer parse on_event decoder r s ≡ resolved (on_event s (error (some why)))
  unfolding answer failure
  answer-failure none why s h = ground arith
  answer-failure (some r) why s h = ground (arith, refusal-body_detail r.json r.status)

  pub answer-stream :
      (r : Response) (reads : List Read) (s : S)
      → r.ok ≡ true
      → r.body ≡ some reads
      → answer parse on_event decoder (some r) s
        ≡ read_loop parse on_event decoder decoder.start [] reads s
  unfolding answer
  answer-stream r reads s k b = rw (k, b) refl

  module _ (reply : RequestConfig → Option Text) (fetch : StreamRequest → Option Response)
      (jar : Text) where
    pub stream_chat-answer :
        (token content : Text) (id : ℕ) (s : S)
        → token_or reply jar (get_csrf reply jar) ≡ some token
        → stream_chat parse on_event decoder reply fetch jar id content s
          ≡ answer parse on_event decoder
              (fetch (record { url = stream_url id; csrf_header = token; content = content }))
              s
    unfolding stream_chat
    stream_chat-answer token content id s t = rw (stream_chat, t) refl

    pub stream_chat-rejected :
        (content : Text) (id : ℕ) (s : S)
        → token_or reply jar (get_csrf reply jar) ≡ none
        → stream_chat parse on_event decoder reply fetch jar id content s ≡ rejected s
    unfolding stream_chat
    stream_chat-rejected content id s t = rw (stream_chat, t) refl

-- The payload of a `delta` frame with this text.
abbrev pub IsDelta : {M : Type 0} → (Text → Option (StreamEvent M)) → Text × Text → Type 0
IsDelta parse (payload, text) = parse payload ≡ some (delta text)

abbrev pub texts : List (Text × Text) → List Text
texts ds = map (λ (d : Text × Text). d.1) ds

abbrev pub payloads : List (Text × Text) → List Text
payloads ds = map (λ (d : Text × Text). d.0) ds

-- The calls that the end of an answer makes.
abbrev pub reload : ℕ → List Effect
reload id = invalidate (str "messages" ∷ num id ∷ []) ∷ invalidate (str "conversations" ∷ []) ∷ []

module _ {Score Unknown : Type 0} (messages : MessageCache (Message Score Unknown)) where
  module _ (parse : Text → Option (StreamEvent (Message Score Unknown))) where
    reports :
        (id : ℕ) (p t : Text) (s : ChatState messages.Cache) (calls : List Effect) (so_far : Text)
        → parse p ≡ some (delta t)
        → report parse (on_event messages id) (record s { stream_text = some so_far }, calls) p
          ≡ (record s { stream_text = some (so_far ++ t) }, calls)
    unfolding on_event
    reports id p t s calls so_far e = rw (report, e) refl

    pub reports_done :
        (id : ℕ) (p : Text) (m : Message Score Unknown) (s : ChatState messages.Cache)
        (calls : List Effect) (so_far : Text)
        → parse p ≡ some (done m)
        → report parse (on_event messages id) (record s { stream_text = some so_far }, calls) p
          ≡ (record s { stream_text = none }, calls ++ reload id)
    unfolding on_event
    reports_done id p m s calls so_far e = rw (report, e) refl

    pub report-deltas :
        (id : ℕ) (ds : List (Text × Text)) (s : ChatState messages.Cache) (calls : List Effect)
        (so_far : Text)
        → All (IsDelta parse) ds
        → foldl
            (report parse (on_event messages id))
            (record s { stream_text = some so_far }, calls)
            (payloads ds)
          ≡ (record s { stream_text = some (so_far ++ flatten (texts ds)) }, calls)
    unfolding flatten
    report-deltas id [] s calls so_far h =
        ap (λ u. (record s { stream_text = some u }, calls)) (sym (append-nil so_far))
    report-deltas id ((p, t) ∷ ds) s calls so_far (e, h) =
        ap (λ t'. foldl (report parse (on_event messages id)) t' (payloads ds))
          (reports id p t s calls so_far e)
        ∙ (report-deltas id ds s calls (so_far ++ t) h
            ∙ ap (λ u. (record s { stream_text = some u }, calls))
                (append_assoc so_far t (flatten (texts ds))))

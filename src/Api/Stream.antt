-- ===== src/Api/Stream.antt =====
-- `streamChat` of frontend/src/lib/api.ts. The browser's answers are arguments: the cookie jar, the
-- response to `fetch`, and what each `reader.read()` gives. `JSON.parse` and the `TextDecoder` are
-- parameters; a frame that parses is taken at the type that the source casts it to.
pub mod Chunks
pub mod Frames
use crag_project.Base.{
  ℕ, Bool, true, false, Option, none, some, get_or, List, [], ◌∷◌, ◌++◌, foldl, drop, if◌then◌else◌,
  not,
}
use crag_project.Text.{Text, codes, is_empty, starts_with, split, trim}
use crag_project.Text.Lines.{nl, pop_rest}
use crag_project.Text.Decimal.{decimal}
use crag_project.Api.Csrf.{RequestConfig, token_or, get_csrf}

pub data StreamEvent (M : Type 0) : Type 0 where
  delta : Text → StreamEvent M
  done : M → StreamEvent M
  error : Option Text → StreamEvent M

-- A `TextDecoder` fed with `{ stream: true }`: it keeps the bytes of an unfinished character.
pub record TextDecoder : Type 1 where
  pub State : Type 0
  pub start : State
  pub decode : State → List ℕ → Text × State

-- One `reader.read()`: some bytes, or a broken connection. That the stream is done is the end of
-- the list of reads.
pub data Read : Type 0 where
  chunk : List ℕ → Read
  broken : Read

-- What `await response.json()` gives for a failed request.
pub data ErrorBody : Type 0 where
  unreadable : ErrorBody
  no_detail : ErrorBody
  detail : Text → ErrorBody

pub record Response : Type 0 where
  pub ok : Bool
  pub status : ℕ
  pub json : ErrorBody
  pub body : Option (List Read)

pub record StreamRequest : Type 0 where
  pub url : Text
  pub csrf_header : Text
  pub content : Text

-- How the promise of `streamChat` ends, with what the callback has made of its state.
pub data Outcome (S : Type 0) : Type 0 where
  resolved : S → Outcome S
  rejected : S → Outcome S

unfoldable pub stream_url : ℕ → Text
unfolding decimal
stream_url id = codes "/api/v1/conversations/" ++ (decimal id ++ codes "/messages/stream")

-- `if (typeof body?.detail === 'string') detail = body.detail`
unfoldable pub body_detail : ErrorBody → Option Text
body_detail unreadable = none
body_detail no_detail = none
body_detail (detail d) = some d

module _ {M S : Type 0} (parse : Text → Option (StreamEvent M))
    (on_event : S → StreamEvent M → S) where
  -- The body of the loop over the complete lines.
  unfoldable pub on_line : S → Text → S
  unfolding trim starts_with
  on_line s line =
      let trimmed = trim line in
      let payload = trim (drop 5 trimmed) in
      if not (starts_with trimmed (codes "data:"))
      then s
      else if is_empty payload
      then s
      else elim (parse payload) [ none ↦ s | some e ↦ on_event s e ]

  module _ (decoder : TextDecoder) where
    open decoder use {State, start, decode}

    -- The `for (;;)` loop, from a decoder's state and a buffer.
    unfoldable pub read_loop : State → Text → List Read → S → Outcome S
    unfolding on_line split pop_rest
    read_loop d buffer [] s = resolved s
    read_loop d buffer (broken ∷ reads) s = rejected s
    read_loop d buffer (chunk value ∷ reads) s =
        let (text, d') = decode d value in
        let (lines, rest) = pop_rest (split (nl ∷ []) (buffer ++ text)) in
        read_loop d' rest reads (foldl on_line s lines)

    -- What follows the `fetch`; `none` is a network error.
    unfoldable pub answer : Option Response → S → Outcome S
    unfolding read_loop body_detail
    answer none s =
        resolved (on_event s (error (some (codes "Network error while sending the message."))))
    answer (some r) s =
        if not r.ok
        then resolved (
            on_event s (
              error (
                some (
                  get_or (body_detail r.json)
                    (codes "Request failed (" ++ (decimal r.status ++ codes ")"))))))
        else elim r.body [
          | none ↦ resolved (on_event s (error (some (codes "Empty response from the server."))))
          | some reads ↦ read_loop start [] reads s
        ]

    unfoldable pub stream_chat :
        (RequestConfig → Option Text)
        → (StreamRequest → Option Response)
        → Text
        → ℕ
        → Text
        → S
        → Outcome S
    stream_chat reply fetch jar id content s = elim (token_or reply jar (get_csrf reply jar)) [
      | none ↦ rejected s
      | some token ↦
          answer (fetch (record { url = stream_url id; csrf_header = token; content = content })) s
    ]

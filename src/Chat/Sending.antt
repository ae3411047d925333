-- ===== src/Chat/Sending.antt =====
-- `sendMessage` of frontend/src/pages/Chat.tsx: the message that is shown at once, and the answer
-- as it streams in.
use crag_project.Base.{ℕ, String, false, Option, none, some, get_or, List, [], ◌∷◌, ◌++◌, suc, zero}
use crag_project.Text.{Text, codes}
use crag_project.Types.{Message, user, ℤ, pos, negsuc}
use crag_project.Api.Csrf.{RequestConfig}
use crag_project.Api.Stream.{
  StreamEvent, delta, done, error, TextDecoder, StreamRequest, Response, Outcome, resolved,
  rejected, stream_chat,
}
use crag_project.Ui.{Effect, toast_error, invalidate, str, num}
use crag_project.Chat.{ChatState}

-- `queryClient.getQueryData` and `setQueryData` for the keys `['messages', id]`.
pub record MessageCache (M : Type 0) : Type 1 where
  pub Cache : Type 0
  pub get : Cache → ℕ → Option (List M)
  pub set : Cache → ℕ → List M → Cache

-- `-n`
unfoldable pub negate : ℕ → ℤ
negate zero = pos 0
negate (suc n) = negsuc n

module _ {Score Unknown : Type 0} where
  -- The user's own message; `now` is `Date.now()`, `iso` the same as an ISO string.
  unfoldable pub optimistic : ℕ → String → ℕ → Text → Message Score Unknown
  unfolding negate
  optimistic now iso id content = record {
    id = negate now;
    conversation_id = id;
    role = user;
    content = content;
    confidence_score = none;
    web_search_used = false;
    sources = [];
    trace = [];
    retrieval_evidence = [];
    created_at = iso;
  }

  module _ (messages : MessageCache (Message Score Unknown)) where
    open messages use {Cache, get, set}

    -- `queryClient.setQueryData(['messages', activeId], (old) => [...(old ?? []), message])`
    unfoldable pub append_message : ℕ → Message Score Unknown → ChatState Cache → ChatState Cache
    append_message id m s = record s {
      cache = set s.cache id (get_or (get s.cache id) [] ++ m ∷ []);
    }

    -- `mutationFn` up to the call of `streamChat`.
    abbrev pub begin_send : ℕ → ℕ → String → Text → ChatState Cache → ChatState Cache
    begin_send id now iso content s = record (append_message id (optimistic now iso id content) s) {
      stream_text = some [];
    }

    -- The callback that `streamChat` is given, with the calls that it has made so far.
    unfoldable pub on_event :
        ℕ
        → ChatState Cache × List Effect
        → StreamEvent (Message Score Unknown)
        → ChatState Cache × List Effect
    on_event id (s, calls) (delta content) =
        (record s { stream_text = some (get_or s.stream_text [] ++ content) }, calls)
    on_event id (s, calls) (error detail) = (
      record s { stream_text = none },
      calls ++ toast_error (get_or detail (codes "Message failed to send")) ∷ [],
    )
    on_event id (s, calls) (done message) = (
      record s { stream_text = none },
      calls
          ++ invalidate (str "messages" ∷ num id ∷ []) ∷ invalidate (str "conversations" ∷ []) ∷ [],
    )

    -- What the mutation leaves: `onError` runs if the promise is rejected.
    unfoldable pub settle : Outcome (ChatState Cache × List Effect) → ChatState Cache × List Effect
    settle (resolved r) = r
    settle (rejected (s, calls)) = (record s { stream_text = none }, calls)

    module _ (parse : Text → Option (StreamEvent (Message Score Unknown))) (decoder : TextDecoder)
        (reply : RequestConfig → Option Text) (fetch : StreamRequest → Option Response) where
      -- `mutationFn` for the thread that is selected, from the click to the end of the stream.
      unfoldable pub send_to :
          ℕ → ℕ → String → Text → Text → ChatState Cache → ChatState Cache × List Effect
      send_to id now iso jar content s = settle (
          stream_chat parse (on_event id) decoder reply fetch jar id content
            (begin_send id now iso content s, []))

      -- `mutationFn`
      unfoldable pub send_message :
          ℕ → String → Text → Text → ChatState Cache → ChatState Cache × List Effect
      unfolding send_to
      send_message now iso jar content s = elim s.active_id [
        | none ↦ (s, [])
        | some id ↦ send_to id now iso jar content s
      ]

-- ===== src/Queries/Refresh.antt =====
-- Which cached answers the pages have fetched again after something has changed. `matches k q` stands
-- for React Query's test whether `invalidateQueries` with the key `k` reaches the query with the key `q`.
use crag_project.Base.{
  ℕ, String, Bool, true, false, Option, some, List, [], ◌∷◌, ◌++◌, ◌≡◌, refl, ap, ◌∙◌, inl, inr,
  All,
}
use crag_project.Types.{DocumentRecord, Conversation, Message}
use crag_project.Api.Errors.{Reply, ok, failed}
use crag_project.Api.Stream.{done}
use crag_project.Ui.{Effect, invalidate, QueryKey, str, num}
use crag_project.Ui.Clicks.{In}
use crag_project.Documents.{Call, upload, open_picker, effect, uploaded, removed, step}
use crag_project.Users.{UsersState, status_settled, delete_settled}
use crag_project.Users
use crag_project.Support.{SupportState, TicketStatus, replied, status_changed, query_key}
use crag_project.Support
use crag_project.Chat.{ChatState, deleted}
use crag_project.Chat
use crag_project.Chat.Sending.{MessageCache}
use crag_project.Chat.Sending
use crag_project.Queries.{
  QueryUse, documents_list, dashboard_documents, pinned_document, document_content,
  chat_conversations, dashboard_conversations, chat_messages, system_stats, dashboard_stats,
  users_list, user_detail, support_threads, query, key,
}

-- What `invalidateQueries` promises: a key reaches every key that it begins.
pub record IsPrefixMatch (matches : QueryKey → QueryKey → Bool) : Type 0 where
  pub reaches : (k rest : QueryKey) → matches k (k ++ rest) ≡ true

-- Something that has changed on the server.
pub data Change (M : Type 0) : Type 0 where
  document_uploaded : DocumentRecord → Change M
  document_removed : Reply (Unit {0}) → Change M
  account_status_set : Bool → Change M
  account_deleted : Change M
  thread_created : Conversation → Change M
  thread_deleted : Change M
  answered : ℕ → M → Change M
  ticket_answered : Change M
  ticket_moved : TicketStatus → Change M
  ticket_opened : Change M

-- The calls of a page of documents that every page makes.
abbrev effects : {File : Type 0} → List (Call File) → List Effect
effects [] = []
effects (upload f ∷ calls) = effects calls
effects (open_picker ∷ calls) = effects calls
effects (effect e ∷ calls) = e ∷ effects calls

module _ {Score Unknown : Type 0} (messages : MessageCache (Message Score Unknown))
    (users : UsersState) (support : SupportState) (chat : ChatState messages.Cache) where
  -- The calls that the page which made the change then makes, in whatever state it is.
  unfoldable pub calls : Change (Message Score Unknown) → List Effect
  calls (document_uploaded d) = effects (step {File = Unit {0}} false (uploaded (ok d))).1
  calls (document_removed reply) = effects (step {File = Unit {0}} false (removed reply)).1
  calls (account_status_set b) = (Users.on_settled users (status_settled b (ok tt))).1
  calls account_deleted = (Users.on_settled users (delete_settled (ok tt))).1
  calls (thread_created c) = (Chat.created c chat).1
  calls thread_deleted = (deleted chat).1
  calls (answered id m) = (Sending.on_event messages id (chat, []) (done m)).1
  calls ticket_answered = (Support.on_settled support (replied (ok tt))).1
  calls (ticket_moved to) = (Support.on_settled support (status_changed to (ok tt))).1
  calls ticket_opened = (Support.on_settled support (Support.created (ok tt))).1

-- The queries that list or show the changed thing to the one who has changed it, and the figures after a
-- deleted document. Other queries that read the same tables are not among them: the administrator's
-- tables, the figures after any other change, and the messages of a deleted thread. `pinned` and `param`
-- are the pinned document, `id` the selected account, `admin` and `filter` the reader and the filter of
-- the tickets.
abbrev pub outdated :
    {M : Type 0}
    → Option DocumentRecord
    → Option String
    → Option ℕ
    → Bool
    → TicketStatus
    → Change M
    → List QueryUse
outdated pinned param id admin filter (document_uploaded d) =
    documents_list ∷ dashboard_documents ∷ []
outdated pinned param id admin filter (document_removed reply) =
    documents_list
    ∷ dashboard_documents
    ∷ pinned_document param
    ∷ document_content pinned param
    ∷ system_stats
    ∷ dashboard_stats
    ∷ []
outdated pinned param id admin filter (account_status_set b) = users_list ∷ user_detail id ∷ []
outdated pinned param id admin filter account_deleted = users_list ∷ user_detail id ∷ []
outdated pinned param id admin filter (thread_created c) =
    chat_conversations ∷ dashboard_conversations ∷ []
outdated pinned param id admin filter thread_deleted =
    chat_conversations ∷ dashboard_conversations ∷ []
outdated pinned param id admin filter (answered n m) =
    chat_messages (some n) ∷ chat_conversations ∷ dashboard_conversations ∷ []
outdated pinned param id admin filter ticket_answered = support_threads admin filter ∷ []
outdated pinned param id admin filter (ticket_moved to) = support_threads admin filter ∷ []
outdated pinned param id admin filter ticket_opened = support_threads admin filter ∷ []

-- One of these calls reaches the query.
pub record IsRefreshed (Score Unknown : Type 0) (matches : QueryKey → QueryKey → Bool)
    (es : List Effect) (u : QueryUse) : Type 0 where
  pub by : QueryKey
  pub called : In (invalidate by) es
  pub reached : matches by (key Score Unknown u) ≡ true

module _ (matches : QueryKey → QueryKey → Bool) (prefix : IsPrefixMatch matches) where
  refresh :
      {Score Unknown : Type 0} (k rest : QueryKey) (es : List Effect) (u : QueryUse)
      → In (invalidate k) es
      → key Score Unknown u ≡ k ++ rest
      → IsRefreshed Score Unknown matches es u
  refresh k rest es u i e = record {
    by = k;
    called = i;
    reached = ap (matches k) e ∙ prefix.reaches k rest;
  }

  abbrev one : String → QueryKey
  one name = str name ∷ []

  module _ {Score Unknown : Type 0} (messages : MessageCache (Message Score Unknown))
      (users : UsersState) (support : SupportState) (chat : ChatState messages.Cache)
      (pinned : Option DocumentRecord) (param : Option String) (id : Option ℕ) (admin : Bool)
      (filter : TicketStatus) where
    removal-refreshed :
        (es : List Effect) (reply : Reply (Unit {0}))
        → In (invalidate (one "documents")) es
        → In (invalidate (one "system")) es
        → All (IsRefreshed Score Unknown matches es) (
            outdated {M = Message Score Unknown} pinned param id admin filter
              (document_removed reply))
    unfolding query
    removal-refreshed es reply d s = (
      refresh (one "documents") [] _ _ d refl,
      (
        refresh (one "documents") [] _ _ d refl,
        (
          refresh (one "documents") _ _ _ d refl,
          (
            refresh (one "documents") _ _ _ d refl,
            (refresh (one "system") [] _ _ s refl, (refresh (one "system") [] _ _ s refl, tt)),
          ),
        ),
      ),
    )

    -- After each change that a page makes, its calls reach the queries of `outdated`. React Query is
    -- taken to reach every key that the given one begins.
    pub refreshed :
        (c : Change (Message Score Unknown))
        → All
            (IsRefreshed Score Unknown matches (calls messages users support chat c))
            (outdated pinned param id admin filter c)
    unfolding calls query step Users.on_settled Chat.created deleted Sending.on_event
        Support.on_settled
    refreshed (document_uploaded d) = (
      refresh (one "documents") [] _ _ (inl refl) refl,
      (refresh (one "documents") [] _ _ (inl refl) refl, tt),
    )
    refreshed (document_removed (ok _)) =
        removal-refreshed _ (ok _) (inr (inl refl)) (inr (inr (inl refl)))
    refreshed (document_removed (failed err)) =
        removal-refreshed _ (failed err) (inr (inl refl)) (inr (inr (inl refl)))
    refreshed (account_status_set b) = (
      refresh (one "admin-users") [] _ _ (inr (inl refl)) refl,
      (refresh (one "admin-user-detail") _ _ _ (inr (inr (inl refl))) refl, tt),
    )
    refreshed account_deleted = (
      refresh (one "admin-users") [] _ _ (inr (inl refl)) refl,
      (refresh (one "admin-user-detail") _ _ _ (inr (inr (inl refl))) refl, tt),
    )
    refreshed (thread_created c) = (
      refresh (one "conversations") [] _ _ (inl refl) refl,
      (refresh (one "conversations") [] _ _ (inl refl) refl, tt),
    )
    refreshed thread_deleted = (
      refresh (one "conversations") [] _ _ (inl refl) refl,
      (refresh (one "conversations") [] _ _ (inl refl) refl, tt),
    )
    refreshed (answered n m) = (
      refresh (str "messages" ∷ num n ∷ []) [] _ _ (inl refl) refl,
      (
        refresh (one "conversations") [] _ _ (inr (inl refl)) refl,
        (refresh (one "conversations") [] _ _ (inr (inl refl)) refl, tt),
      ),
    )
    refreshed ticket_answered = (refresh (one "support-threads") _ _ _ (inl refl) refl, tt)
    refreshed (ticket_moved to) = (refresh (one "support-threads") _ _ _ (inr (inl refl)) refl, tt)
    refreshed ticket_opened = (refresh (one "support-threads") _ _ _ (inr (inl refl)) refl, tt)

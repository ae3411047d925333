-- ===== src/Chat/Session/Agrees.antt =====
-- What it means that the session of frontend/src/pages/Chat.tsx is what its history says, and how the
-- parts of a step keep it so.
use crag_project.Base.{
  ℕ, String, Bool, true, false, Option, none, some, get_or, is_some, List, [], ◌∷◌, ◌++◌, ◌≡◌, ◌==◌,
  All, ==_iff, refl, sym, ap, ◌∙◌, inl, inr, arith, Bool-cases, if◌then◌else◌,
}
use crag_project.Text.{Text, is_empty}
use crag_project.Types.{Message}
use crag_project.Api.Stream.{StreamEvent, delta, done, error}
use crag_project.Chat.{ChatState}
use crag_project.Chat.Sending.{
  MessageCache, append_message, optimistic, begin_send, on_event, settle,
}
use crag_project.Chat.Session.History.{asking, answer, thread_log, IsOneByOne, IsProper}
use crag_project.Chat.Session.{Seen, asked, came, over, fetched, Session, finish}

-- What `getQueryData` and `setQueryData` promise.
pub record IsCache {M : Type 0} (messages : MessageCache M) : Type 0 where
  pub get-set :
      (c : messages.Cache) (id : ℕ) (l : List M) → messages.get (messages.set c id l) id ≡ some l
  pub get-set_other :
      (c : messages.Cache) (id k : ℕ) (l : List M)
      → (k == id) ≡ false
      → messages.get (messages.set c id l) k ≡ messages.get c k

is_none : {A : Type 0} (o : Option A) → is_some o ≡ false → o ≡ none
is_none o e = ground arith

module _ {Score Unknown : Type 0} (messages : MessageCache (Message Score Unknown))
    (first : ChatState messages.Cache) (k : ℕ) where
  open messages use {Cache, get, set}

  -- The session is what the history says.
  pub record Agrees (σ : Session Cache) (h : List (Seen (Message Score Unknown))) : Type 0 where
    pub sending : σ.sending ≡ asking h
    pub streaming : σ.page.stream_text ≡ answer first.stream_text h
    pub log : get_or (get σ.page.cache k) [] ≡ thread_log (get_or (get first.cache k) []) k h
    pub one_by_one : IsOneByOne h
    pub proper : All IsProper h

  -- The page has changed, but nothing that the history tells of.
  pub silent-Agrees :
      (σ : Session Cache) (h : List (Seen (Message Score Unknown))) (s : ChatState Cache)
      → s.stream_text ≡ σ.page.stream_text
      → s.cache ≡ σ.page.cache
      → Agrees σ h
      → Agrees (record σ { page = s }) h
  silent-Agrees σ h s e f a = record {
    sending = a.sending;
    streaming = e ∙ a.streaming;
    log = ap (λ c. get_or (get c k) []) f ∙ a.log;
    one_by_one = a.one_by_one;
    proper = a.proper;
  }

  -- A part of the answer has come, or its end, and has made this of the page.
  part-Agrees :
      (σ : Session Cache) (h : List (Seen (Message Score Unknown))) (id : ℕ)
      (e : StreamEvent (Message Score Unknown)) (s : ChatState Cache)
      → σ.sending ≡ some id
      → s.stream_text ≡ answer first.stream_text (came e ∷ h)
      → s.cache ≡ σ.page.cache
      → Agrees σ h
      → Agrees (record σ { page = s }) (came e ∷ h)
  part-Agrees σ h id e s p q f a = record {
    sending = a.sending;
    streaming = q;
    log = ap (λ c. get_or (get c k) []) f ∙ a.log;
    one_by_one = (ap is_some (sym a.sending ∙ p), a.one_by_one);
    proper = (tt, a.proper);
  }

  pub came-Agrees :
      (σ : Session Cache) (h : List (Seen (Message Score Unknown))) (id : ℕ)
      (e : StreamEvent (Message Score Unknown))
      → σ.sending ≡ some id
      → Agrees σ h
      → Agrees (record σ { page = (on_event messages id (σ.page, []) e).0 }) (came e ∷ h)
  unfolding on_event
  came-Agrees σ h id (delta t) p a =
      part-Agrees σ h id (delta t) _ p (ap (λ o. some (get_or o [] ++ t)) a.streaming) refl a
  came-Agrees σ h id (done m) p a = part-Agrees σ h id (done m) _ p refl refl a
  came-Agrees σ h id (error d) p a = part-Agrees σ h id (error d) _ p refl refl a

  over-Agrees :
      (σ : Session Cache) (h : List (Seen (Message Score Unknown))) (id : ℕ) (failed : Bool)
      (s : ChatState Cache)
      → σ.sending ≡ some id
      → s.stream_text ≡ answer first.stream_text (over failed ∷ h)
      → s.cache ≡ σ.page.cache
      → Agrees σ h
      → Agrees (record { page = s; sending = none }) (over failed ∷ h)
  over-Agrees σ h id failed s p q f a = record {
    sending = refl;
    streaming = q;
    log = ap (λ c. get_or (get c k) []) f ∙ a.log;
    one_by_one = (ap is_some (sym a.sending ∙ p), a.one_by_one);
    proper = (tt, a.proper);
  }

  pub ended-Agrees :
      (σ : Session Cache) (h : List (Seen (Message Score Unknown))) (id : ℕ) (failed : Bool)
      → σ.sending ≡ some id
      → Agrees σ h
      → Agrees (record { page = finish messages failed σ.page; sending = none }) (over failed ∷ h)
  unfolding finish settle
  ended-Agrees σ h id true p a = over-Agrees σ h id true _ p refl refl a
  ended-Agrees σ h id false p a = over-Agrees σ h id false _ p a.streaming refl a

  module _ (laws : IsCache messages) where
    -- The list of the thread `k` after the one of `id` has been set.
    log-set :
        (c : Cache) (id : ℕ) (l : List (Message Score Unknown))
        → get_or (get (set c id l) k) [] ≡ (if k == id then l else get_or (get c k) [])
    log-set c id l = elim (Bool-cases (k == id)) [
      | inl e ↦
          rw e (
            ap (λ o. get_or o []) (ap (get (set c id l)) ((==_iff k id).0 e) ∙ laws.get-set c id l))
      | inr e ↦ rw e (ap (λ o. get_or o []) (laws.get-set_other c id k l e))
    ]

    log-append :
        (c : Cache) (id : ℕ) (m : Message Score Unknown)
        → get_or (get (set c id (get_or (get c id) [] ++ m ∷ [])) k) []
          ≡ (if k == id then get_or (get c k) [] ++ m ∷ [] else get_or (get c k) [])
    log-append c id m = log-set c id _ ∙ elim (Bool-cases (k == id)) [
      | inl e ↦ rw e (ap (λ i. get_or (get c i) [] ++ m ∷ []) (sym ((==_iff k id).0 e)))
      | inr e ↦ rw e refl
    ]

    pub fetched-Agrees :
        (σ : Session Cache) (h : List (Seen (Message Score Unknown))) (id : ℕ)
        (l : List (Message Score Unknown))
        → Agrees σ h
        → Agrees
            (record σ { page = record σ.page { cache = set σ.page.cache id l } })
            (fetched id l ∷ h)
    fetched-Agrees σ h id l a = record {
      sending = a.sending;
      streaming = a.streaming;
      log = log-set σ.page.cache id l ∙ ap (λ r. if k == id then l else r) a.log;
      one_by_one = a.one_by_one;
      proper = (tt, a.proper);
    }

    pub begun-Agrees :
        (σ : Session Cache) (h : List (Seen (Message Score Unknown))) (s : ChatState Cache)
        (id now : ℕ) (iso : String) (t : Text)
        → is_some σ.sending ≡ false
        → s.cache ≡ σ.page.cache
        → is_empty t ≡ false
        → Agrees σ h
        → Agrees
            (record { page = begin_send messages id now iso t s; sending = some id })
            (asked id (optimistic now iso id t) ∷ h)
    unfolding append_message
    begun-Agrees σ h s id now iso t p f e a = record {
      sending = refl;
      streaming = refl;
      log =
          log-append s.cache id (optimistic now iso id t)
          ∙ ap (λ r. if k == id then r ++ optimistic now iso id t ∷ [] else r)
              (ap (λ c. get_or (get c k) []) f ∙ a.log);
      one_by_one = (is_none (asking h) (ap is_some (sym a.sending) ∙ p), a.one_by_one);
      proper = ((unfold optimistic in (refl, e)), a.proper);
    }

-- ===== src/Chat/Interleaving.antt =====
-- An answer that streams in while another thread is selected: frontend/src/pages/Chat.tsx keeps one
-- `streamText` for the page.
use crag_project.Base.{
  ℕ, String, Bool, true, false, Option, some, get_or, is_some, ap, ◌∙◌, List, [], ◌≡◌, refl, inl,
}
use crag_project.Text.{Text, is_empty}
use crag_project.Types.{Message}
use crag_project.Ui.{text}
use crag_project.Ui.Clicks.{In, In-append-left, In-append-right}
use crag_project.Chat.{ChatState}
use crag_project.Chat.Sending.{MessageCache}
use crag_project.Chat.Session.{Seen, Session, Steps}
use crag_project.Chat.Session.History.{asking, answer}
use crag_project.Chat.Session.Agrees.{IsCache}
use crag_project.Chat.Session.Refinement.{Steps-refine}
use crag_project.Chat.View.{Snapshot, pending_answer, side_bar, header, message_list, view}

answer_shown : (t : Text) → is_empty t ≡ false → In (text t) (pending_answer true (some t))
unfolding pending_answer
answer_shown t h = rw h (inl refl)

module _ {Score Unknown : Type 0} (at_least : ℕ → Score → Bool) (percent : Score → Text)
    (format_date : String → Text) where
  module _ {Cache : Type 0} (param : Option String) (q : Snapshot (Message Score Unknown))
      (sending : q.send_mutation.is_pending ≡ true) where
    view-answer :
        (s : ChatState Cache) (t : Text)
        → s.stream_text ≡ some t
        → is_empty t ≡ false
        → In (text t) (view at_least percent format_date param q s)
    unfolding view
    view-answer s t e h = In-append-right _ (side_bar at_least percent format_date param q s) _ (
        In-append-right _ (header at_least percent format_date param q s) _ (
          In-append-right _
            (message_list at_least percent format_date s.active_id q.create_mutation
              (get_or q.messages.result []))
            _
            (In-append-left _ (pending_answer q.send_mutation.is_pending s.stream_text) _
              (rw (e, sending) (answer_shown t h)))))

  module _ (messages : MessageCache (Message Score Unknown)) (laws : IsCache messages)
      (first : ChatState messages.Cache) where
    -- While a question is being answered, the page shows what has come of the answer, whatever the
    -- user has done since the question was asked: also with another thread selected, whose
    -- messages it then follows. The snapshot is taken to say that a message is being sent, and the
    -- cache to give back what is set in it.
    pub Steps-answer_shown :
        (param : Option String) (q : Snapshot (Message Score Unknown)) (σ : Session messages.Cache)
        (h : List (Seen (Message Score Unknown))) (id : ℕ) (t : Text)
        → Steps messages first σ h
        → q.send_mutation.is_pending ≡ is_some σ.sending
        → asking h ≡ some id
        → answer first.stream_text h ≡ some t
        → is_empty t ≡ false
        → In (text t) (view at_least percent format_date param q σ.page)
    Steps-answer_shown param q σ h id t r pending a e n =
        let (sending, streaming, log, one_by_one, proper) =
          Steps-refine messages laws first 0 σ h r in
        view-answer param q (pending ∙ ap is_some (sending ∙ a)) σ.page t (streaming ∙ e) n

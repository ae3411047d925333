-- ===== src/Support/Laws.antt =====
-- Who can do what with a ticket on frontend/src/pages/Support.tsx, and when.
use crag_project.Base.{
  ℕ, String, Bool, true, false, not, ◌&&◌, Option, none, some, get_or, is_some, List, [], ◌∷◌,
  length, if◌then◌else◌, ◌≡◌, refl, ◌≤◌, arith,
}
use crag_project.Text.{Text, codes, trim}
use crag_project.Ui.{Widget, button, each, clicks}
use crag_project.Ui.Clicks.{
  In, All-In, EveryClick, EveryClick-nil, EveryClick-append, EveryClick-button, EveryClick-guarded,
  EveryClick-if, EveryClick-choice, EveryClick-when, EveryClick-text, EveryClick-words,
  EveryClick-input, EveryClick-each, click_rules,
}
use crag_project.Support.{
  TicketStatus, open_ticket, pending, resolved, is_resolved, SupportMessage, SupportThread,
  SupportState, current, SupportEvent, new_ticket, filter_by, open_thread, back, set_subject,
  set_message, set_reply, submit_ticket, send_reply, resolve, reopen, ticket_disabled,
  reply_disabled,
}
use crag_project.Support.View.{
  status_badge, status_filters, Snapshot, filter_tab, thread_row, thread_list, side,
  new_ticket_form, status_buttons, message_row, thread_detail, detail_or_hint, view,
}

-- The ticket that is open is this one, and it is resolved or it is not.
pub record IsOpen (s : SupportState) (q : Snapshot) (id : ℕ) (is_closed : Bool) : Type 0 where
  pub ticket : SupportThread
  pub is_current : current s.active_thread (get_or q.threads.result []) ≡ some ticket
  pub same_id : ticket.id ≡ id
  pub same_status : is_resolved ticket.status ≡ is_closed

-- What has to hold for an event to be offered.
abbrev pub IsPermitted : Bool → SupportState → Snapshot → SupportEvent → Type 0
IsPermitted admin s q new_ticket = admin ≡ false
IsPermitted admin s q (filter_by status) = admin ≡ true
IsPermitted admin s q (open_thread id) = Unit
IsPermitted admin s q back = Unit
IsPermitted admin s q (set_subject t) = Unit
IsPermitted admin s q (set_message t) = Unit
IsPermitted admin s q (set_reply t) = Unit
IsPermitted admin s q submit_ticket =
    (admin ≡ false) × (4 ≤ length (trim s.new_subject)) × (10 ≤ length (trim s.new_message))
IsPermitted admin s q (send_reply id) =
    (1 ≤ length (trim s.reply)) × ((is_closed : Bool) × IsOpen s q id is_closed)
IsPermitted admin s q (resolve id) = (admin ≡ true) × IsOpen s q id false
IsPermitted admin s q (reopen id) = (admin ≡ true) × IsOpen s q id true

long_enough :
    (p : Bool) (s : SupportState)
    → ticket_disabled p s ≡ false
    → (4 ≤ length (trim s.new_subject)) × (10 ≤ length (trim s.new_message))
unfolding ticket_disabled
long_enough p s h = (ground arith, ground arith)

not_blank : (p : Bool) (s : SupportState) → reply_disabled p s ≡ false → 1 ≤ length (trim s.reply)
unfolding reply_disabled
not_blank p s h = ground arith

module _ (format_time : String → Text) (admin : Bool) (s : SupportState) (q : Snapshot) where
  abbrev Safe : List (Widget SupportEvent) → Type 0
  Safe ws = EveryClick (IsPermitted admin s q) ws

  status_badge-Safe : (t : TicketStatus) → Safe (status_badge t)
  unfolding status_badge
  status_badge-Safe open_ticket = search click_rules depth 8
  status_badge-Safe pending = search click_rules depth 8
  status_badge-Safe resolved = search click_rules depth 8

  thread_row-Safe : (t : SupportThread) → Safe (thread_row format_time admin t)
  unfolding thread_row
  thread_row-Safe t =
      EveryClick-button _ _ (open_thread t.id) _ tt
        (EveryClick-append _ _ (status_badge-Safe t.status) (search click_rules depth 8))

  thread_list-Safe : (ts : List SupportThread) → Safe (thread_list format_time admin s ts)
  unfolding thread_list
  thread_list-Safe [] = search click_rules depth 12
  thread_list-Safe (t ∷ ts) = search (click_rules, thread_row-Safe) depth 8

  filters-Safe : admin ≡ true → Safe (each (filter_tab format_time admin s) status_filters)
  unfolding filter_tab
  filters-Safe h = record { at = (h, (h, (h, tt))) }

  side-Safe : Safe (side format_time admin s q.threads)
  unfolding side
  side-Safe = EveryClick-words _ _ (
      EveryClick-append _ _
        (EveryClick-when (not admin) _
          (λ h. EveryClick-button _ _ new_ticket _ (ground arith) EveryClick-nil))
        (EveryClick-append _ _ (EveryClick-when admin _ filters-Safe) (
          EveryClick-if q.threads.is_loading _ _ (search click_rules depth 8)
            (thread_list-Safe (get_or q.threads.result [])))))

  new_ticket_form-Safe : admin ≡ false → Safe (new_ticket_form format_time admin s q)
  unfolding new_ticket_form
  new_ticket_form-Safe h = EveryClick-words _ _ (
      EveryClick-words _ _ (
        EveryClick-input _ _ _ (
          EveryClick-input _ _ _ (
            EveryClick-guarded _ _ submit_ticket []
              (λ e.
                let (subject, message) = long_enough q.create_mutation.is_pending s e in
                (h, subject, message))
              EveryClick-nil))))

  module _ (t : SupportThread)
      (found : current s.active_thread (get_or q.threads.result []) ≡ some t) where
    is_open : (b : Bool) → is_resolved t.status ≡ b → IsOpen s q t.id b
    is_open b h = record { ticket = t; is_current = found; same_id = refl; same_status = h }

    status_button-Safe :
        (b : Bool)
        → is_resolved t.status ≡ b
        → admin ≡ true
        → Safe (
            if not b
            then button (codes "Resolve") q.resolve_mutation.is_pending (resolve t.id) ∷ []
            else button (codes "Reopen") q.reopen_mutation.is_pending (reopen t.id) ∷ [])
    status_button-Safe true e h =
        EveryClick-button _ _ (reopen t.id) _ (h, is_open true e) EveryClick-nil
    status_button-Safe false e h =
        EveryClick-button _ _ (resolve t.id) _ (h, is_open false e) EveryClick-nil

    status_buttons-Safe : Safe (status_buttons format_time admin t q)
    unfolding status_buttons
    status_buttons-Safe = EveryClick-when admin _ (status_button-Safe (is_resolved t.status) refl)

    message_row-Safe : (m : SupportMessage) → Safe (message_row format_time admin m)
    unfolding message_row
    message_row-Safe m = search click_rules depth 8

    thread_detail-Safe : Safe (thread_detail format_time admin t s q)
    unfolding thread_detail
    thread_detail-Safe = EveryClick-text _ _ (
        EveryClick-text _ _ (
          EveryClick-append _ _ status_buttons-Safe (
            EveryClick-append _ _ (EveryClick-each _ t.messages message_row-Safe) (
              EveryClick-words _ _ (
                EveryClick-input _ _ _ (
                  EveryClick-guarded _ _ (send_reply t.id) _
                    (λ e. (
                      not_blank q.reply_mutation.is_pending s e,
                      (is_resolved t.status, is_open (is_resolved t.status) refl),
                    ))
                    (EveryClick-button _ _ back _ tt EveryClick-nil)))))))

  detail_or_hint-Safe :
      (o : Option SupportThread)
      → current s.active_thread (get_or q.threads.result []) ≡ o
      → Safe (detail_or_hint format_time admin o s q)
  unfolding detail_or_hint
  detail_or_hint-Safe none e = search click_rules depth 8
  detail_or_hint-Safe (some t) e = thread_detail-Safe t e

  view-Safe : Safe (view format_time admin s q)
  unfolding view
  view-Safe = EveryClick-words _ _ (
      EveryClick-words _ _ (
        EveryClick-words _ _ (
          EveryClick-append _ _ side-Safe (
            EveryClick-choice (not admin && not (is_some s.active_thread)) _ _
              (λ h. new_ticket_form-Safe (ground arith))
              (detail_or_hint-Safe (current s.active_thread (get_or q.threads.result [])) refl)))))

  -- Whatever the page shows, a click on it is permitted: only an administrator filters, resolves or
  -- reopens; the ticket that is resolved or reopened is the open one, not yet resolved or resolved
  -- already; a reply goes to the open ticket and is not blank; only a user who is no administrator
  -- submits a ticket, and its subject and message then have 4 and 10 characters or more, the white space
  -- around them not counted.
  pub view-IsPermitted :
      (e : SupportEvent) → In e (clicks (view format_time admin s q)) → IsPermitted admin s q e
  view-IsPermitted e m = All-In (IsPermitted admin s q) _ e view-Safe.at m

-- ===== src/Support/View.antt =====
-- What frontend/src/pages/Support.tsx shows: the list of tickets, and beside it a form for a new one
-- or the ticket that is open. `format_time` stands for the browser's `toLocaleString`.
use crag_project.Base.{
  String, Bool, false, not, ◌&&◌, Option, none, some, get_or, is_some, List, [], ◌∷◌, ◌++◌, str_eq,
  length, if◌then◌else◌,
}
use crag_project.Text.{Text, codes}
use crag_project.Text.Decimal.{decimal}
use crag_project.Ui.{
  Query, Mutation, default, success, warning, secondary, Widget, words, text, badge, button, input,
  tab, skeleton, when, each,
}
use crag_project.Support.{
  TicketStatus, open_ticket, pending, resolved, status_name, is_resolved, SupportMessage,
  SupportThread, SupportState, current, SupportEvent, new_ticket, filter_by, open_thread, back,
  set_subject, set_message, set_reply, submit_ticket, send_reply, resolve, reopen, ticket_disabled,
  reply_disabled, mine,
}

unfoldable pub status_badge : TicketStatus → List (Widget SupportEvent)
status_badge open_ticket = badge warning "Open" ∷ []
status_badge pending = badge default "Pending" ∷ []
status_badge resolved = badge success "Resolved" ∷ []

-- `statusFilters`
abbrev pub status_filters : List TicketStatus
status_filters = open_ticket ∷ pending ∷ resolved ∷ []

-- `statusFilter === status`
unfoldable pub same_status : TicketStatus → TicketStatus → Bool
same_status a b = str_eq (status_name a) (status_name b)

-- The libraries' state at one rendering.
pub record Snapshot : Type 0 where
  pub threads : Query (List SupportThread)
  pub reply_mutation : Mutation
  pub resolve_mutation : Mutation
  pub reopen_mutation : Mutation
  pub create_mutation : Mutation

module _ (format_time : String → Text) (admin : Bool) where
  unfoldable pub filter_tab : SupportState → TicketStatus → List (Widget SupportEvent)
  filter_tab s status =
      tab (codes (status_name status)) (same_status s.status_filter status) (filter_by status) ∷ []

  unfoldable pub thread_row : SupportThread → List (Widget SupportEvent)
  thread_row t =
      button t.subject false (open_thread t.id)
      ∷ (status_badge t.status
          ++ text (if admin then get_or t.user_email [] else (b'#' ∷ decimal t.id))
            ∷ text (decimal (length t.messages) ++ codes " messages")
            ∷ [])

  unfoldable pub thread_list : SupportState → List SupportThread → List (Widget SupportEvent)
  thread_list s [] =
      words "No" ∷ (when admin (words (status_name s.status_filter) ∷ []) ++ words "tickets." ∷ [])
  thread_list s (t ∷ ts) = each thread_row (t ∷ ts)

  unfoldable pub side : SupportState → Query (List SupportThread) → List (Widget SupportEvent)
  side s threads =
      words (if admin then "Tickets" else "Your tickets")
      ∷ (when (not admin) (button (codes "New") false new_ticket ∷ [])
          ++ (when admin (each (filter_tab s) status_filters)
              ++ (if threads.is_loading
                  then skeleton 2 ∷ []
                  else thread_list s (get_or threads.result []))))

  unfoldable pub new_ticket_form : SupportState → Snapshot → List (Widget SupportEvent)
  new_ticket_form s q =
      words "Open a new ticket"
      ∷ words "Describe the problem in as much detail as you can."
      ∷ input s.new_subject set_subject
      ∷ input s.new_message set_message
      ∷ button (codes "Submit ticket") (ticket_disabled q.create_mutation.is_pending s)
          submit_ticket
      ∷ []

  -- The buttons of an administrator.
  unfoldable pub status_buttons : SupportThread → Snapshot → List (Widget SupportEvent)
  status_buttons t q = when admin (
      if not (is_resolved t.status)
      then button (codes "Resolve") q.resolve_mutation.is_pending (resolve t.id) ∷ []
      else button (codes "Reopen") q.reopen_mutation.is_pending (reopen t.id) ∷ [])

  -- A message; the reader's own stands out.
  unfoldable pub message_row : SupportMessage → List (Widget SupportEvent)
  message_row m =
      badge (if mine admin m then default else secondary)
        (if str_eq m.sender_role "admin" then "Support team" else "User")
      ∷ text (format_time m.created_at)
      ∷ text m.content
      ∷ []

  unfoldable pub thread_detail :
      SupportThread → SupportState → Snapshot → List (Widget SupportEvent)
  thread_detail t s q =
      text t.subject
      ∷ text (get_or t.user_email (codes "Ticket #" ++ decimal t.id))
      ∷ (status_buttons t q
          ++ (each message_row t.messages
              ++ words (
                  if is_resolved t.status && not admin
                  then "Sending a reply reopens the ticket…"
                  else "Write a reply…")
                ∷ input s.reply set_reply
                ∷ button (codes "Send") (reply_disabled q.reply_mutation.is_pending s)
                    (send_reply t.id)
                ∷ button (codes "← Back to list") false back
                ∷ []))

  -- `current ? … : …`
  unfoldable pub detail_or_hint :
      Option SupportThread → SupportState → Snapshot → List (Widget SupportEvent)
  detail_or_hint none s q = words "Select a ticket to view it." ∷ []
  detail_or_hint (some t) s q = thread_detail t s q

  unfoldable pub view : SupportState → Snapshot → List (Widget SupportEvent)
  view s q =
      words (if admin then "Admin" else "Help")
      ∷ words (if admin then "Support inbox" else "Support")
      ∷ words (
          if admin
          then "Review tickets from users, respond, and resolve them."
          else "Stuck on something? Open a ticket and our team will help.")
      ∷ (side s q.threads
          ++ (if not admin && not (is_some s.active_thread)
              then new_ticket_form s q
              else detail_or_hint (current s.active_thread (get_or q.threads.result [])) s q))

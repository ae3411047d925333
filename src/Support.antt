-- ===== src/Support.antt =====
-- frontend/src/pages/Support.tsx: the tickets, of a user's own or of everyone for an administrator,
-- and what their mutations do. What it shows is in `Support.View`.
pub mod View
pub mod Laws
use crag_project.Base.{
  ℕ, String, Bool, true, false, Option, none, some, get_or, is_some, List, [], ◌∷◌, ◌++◌, ◌==◌,
  ◌=?◌, str_eq, ltb, leb, ◌||◌, length, find?, if◌then◌else◌,
}
use crag_project.Text.{Text, codes, is_empty, trim}
use crag_project.Text.Decimal.{decimal}
use crag_project.Types.{User}
use crag_project.Api.Errors.{Reply, ok, failed, detail_or}
use crag_project.Ui.{
  Query, Mutation, Effect, send, toast_success, toast_error, invalidate, QueryKey, str, bool, Field,
  text_field, string_field,
}

pub data TicketStatus : Type 0 where
  open_ticket pending resolved : TicketStatus

-- The status as the API writes it.
unfoldable pub status_name : TicketStatus → String
status_name open_ticket = "open"
status_name pending = "pending"
status_name resolved = "resolved"

unfoldable pub is_resolved : TicketStatus → Bool
is_resolved open_ticket = false
is_resolved pending = false
is_resolved resolved = true

pub record SupportMessage : Type 0 where
  pub id : ℕ
  pub sender_id : ℕ
  pub sender_role : String
  pub content : Text
  pub created_at : String

pub record SupportThread : Type 0 where
  pub id : ℕ
  pub subject : Text
  pub status : TicketStatus
  pub user_email : Option Text
  pub messages : List SupportMessage

-- The component's `useState`s.
pub record SupportState : Type 0 where
  pub active_thread : Option ℕ
  pub status_filter : TicketStatus
  pub reply : Text
  pub new_subject : Text
  pub new_message : Text

abbrev pub initial : SupportState
initial = record {
  active_thread = none;
  status_filter = open_ticket;
  reply = [];
  new_subject = [];
  new_message = [];
}

unfoldable pub is_admin : Option User → Bool
is_admin none = false
is_admin (some user) = str_eq user.role "admin"

unfoldable pub query_key : Bool → TicketStatus → QueryKey
query_key admin filter = str "support-threads" ∷ bool admin ∷ str (status_name filter) ∷ []

-- The path that `queryFn` reads.
unfoldable pub threads_path : Bool → TicketStatus → Text
threads_path admin filter =
    if admin
    then codes "/support/admin/threads?status=" ++ codes (status_name filter)
    else codes "/support/mine"

-- threads.find((thread) => thread.id === activeThread) ?? null
unfoldable pub current : Option ℕ → List SupportThread → Option SupportThread
current active threads = find? (λ (t : SupportThread). active =? t.id) threads

-- What a click or a keystroke does.
pub data SupportEvent : Type 0 where
  new_ticket : SupportEvent
  filter_by : TicketStatus → SupportEvent
  open_thread : ℕ → SupportEvent
  back : SupportEvent
  set_subject : Text → SupportEvent
  set_message : Text → SupportEvent
  set_reply : Text → SupportEvent
  submit_ticket : SupportEvent
  send_reply : ℕ → SupportEvent
  resolve : ℕ → SupportEvent
  reopen : ℕ → SupportEvent

abbrev pub messages_url : ℕ → Text
messages_url id = codes "/support/" ++ (decimal id ++ codes "/messages")

abbrev pub status_url : ℕ → Text
status_url id = codes "/support/admin/" ++ (decimal id ++ codes "/status")

unfoldable pub on_event : SupportState → SupportEvent → SupportState × List Effect
on_event s new_ticket = (record s { active_thread = none }, [])
on_event s (filter_by status) = (record s { status_filter = status }, [])
on_event s (open_thread id) = (record s { active_thread = some id }, [])
on_event s back = (record s { active_thread = none }, [])
on_event s (set_subject t) = (record s { new_subject = t }, [])
on_event s (set_message t) = (record s { new_message = t }, [])
on_event s (set_reply t) = (record s { reply = t }, [])
on_event s submit_ticket = (
  s,
  send "POST" (codes "/support")
        (text_field "subject" s.new_subject ∷ text_field "message" s.new_message ∷ [])
      ∷ [],
)
on_event s (send_reply id) =
    (s, send "POST" (messages_url id) (text_field "content" s.reply ∷ []) ∷ [])
on_event s (resolve id) =
    (s, send "PATCH" (status_url id) (string_field "status" "resolved" ∷ []) ∷ [])
on_event s (reopen id) = (s, send "PATCH" (status_url id) (string_field "status" "open" ∷ []) ∷ [])

-- A mutation that ends.
pub data Settled : Type 0 where
  replied : Reply (Unit {0}) → Settled
  status_changed : TicketStatus → Reply (Unit {0}) → Settled
  created : Reply (Unit {0}) → Settled

-- `invalidate`
abbrev pub reload : Effect
reload = invalidate (str "support-threads" ∷ [])

unfoldable pub on_settled : SupportState → Settled → SupportState × List Effect
on_settled s (replied (ok _)) = (record s { reply = [] }, reload ∷ [])
on_settled s (replied (failed err)) = (s, toast_error (detail_or "Action failed." err) ∷ [])
on_settled s (status_changed to (ok _)) = (
  s,
  toast_success (if is_resolved to then "Ticket resolved" else "Ticket reopened") ∷ reload ∷ [],
)
on_settled s (status_changed to (failed err)) =
    (s, toast_error (detail_or "Action failed." err) ∷ [])
on_settled s (created (ok _)) = (
  record s { new_subject = []; new_message = [] },
  toast_success "Support ticket created" ∷ reload ∷ [],
)
on_settled s (created (failed err)) = (s, toast_error (detail_or "Action failed." err) ∷ [])

-- The `disabled` of the button that submits a ticket.
unfoldable pub ticket_disabled : Bool → SupportState → Bool
ticket_disabled is_pending s =
    is_pending || (ltb (length (trim s.new_subject)) 4 || ltb (length (trim s.new_message)) 10)

-- The `disabled` of the button that sends a reply: `reply.trim().length === 0 || …`.
unfoldable pub reply_disabled : Bool → SupportState → Bool
reply_disabled is_pending s = (length (trim s.reply) == 0) || is_pending

-- Is the message shown on the reader's own side?
unfoldable pub mine : Bool → SupportMessage → Bool
mine admin m = if admin then str_eq m.sender_role "admin" else str_eq m.sender_role "user"

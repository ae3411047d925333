-- ===== src/Server/Tickets.antt =====
-- src/api/routers/support.py: the tickets, and the handlers as functions of the account that `get_current_user` gives.
-- Where the routes ask for an administrator, `require_admin` of src/auth/deps.py comes first. Times are left out, and with them the two listings, which
-- are in their order.
pub mod Laws
pub mod Reachable
use crag_project.Base.{
  ℕ, suc, String, Bool, true, false, not, ◌&&◌, ◌||◌, Option, none, some, List, [], ◌∷◌, ◌++◌, map,
  filter, find?, any, ◌==◌, str_eq, if◌then◌else◌,
}
use crag_project.Text.{Text}
use crag_project.Server.Accounts.{Account, Outcome, done, refused}

-- `SupportMessage` and `SupportThread` of src/db/models.py
pub record TicketMessage : Type 0 where
  pub sender_id : ℕ
  pub sender_role : String
  pub content : Text

pub record Ticket : Type 0 where
  pub id : ℕ
  pub user_id : ℕ
  pub subject : Text
  pub status : String
  pub messages : List TicketMessage

pub record Tickets : Type 0 where
  pub threads : List Ticket
  pub next_id : ℕ

unfoldable pub is_admin : Account → Bool
is_admin user = str_eq user.role "admin"

-- `_get_thread_with_access` once the ticket is loaded
unfoldable pub access : Account → Option Ticket → Outcome Ticket
unfolding is_admin
access user none = refused 404 "Ticket not found"
access user (some t) =
    if not (t.user_id == user.id) && not (is_admin user)
    then refused 403 "Not your ticket"
    else done t

unfoldable pub get_ticket : ℕ → Tickets → Option Ticket
get_ticket id ts = find? (λ (t : Ticket). t.id == id) ts.threads

unfoldable pub create_thread : Account → Text → Text → Tickets → Tickets × Outcome Ticket
create_thread user subject message ts =
    let t : Ticket = record {
      id = ts.next_id;
      user_id = user.id;
      subject = subject;
      status = "open";
      messages = record { sender_id = user.id; sender_role = user.role; content = message } ∷ [];
    } in
    (record { threads = ts.threads ++ t ∷ []; next_id = suc ts.next_id }, done t)

-- the statuses that a ticket is searched by
abbrev pub statuses : List String
statuses = "open" ∷ "pending" ∷ "resolved" ∷ []

unfoldable pub get_thread : Account → ℕ → Tickets → Outcome Ticket
unfolding access get_ticket
get_thread user id ts = access user (get_ticket id ts)

-- The ticket with this id, changed.
unfoldable pub change : ℕ → (Ticket → Ticket) → Tickets → Tickets
change id f ts = record ts {
  threads = map (λ (t : Ticket). if t.id == id then f t else t) ts.threads;
}

-- `update_status`, for administrators; the payload's type admits the three statuses only
pub data Status : Type 0 where
  open_ticket pending resolved : Status

abbrev pub status_of : Status → String
status_of open_ticket = "open"
status_of pending = "pending"
status_of resolved = "resolved"

unfoldable pub set_status : Status → ℕ → Tickets → Option Ticket → Tickets × Outcome (Unit {0})
unfolding change
set_status status id ts none = (ts, refused 404 "Ticket not found")
set_status status id ts (some t) =
    (change id (λ (u : Ticket). record u { status = status_of status }) ts, done tt)

unfoldable pub update_status : Status → ℕ → Tickets → Tickets × Outcome (Unit {0})
unfolding set_status get_ticket
update_status status id ts = set_status status id ts (get_ticket id ts)

-- The status after a reply.
unfoldable pub replied_status : Bool → String → String
replied_status is_admin_sender status =
    if is_admin_sender && str_eq status "open"
    then "pending"
    else if not is_admin_sender && str_eq status "resolved"
    then "open"
    else status

unfoldable pub with_reply : Account → Text → Ticket → Ticket
unfolding is_admin replied_status
with_reply user content t = record t {
  messages =
      t.messages
      ++ record {
        sender_id = user.id;
        sender_role = if is_admin user then "admin" else "user";
        content = content;
      }
        ∷ [];
  status = replied_status (is_admin user) t.status;
}

unfoldable pub reply_of : Account → Text → Tickets → Outcome Ticket → Tickets × Outcome (Unit {0})
unfolding change with_reply
reply_of user content ts (refused status detail) = (ts, refused status detail)
reply_of user content ts (done t) = (change t.id (with_reply user content) ts, done tt)

unfoldable pub reply_to_thread : Account → ℕ → Text → Tickets → Tickets × Outcome (Unit {0})
unfolding reply_of get_thread
reply_to_thread user id content ts = reply_of user content ts (get_thread user id ts)

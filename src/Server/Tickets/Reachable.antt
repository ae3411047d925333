-- ===== src/Server/Tickets/Reachable.antt =====
-- The runs of the handlers of src/api/routers/support.py, and the statuses that they leave.
use crag_project.Base.{
  ℕ, true, Option, none, some, List, [], ◌∷◌, map, ◌==◌, if◌then◌else◌, ◌≡◌, refl, All, All-append,
  Bool-cases, inl, inr,
}
use crag_project.Text.{Text}
use crag_project.Server.Accounts.{Account, Outcome, done, refused}
use crag_project.Server.Tickets.{
  Ticket, Tickets, get_ticket, create_thread, change, Status, open_ticket, pending, resolved,
  status_of, set_status, update_status, with_reply, reply_of, reply_to_thread, get_thread, is_admin,
}
use crag_project.Server.Tickets.Laws.{is_status, replied_status-is_status}

-- One request that changes the tickets.
pub data Step : Tickets → Tickets → Type 0 where
  create :
      (user : Account) (subject message : Text) (ts : Tickets)
      → Step ts (create_thread user subject message ts).0
  reply :
      (user : Account) (id : ℕ) (content : Text) (ts : Tickets)
      → Step ts (reply_to_thread user id content ts).0
  set : (status : Status) (id : ℕ) (ts : Tickets) → Step ts (update_status status id ts).0

pub data Reach : Tickets → Type 0 where
  start : Reach (record { threads = []; next_id = 1 })
  next : {ts after : Tickets} → Reach ts → Step ts after → Reach after

abbrev pub HasStatus : Ticket → Type 0
HasStatus t = is_status t.status ≡ true

abbrev AllHaveStatus : Tickets → Type 0
AllHaveStatus ts = All HasStatus ts.threads

change-HasStatus :
    (id : ℕ) (f : Ticket → Ticket) (ts : List Ticket)
    → ((t : Ticket) → HasStatus t → HasStatus (f t))
    → All HasStatus ts
    → All HasStatus (map (λ (t : Ticket). if t.id == id then f t else t) ts)
change-HasStatus id f [] k h = tt
change-HasStatus id f (t ∷ ts) k (a, h) = elim (Bool-cases (t.id == id)) [
  | inl e ↦ rw e (k t a, change-HasStatus id f ts k h)
  | inr e ↦ rw e (a, change-HasStatus id f ts k h)
]

with_reply-HasStatus :
    (user : Account) (content : Text) (t : Ticket)
    → HasStatus t
    → HasStatus (with_reply user content t)
unfolding with_reply
with_reply-HasStatus user content t h = replied_status-is_status (is_admin user) t.status h

status_of-is_status : (s : Status) → is_status (status_of s) ≡ true
status_of-is_status open_ticket = refl
status_of-is_status pending = refl
status_of-is_status resolved = refl

reply_of-HasStatus :
    (user : Account) (content : Text) (ts : Tickets) (o : Outcome Ticket)
    → AllHaveStatus ts
    → AllHaveStatus (reply_of user content ts o).0
unfolding reply_of change
reply_of-HasStatus user content ts (refused status detail) h = h
reply_of-HasStatus user content ts (done t) h =
    change-HasStatus t.id (with_reply user content) ts.threads (with_reply-HasStatus user content) h

set_status-HasStatus :
    (s : Status) (id : ℕ) (ts : Tickets) (o : Option Ticket)
    → AllHaveStatus ts
    → AllHaveStatus (set_status s id ts o).0
unfolding set_status change
set_status-HasStatus s id ts none h = h
set_status-HasStatus s id ts (some t) h =
    change-HasStatus id (λ (u : Ticket). record u { status = status_of s }) ts.threads
      (λ u a. status_of-is_status s) h

Step-HasStatus :
    {before after : Tickets} → Step before after → AllHaveStatus before → AllHaveStatus after
unfolding create_thread reply_to_thread update_status
Step-HasStatus (create user subject message ts) h =
    All-append HasStatus ts.threads (_ ∷ []) h (refl, tt)
Step-HasStatus (reply user id content ts) h =
    reply_of-HasStatus user content ts (get_thread user id ts) h
Step-HasStatus (set s id ts) h = set_status-HasStatus s id ts (get_ticket id ts) h

pub Reach-HasStatus : (ts : Tickets) → Reach ts → All HasStatus ts.threads
Reach-HasStatus ts start = tt
Reach-HasStatus ts (next r step) = Step-HasStatus step (Reach-HasStatus _ r)

-- ===== src/Server/Tickets/Laws.antt =====
-- Who sees and changes which ticket, and what a reply makes of it.
use crag_project.Base.{
  ℕ, String, Bool, true, false, ◌||◌, Option, none, some, List, [], ◌∷◌, ◌++◌, map, find?, any,
  ◌==◌, str_eq, if◌then◌else◌, ◌≡◌, refl, sym, ap, ◌∙◌, inl, inr, arith, Bool-cases, ==_iff,
  find?-holds,
}
use crag_project.Text.{Text}
use crag_project.Server.Accounts.{Account, done, refused}
use crag_project.Server.Tickets.{
  TicketMessage, Ticket, Tickets, is_admin, access, get_ticket, statuses, change, replied_status,
  with_reply, reply_of, reply_to_thread, get_thread,
}

-- May the account see the ticket?
unfoldable pub is_concerned : Account → Ticket → Bool
unfolding is_admin
is_concerned user t = t.user_id == user.id || is_admin user

access-is_concerned :
    (user : Account) (o : Option Ticket) (t : Ticket)
    → access user o ≡ done t
    → (o ≡ some t) × (is_concerned user t ≡ true)
unfolding access is_concerned
access-is_concerned user none t h = ground arith
access-is_concerned user (some u) t h = ground arith

-- A status that the client knows.
abbrev pub is_status : String → Bool
is_status s = any (str_eq s) statuses

pub replied_status-is_status :
    (admin : Bool) (s : String) → is_status s ≡ true → is_status (replied_status admin s) ≡ true
unfolding replied_status
replied_status-is_status true s h = elim (Bool-cases (str_eq s "open")) [
  | inl e ↦ ap (λ b. is_status (if b then "pending" else s)) e
  | inr e ↦ ap (λ b. is_status (if b then "pending" else s)) e ∙ h
]
replied_status-is_status false s h = elim (Bool-cases (str_eq s "resolved")) [
  | inl e ↦ ap (λ b. is_status (if b then "open" else s)) e
  | inr e ↦ ap (λ b. is_status (if b then "open" else s)) e ∙ h
]

abbrev map_ticket : (Ticket → Ticket) → Option Ticket → Option Ticket
map_ticket f none = none
map_ticket f (some t) = some (f t)

change-found :
    (id : ℕ) (f : Ticket → Ticket) (ts : List Ticket) (t : Ticket)
    → ((u : Ticket) → (f u).id ≡ u.id)
    → find? (λ (u : Ticket). u.id == id) ts ≡ some t
    → find? (λ (u : Ticket). u.id == id) (map (λ (u : Ticket). if u.id == id then f u else u) ts)
      ≡ some (f t)
change-found id f [] t k h = ground arith
change-found id f (u ∷ ts) t k h = elim (Bool-cases (u.id == id)) [
  | inl e ↦
      let rest =
        find? (λ (v : Ticket). v.id == id)
          (map (λ (v : Ticket). if v.id == id then f v else v) ts) in
      rw e (
        ap (λ b. if b then some (f u) else rest) (ap (λ i. i == id) (k u) ∙ e)
        ∙ ap (map_ticket f)
            (sym (ap (λ b. if b then some u else find? (λ (v : Ticket). v.id == id) ts) e) ∙ h))
  | inr e ↦ rw e (
      rw e (
        change-found id f ts t k
          (sym (ap (λ b. if b then some u else find? (λ (v : Ticket). v.id == id) ts) e) ∙ h)))
]

ticket_id : (id : ℕ) (ts : Tickets) (t : Ticket) → get_ticket id ts ≡ some t → t.id ≡ id
unfolding get_ticket
ticket_id id ts t h = (==_iff t.id id).0 (find?-holds (λ (u : Ticket). u.id == id) ts.threads t h)

access-granted :
    (user : Account) (t : Ticket) → is_concerned user t ≡ true → access user (some t) ≡ done t
unfolding access is_concerned
access-granted user t h = ground arith

access-denied :
    (user : Account) (t : Ticket)
    → is_concerned user t ≡ false
    → access user (some t) ≡ refused 403 "Not your ticket"
unfolding access is_concerned
access-denied user t h = ground arith

changed :
    (user : Account) (id : ℕ) (content : Text) (ts : Tickets) (t : Ticket)
    → get_ticket id ts ≡ some t
    → get_ticket id (reply_of user content ts (done t)).0 ≡ some (with_reply user content t)
unfolding reply_of get_ticket change with_reply
changed user id content ts t found =
    ap
      (λ i.
        find? (λ (u : Ticket). u.id == id)
          (map (λ (u : Ticket). if u.id == i then with_reply user content u else u) ts.threads))
      (ticket_id id ts t found)
    ∙ change-found id (with_reply user content) ts.threads t (λ u. refl) found

change-other :
    (id k : ℕ) (f : Ticket → Ticket) (ts : List Ticket)
    → ((u : Ticket) → (f u).id ≡ u.id)
    → (id == k) ≡ false
    → find? (λ (u : Ticket). u.id == k) (map (λ (u : Ticket). if u.id == id then f u else u) ts)
      ≡ find? (λ (u : Ticket). u.id == k) ts
change-other id k f [] keep n = refl
change-other id k f (u ∷ ts) keep n = elim (Bool-cases (u.id == id)) [
  | inl e ↦
      let same = (==_iff u.id id).0 e in
      let miss : (u.id == k) ≡ false = ap (λ i. i == k) same ∙ n in
      let rest =
        find? (λ (v : Ticket). v.id == k)
          (map (λ (v : Ticket). if v.id == id then f v else v) ts) in
      rw e (
        rw miss (
          ap (λ b. if b then some (f u) else rest) (ap (λ i. i == k) (keep u) ∙ miss)
          ∙ change-other id k f ts keep n))
  | inr e ↦ rw e (ap (λ o. if u.id == k then some u else o) (change-other id k f ts keep n))
]

unchanged :
    (user : Account) (id k : ℕ) (content : Text) (ts : Tickets) (t : Ticket)
    → get_ticket id ts ≡ some t
    → (id == k) ≡ false
    → get_ticket k (reply_of user content ts (done t)).0 ≡ get_ticket k ts
unfolding reply_of get_ticket change with_reply
unchanged user id k content ts t found n =
    change-other t.id k (with_reply user content) ts.threads (λ u. refl)
      (ap (λ i. i == k) (ticket_id id ts t found) ∙ n)

-- The message that a reply by the account is.
abbrev pub reply_by : Account → Text → TicketMessage
reply_by user content = record {
  sender_id = user.id;
  sender_role = if str_eq user.role "admin" then "admin" else "user";
  content = content;
}

-- The status that a reply leaves a ticket with.
abbrev pub turned : Account → String → String
turned user status =
    if str_eq user.role "admin"
    then (if str_eq status "open" then "pending" else status)
    else (if str_eq status "resolved" then "open" else status)

replied_status-turned :
    (user : Account) (status : String) → replied_status (is_admin user) status ≡ turned user status
unfolding replied_status is_admin
replied_status-turned user status = ground arith

-- The ticket is there once more after a reply, with its id, owner and subject.
pub record IsAnswered (user : Account) (content : Text) (before after : Ticket) : Type 0 where
  pub same_id : after.id ≡ before.id
  pub same_owner : after.user_id ≡ before.user_id
  pub same_subject : after.subject ≡ before.subject
  pub taken_down : after.messages ≡ before.messages ++ reply_by user content ∷ []
  pub in_turn : after.status ≡ turned user before.status

with_reply-IsAnswered :
    (user : Account) (content : Text) (t : Ticket)
    → IsAnswered user content t (with_reply user content t)
unfolding with_reply is_admin
with_reply-IsAnswered user content t = record {
  same_id = refl;
  same_owner = refl;
  same_subject = refl;
  taken_down = refl;
  in_turn = replied_status-turned user t.status;
}

-- A reply to a ticket by its user or an administrator succeeds: the ticket keeps its id, owner and
-- subject, and its messages, after which the reply stands last, in the account's name; an
-- administrator's reply makes an open ticket pending, a user's reply makes a resolved one open, and
-- any other status stays. Every other ticket is as before.
pub reply_to_thread-IsAnswered :
    (user : Account) (id : ℕ) (content : Text) (ts : Tickets) (t : Ticket)
    → get_ticket id ts ≡ some t
    → is_concerned user t ≡ true
    → ((reply_to_thread user id content ts).1 ≡ done tt)
      × ((after : Ticket) × (get_ticket id (reply_to_thread user id content ts).0 ≡ some after)
          × IsAnswered user content t after)
      × ((k : ℕ)
          → (id == k) ≡ false
          → get_ticket k (reply_to_thread user id content ts).0 ≡ get_ticket k ts)
unfolding reply_to_thread get_thread
reply_to_thread-IsAnswered user id content ts t found concerned =
    let granted = ap (access user) found ∙ access-granted user t concerned in
    (
      ap (λ o. (reply_of user content ts o).1) granted,
      (
        with_reply user content t,
        ap (λ o. get_ticket id (reply_of user content ts o).0) granted
            ∙ changed user id content ts t found,
        with_reply-IsAnswered user content t,
      ),
      λ k n.
          ap (λ o. get_ticket k (reply_of user content ts o).0) granted
          ∙ unchanged user id k content ts t found n,
    )

-- To anyone else the ticket is refused: neither read nor changed.
pub reply_to_thread-denied :
    (user : Account) (id : ℕ) (content : Text) (ts : Tickets) (t : Ticket)
    → get_ticket id ts ≡ some t
    → is_concerned user t ≡ false
    → (get_thread user id ts ≡ refused 403 "Not your ticket")
      × (reply_to_thread user id content ts ≡ (ts, refused 403 "Not your ticket"))
unfolding reply_to_thread get_thread reply_of
reply_to_thread-denied user id content ts t found stranger =
    let denied = ap (access user) found ∙ access-denied user t stranger in
    (denied, ap (reply_of user content ts) denied)

-- ===== src/Tests/Server.antt =====
-- The server's handlers on concrete tables.
use crag_project.Base.{
  ◌==◌, arith, ℕ, String, true, false, none, some, [], ◌∷◌, ◌≡◌, ◌≢◌, refl, String, str_eq,
}
use crag_project.Text.{Text, codes}
use crag_project.Server.Accounts.{Account, ResetRow, Database, done, get_current_user, register}
use crag_project.Server.Accounts.Passwords.{invalid_link, reset_password, reset_of}
use crag_project.Server.Accounts.Revocation.{has_session, ban, exclude}
use crag_project.Server.Accounts.Reset.{reset_password-spent}
use crag_project.Server.Accounts.Live.Kept.{IsLive}
use crag_project.Server.Accounts.Live.Reachable.{
  get_current_user as asked, Library, start, next, register as registered, empty, Reach-IsLive,
}
use crag_project.Server.Accounts.Live.StaysOut.{now, next, exclude-Later}
use crag_project.Server.Tickets.{Ticket, Tickets, get_ticket, reply_to_thread}
use crag_project.Server.Tickets.Laws.{IsAnswered, is_concerned, reply_to_thread-IsAnswered}

-- A hash for the tests: the tokens have different lengths.
abbrev hash : Text → String
hash [] = ""
hash (x ∷ []) = "one"
hash (x ∷ y ∷ t) = "more"

abbrev account : ℕ → String → Account
account id role = record {
  id = id;
  email = codes "ann@example.org";
  password_hash = "old";
  full_name = codes "Ann";
  role = role;
  is_active = true;
}

abbrev row : ResetRow
row = record { id = 1; user_id = 7; token_hash = "one"; expires_at = 3600; used_at = none }

abbrev tables : Database
tables = record {
  users = account 1 "admin" ∷ account 7 "user" ∷ [];
  sessions =
      record { id = 1; user_id = 7; token_hash = "more"; expires_at = 100 }
      ∷ record { id = 2; user_id = 1; token_hash = "one"; expires_at = 100 }
      ∷ [];
  resets = row ∷ [];
  next_user = 8;
  next_session = 3;
  next_reset = 2;
}

-- Before the ban the account is let in, after it the administrator still is.
let_in : (get_current_user hash 50 (some (codes "ab")) tables).1 ≡ done (account 7 "user")
unfolding get_current_user
let_in = refl

abbrev library : Library
library = record {
  hash_token = hash;
  verify_password = λ h p. str_eq h "new";
  lower = λ t. t;
  strip = λ t. t;
}

abbrev banned_tables : Database
banned_tables = (exclude ban 7 1 tables).0

-- The banned user tries again with the old cookie, and then the administrator comes.
abbrev tried_again : Database
tried_again = (get_current_user hash 55 (some (codes "ab")) banned_tables).0

exclude-Later_example : (account 1 "admin").id ≢ 7
exclude-Later_example =
    exclude-Later library ban 7 1 tables tried_again (omega arith, (omega arith, tt))
      (unfold exclude in refl) (next now (asked 55 (some (codes "ab")) banned_tables) tt) 60
      (some (codes "a")) (account 1 "admin") (unfold exclude get_current_user in refl)

reset_password-spent_example :
    ((reset_password hash
        (λ t. t)
        20
        (codes "a")
        "newer"
        (reset_password hash (λ t. t) 10 (codes "a") "new" tables).0).1
      ≡ invalid_link)
    × (has_session 7 (reset_password hash (λ t. t) 10 (codes "a") "new" tables).0.sessions ≡ false)
reset_password-spent_example =
    reset_password-spent hash (λ t. t) 10 (codes "a") "new" tables row (tt, tt)
      (unfold reset_of in refl) (unfold reset_password in refl) 20 "newer"

abbrev after_register : Database
after_register =
    (register hash (λ t. t) 10 100 (codes "ann@example.org") (codes "Ann") "new" (codes "a")
      empty).0

Reach-IsLive_example : IsLive after_register
Reach-IsLive_example =
    Reach-IsLive library after_register (
      next start
        (registered 10 100 (codes "ann@example.org") (codes "Ann") "new" (codes "a") empty))

abbrev resolved_ticket : Ticket
resolved_ticket = record {
  id = 3;
  user_id = 7;
  subject = codes "Login";
  status = "resolved";
  messages = [];
}

abbrev tickets : Tickets
tickets = record { threads = resolved_ticket ∷ []; next_id = 4 }

reply_to_thread-IsAnswered_example :
    ((reply_to_thread (account 7 "user") 3 (codes "Again") tickets).1 ≡ done tt)
    × ((after : Ticket) × (get_ticket 3
            (reply_to_thread (account 7 "user") 3 (codes "Again") tickets).0
          ≡ some after)
        × IsAnswered (account 7 "user") (codes "Again") resolved_ticket after)
    × ((k : ℕ)
        → (3 == k) ≡ false
        → get_ticket k (reply_to_thread (account 7 "user") 3 (codes "Again") tickets).0
          ≡ get_ticket k tickets)
reply_to_thread-IsAnswered_example =
    reply_to_thread-IsAnswered (account 7 "user") 3 (codes "Again") tickets resolved_ticket
      (unfold get_ticket in refl) (unfold is_concerned in refl)

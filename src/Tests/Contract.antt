-- ===== src/Tests/Contract.antt =====
-- The client against the server's declarations at concrete calls.
use crag_project.Base.{
  ℕ, true, false, Option, none, some, [], ◌∷◌, ◌≡◌, refl, All, sym, ap, get_or, any, List, arith,
}
use crag_project.Text.{Text, codes, split, join, text_eq_iff}
use crag_project.Api.Shapes.{Json, truth, number, word, record_of, end, member, conforms}
use crag_project.Api.Csrf.{RequestConfig, intercept}
use crag_project.Queries.{user_detail, chat_messages}
use crag_project.Ui.{clicks}
use crag_project.Users.{AdminUserRow, Snapshot}
use crag_project.Users.View.{user_row}
use crag_project.Server.Accounts.{Account, Database, get_user}
use crag_project.Contract.{reads, loads_user, call_path, declared, served}
use crag_project.Contract.Paths.{call-served}
use crag_project.Contract.Answers.{promised, unpromised, served-promised}
use crag_project.Contract.Unpromised.{Breaks, sample, unpromised-Breaks}
use crag_project.Contract.Requests.{Action, documents, effects, IsAccepted, forms, IsTaken}
use crag_project.Documents
use crag_project.Contract.Requests.Pages.{effects-IsAccepted}
use crag_project.Contract.Guards.{is_action, is_done, offered-managed}
use crag_project.Contract.Csrf.{
  validate_csrf, wire_method, IsCookieStore, cookies_after, intercept-validate,
}
use crag_project.Server.Csrf.{csrf_cookie, get_csrf_token}
use crag_project.Api.Cookie.Laws.{lookup, IsCookie}
use crag_project.Tests.Data.{admin_user, loaded, unloaded, idle, date}
use crag_project.Server.Accounts.Admin.{get_managed_user}

call-served_example :
    declared "GET" (call_path ℕ (Unit {0}) (reads (chat_messages (some 12))))
    ≡ some (served (reads (chat_messages (some 12))))
call-served_example = call-served ℕ (Unit {0}) (reads (chat_messages (some 12))) tt

abbrev ann : Json
ann = record_of (
    member "id" (number "7") (
      member "email" (word (codes "ann@example.org")) (
        member "full_name" (word (codes "Ann Lee")) (
          member "role" (word (codes "user")) (
            member "is_active" (truth true)
              (member "created_at" (word (codes "2025-01-02T00:00:00")) end))))))

served-promised_example : conforms (promised loads_user) ann ≡ true
served-promised_example = served-promised loads_user ann (unfold conforms in refl)

unpromised-Breaks_example :
    (conforms
        (served (reads (user_detail (some 7))))
        (sample (served (reads (user_detail (some 7)))))
      ≡ true)
    × All (Breaks (reads (user_detail (some 7)))) (unpromised (reads (user_detail (some 7))))
unpromised-Breaks_example = unpromised-Breaks (reads (user_detail (some 7)))

abbrev drop_file : Action ℕ ℕ
drop_file = documents false (Documents.drop (5 ∷ []))

effects-IsAccepted_example :
    All IsAccepted (effects (λ t. true) drop_file) × All IsTaken (forms (λ t. true) drop_file)
effects-IsAccepted_example = effects-IsAccepted (λ t. true) drop_file tt

-- A row of the accounts page, and the server's account.
abbrev row : AdminUserRow
row = record {
  id = 7;
  email = codes "ann@example.org";
  full_name = codes "Ann Lee";
  role = "user";
  is_active = true;
  created_at = "2025-01-02";
}

abbrev account : Account
account = record {
  id = 7;
  email = codes "ann@example.org";
  password_hash = "hash";
  full_name = codes "Ann Lee";
  role = "user";
  is_active = true;
}

abbrev tables : Database
tables = record {
  users = account ∷ [];
  sessions = [];
  resets = [];
  next_user = 8;
  next_session = 1;
  next_reset = 1;
}

abbrev accounts : Snapshot
accounts = record {
  users = loaded (row ∷ []);
  detail = unloaded;
  status_mutation = idle;
  delete_mutation = idle;
}

offered-managed_example :
    any is_action (clicks (user_row date (some admin_user) accounts row))
    ≡ is_done (get_managed_user 7 1 tables)
offered-managed_example =
    offered-managed date admin_user accounts row tables account refl refl (unfold get_user in refl)
      refl

abbrev delete_request : RequestConfig
delete_request = record {
  method = some (codes "delete");
  url = codes "/admin/users/7";
  csrf_header = none;
}

abbrev answered : RequestConfig → Option Text
answered config = some (codes "t0k")

-- A browser that puts a cookie which is set before the others.
abbrev put_first : Text × Text → List (Text × Text) → List (Text × Text)
put_first cookie cookies = cookie ∷ cookies

put_first-IsCookieStore : IsCookieStore put_first
unfolding lookup
put_first-IsCookieStore = record {
  kept = λ name value cookies. rw ((text_eq_iff name name).1 refl) refl;
}

abbrev theme : List (Text × Text)
theme = (codes "a", codes "1") ∷ []

theme-IsCookie : All IsCookie theme
theme-IsCookie = (record { plain_name = omega arith; no_separator = omega arith }, tt)

intercept-validate_example :
    validate_csrf
      (wire_method (some (codes "delete")))
      (lookup csrf_cookie (cookies_after put_first (codes "t0k") answered theme delete_request))
      (some (codes "t0k"))
    ≡ true
intercept-validate_example =
    intercept-validate put_first (codes "t0k") answered theme put_first-IsCookieStore theme-IsCookie
      (λ a e. unfold get_csrf_token in ap (λ o. get_or o []) (sym e)) refl 0 delete_request
      (record delete_request { csrf_header = some (codes "t0k") })
      (unfold intercept split join in refl)

-- ===== src/Server/Accounts/Admin.antt =====
-- The handlers of src/api/routers/admin.py that act on an account, where `admin` is the id of the administrator who
-- asks, and the command of src/cli.py that makes an administrator.
use crag_project.Base.{
  ℕ, String, Bool, true, not, Option, none, some, filter, ◌==◌, str_eq, if◌then◌else◌, [], ◌∷◌,
  ◌++◌, suc,
}
use crag_project.Text.{Text}
use crag_project.Server.Accounts.{
  Account, ResetRow, Database, Outcome, done, refused, get_user, user_of, update, end_sessions,
}

-- `_get_managed_user`, once the account is loaded
unfoldable pub managed : ℕ → Option Account → Outcome Account
managed admin none = refused 404 "User not found"
managed admin (some target) =
    if target.id == admin
    then refused 400 "Admins cannot act on themselves"
    else if str_eq target.role "admin"
    then refused 403 "Other admins cannot be modified"
    else done target

unfoldable pub get_managed_user : ℕ → ℕ → Database → Outcome Account
unfolding managed get_user
get_managed_user id admin db = managed admin (get_user id db)

-- The handlers' work on the account that `_get_managed_user` gives.
unfoldable pub set_status_of : Bool → Database → Outcome Account → Database × Outcome Account
unfolding update end_sessions
set_status_of is_active db (refused status detail) = (db, refused status detail)
set_status_of is_active db (done target) = (
  record db {
    users = update target.id (λ (u : Account). record u { is_active = is_active }) db.users;
    sessions = if is_active then db.sessions else end_sessions target.id db.sessions;
  },
  done (record target { is_active = is_active }),
)

-- Of the stores, whose clean-up may fail with 502 after the rows are gone, nothing is said.
unfoldable pub delete_rows : Database → Outcome Account → Database × Outcome (Unit {0})
unfolding end_sessions
delete_rows db (refused status detail) = (db, refused status detail)
delete_rows db (done target) = (
  record db {
    users = filter (λ (u : Account). not (u.id == target.id)) db.users;
    sessions = end_sessions target.id db.sessions;
    resets = filter (λ (r : ResetRow). not (r.user_id == target.id)) db.resets;
  },
  done tt,
)

-- `admin_set_user_status` and `admin_delete_user`
unfoldable pub set_user_status : ℕ → Bool → ℕ → Database → Database × Outcome Account
unfolding get_managed_user set_status_of
set_user_status id is_active admin db = set_status_of is_active db (get_managed_user id admin db)

unfoldable pub delete_user : ℕ → ℕ → Database → Database × Outcome (Unit {0})
unfolding get_managed_user delete_rows
delete_user id admin db = delete_rows db (get_managed_user id admin db)

-- `create_admin` of src/cli.py, from the account of the address on
unfoldable pub admin_for : Text → Text → String → Database → Option Account → Database
unfolding update
admin_for email full_name password_hash db (some user) = record db {
  users =
      update user.id
        (λ (u : Account). record u {
          password_hash = password_hash;
          role = "admin";
          is_active = true;
        })
        db.users;
}
admin_for email full_name password_hash db none = record db {
  users =
      db.users
      ++ record {
        id = db.next_user;
        email = email;
        password_hash = password_hash;
        full_name = full_name;
        role = "admin";
        is_active = true;
      }
        ∷ [];
  next_user = suc db.next_user;
}

unfoldable pub create_admin :
    (Text → Text) → (Text → Text) → Text → Text → String → Database → Database
unfolding admin_for user_of
create_admin lower strip email full_name password_hash db =
    admin_for (strip (lower email)) full_name password_hash db
      (user_of (λ t. strip (lower t)) email db)

-- ===== src/Server/Accounts/Live/Reachable.antt =====
-- The runs of the handlers that change the tables of accounts and sessions.
use crag_project.Base.{ℕ, String, Bool, Option, []}
use crag_project.Text.{Text}
use crag_project.Server.Accounts.{Database}
use crag_project.Server.Accounts
use crag_project.Server.Accounts.Passwords
use crag_project.Server.Accounts.Admin
use crag_project.Server.Accounts.Live.Kept.{
  IsLive, logout-IsLive, get_current_user-IsLive, login-IsLive, register_for-IsLive,
  forgot_for-IsLive, reset_row-IsLive, admin_for-IsLive, set_status_of-IsLive, delete_rows-IsLive,
}

abbrev pub empty : Database
empty = record {
  users = [];
  sessions = [];
  resets = [];
  next_user = 1;
  next_session = 1;
  next_reset = 1;
}

-- What the handlers take from outside.
pub record Library : Type 0 where
  pub hash_token : Text → String
  pub verify_password : String → Text → Bool
  pub lower : Text → Text
  pub strip : Text → Text

-- One request or command, with whatever it carries and is drawn for it.
pub data Step (lib : Library) : Database → Database → Type 0 where
  get_current_user :
      (now : ℕ) (cookie : Option Text) (db : Database)
      → Step lib db (Accounts.get_current_user lib.hash_token now cookie db).0
  register :
      (now ttl : ℕ) (email name : Text) (hash : String) (token : Text) (db : Database)
      → Step lib db (Accounts.register lib.hash_token lib.lower now ttl email name hash token db).0
  login :
      (now ttl : ℕ) (email password token : Text) (db : Database)
      → Step lib db
          (Accounts.login lib.hash_token lib.lower lib.verify_password now ttl email password token
            db).0
  logout :
      (cookie : Option Text) (db : Database)
      → Step lib db (Accounts.logout lib.hash_token cookie db)
  forgot_password :
      (now : ℕ) (email token : Text) (db : Database)
      → Step lib db (Accounts.forgot_password lib.hash_token lib.lower now email token db).0
  reset_password :
      (now : ℕ) (token : Text) (hash : String) (db : Database)
      → Step lib db (Passwords.reset_password lib.hash_token lib.strip now token hash db).0
  set_user_status :
      (id : ℕ) (is_active : Bool) (admin : ℕ) (db : Database)
      → Step lib db (Admin.set_user_status id is_active admin db).0
  delete_user : (id admin : ℕ) (db : Database) → Step lib db (Admin.delete_user id admin db).0
  -- the command of cli.py
  create_admin :
      (email name : Text) (hash : String) (db : Database)
      → Step lib db (Admin.create_admin lib.lower lib.strip email name hash db)

-- The tables that the server can come to from none.
pub data Reach (lib : Library) : Database → Type 0 where
  start : Reach lib empty
  next : {db after : Database} → Reach lib db → Step lib db after → Reach lib after

Step-IsLive :
    (lib : Library) {before after : Database} → Step lib before after → IsLive before → IsLive after
unfolding Accounts.register Accounts.forgot_password Passwords.reset_password Admin.set_user_status
    Admin.delete_user Admin.create_admin
Step-IsLive lib (get_current_user now cookie db) l =
    get_current_user-IsLive lib.hash_token now cookie db l
Step-IsLive lib (register now ttl email name hash token db) l =
    register_for-IsLive lib.hash_token now ttl (lib.lower email) name hash token db
      (Accounts.user_of lib.lower email db) l
Step-IsLive lib (login now ttl email password token db) l =
    login-IsLive lib.hash_token lib.lower lib.verify_password now ttl email password token db l
Step-IsLive lib (logout cookie db) l = logout-IsLive lib.hash_token cookie db l
Step-IsLive lib (forgot_password now email token db) l =
    forgot_for-IsLive lib.hash_token now token db (Accounts.user_of lib.lower email db) l
Step-IsLive lib (reset_password now token hash db) l =
    reset_row-IsLive now hash db (Passwords.reset_of lib.hash_token lib.strip token db.resets) l
Step-IsLive lib (set_user_status id is_active admin db) l =
    set_status_of-IsLive is_active db (Admin.get_managed_user id admin db) l
Step-IsLive lib (delete_user id admin db) l =
    delete_rows-IsLive db (Admin.get_managed_user id admin db) l
Step-IsLive lib (create_admin email name hash db) l =
    admin_for-IsLive (lib.strip (lib.lower email)) name hash db
      (Accounts.user_of (λ t. lib.strip (lib.lower t)) email db) l

-- Whatever is asked of the server, in whatever order, each session that it keeps is of an account that exists and
-- is not banned.
pub Reach-IsLive : (lib : Library) (db : Database) → Reach lib db → IsLive db
Reach-IsLive lib db start = tt
Reach-IsLive lib db (next {db = before} r step) = Step-IsLive lib step (Reach-IsLive lib before r)

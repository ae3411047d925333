-- ===== src/Server/Accounts.antt =====
-- Accounts, sessions and reset tokens: src/api/routers/auth.py and src/auth/deps.py. The tables of src/db/models.py are lists of rows in the order of
-- their ids; a time is a number of seconds. `hash_token` (SHA-256), `verify_password` (argon2), `lower` and
-- `strip` (of Python's `str`) are parameters, and what is drawn at random (a token, the salted hash of a password)
-- is an argument. The tables that hold an account's documents, threads and tickets are left out.
pub mod Admin
pub mod Passwords
pub mod Revocation
pub mod Reset
pub mod Live
use crag_project.Base.{
  ℕ, suc, ◌+◌, String, Bool, true, false, not, ◌&&◌, ◌||◌, Option, none, some, List, [], ◌∷◌, ◌++◌,
  map, filter, find?, ltb, ◌==◌, str_eq, if◌then◌else◌, is_some,
}
use crag_project.Text.{Text, is_empty, text_eq}

pub record Account : Type 0 where
  pub id : ℕ
  pub email : Text
  pub password_hash : String
  pub full_name : Text
  pub role : String
  pub is_active : Bool

pub record SessionRow : Type 0 where
  pub id : ℕ
  pub user_id : ℕ
  pub token_hash : String
  pub expires_at : ℕ

-- `PasswordResetToken`
pub record ResetRow : Type 0 where
  pub id : ℕ
  pub user_id : ℕ
  pub token_hash : String
  pub expires_at : ℕ
  pub used_at : Option ℕ

pub record Database : Type 0 where
  pub users : List Account
  pub sessions : List SessionRow
  pub resets : List ResetRow
  -- the ids that the next rows get
  pub next_user : ℕ
  pub next_session : ℕ
  pub next_reset : ℕ

-- What a handler ends with: an answer, or an `HTTPException`.
pub data Outcome (A : Type 0) : Type 0 where
  done : A → Outcome A
  refused : ℕ → String → Outcome A

-- `db.get(User, id)`
unfoldable pub get_user : ℕ → Database → Option Account
get_user id db = find? (λ (u : Account). u.id == id) db.users

-- `db.query(User).filter(User.email == email).first()`
unfoldable pub user_of : (Text → Text) → Text → Database → Option Account
user_of lower email db = find? (λ (u : Account). text_eq u.email (lower email)) db.users

-- `db.query(DbSession).filter(DbSession.user_id == id).delete()`
unfoldable pub end_sessions : ℕ → List SessionRow → List SessionRow
end_sessions id = filter (λ (s : SessionRow). not (s.user_id == id))

-- The account with this id, changed.
unfoldable pub update : ℕ → (Account → Account) → List Account → List Account
update id f = map (λ (u : Account). if u.id == id then f u else u)

-- `not token` of a cookie
unfoldable pub no_token : Option Text → Bool
no_token none = true
no_token (some t) = is_empty t

-- `get_current_user` from the account of a session on, and from the session's row on
unfoldable pub admit : Option Account → Outcome Account
admit none = refused 401 "Not authenticated"
admit (some user) = if user.is_active then done user else refused 401 "Not authenticated"

unfoldable pub of_session : ℕ → Database → Option SessionRow → Database × Outcome Account
unfolding get_user admit
of_session now db none = (db, refused 401 "Not authenticated")
of_session now db (some row) =
    if ltb row.expires_at now
    then (
      record db { sessions = filter (λ (s : SessionRow). not (s.id == row.id)) db.sessions },
      refused 401 "Session expired",
    )
    else (db, admit (get_user row.user_id db))

module _ (hash_token : Text → String) where
  -- the row of a token
  unfoldable pub session_of : Text → Database → Option SessionRow
  session_of token db =
      find? (λ (s : SessionRow). str_eq s.token_hash (hash_token token)) db.sessions

  unfoldable pub get_current_user : ℕ → Option Text → Database → Database × Outcome Account
  unfolding session_of of_session
  get_current_user now none db = (db, refused 401 "Not authenticated")
  get_current_user now (some token) db =
      if is_empty token
      then (db, refused 401 "Not authenticated")
      else of_session now db (session_of token db)

  -- `_start_session`; `ttl` is the setting `session_ttl_hours` in seconds
  unfoldable pub start_session : ℕ → ℕ → Text → ℕ → Database → Database
  start_session now ttl token user db = record db {
    sessions =
        db.sessions
        ++ record {
          id = db.next_session;
          user_id = user;
          token_hash = hash_token token;
          expires_at = now + ttl;
        }
          ∷ [];
    next_session = suc db.next_session;
  }

  unfoldable pub logout : Option Text → Database → Database
  logout none db = db
  logout (some token) db = if is_empty token then db else record db {
    sessions =
        filter (λ (s : SessionRow). not (str_eq s.token_hash (hash_token token))) db.sessions;
  }

  -- The handlers from the account of the address on. The arguments after the payload are drawn at random:
  -- the hash of the password, the session's token, the reset token.
  unfoldable pub register_for :
      ℕ → ℕ → Text → Text → String → Text → Database → Option Account → Database × Outcome Account
  unfolding start_session
  register_for now ttl email full_name password_hash token db (some existing) =
      (db, refused 409 "Email already registered")
  register_for now ttl email full_name password_hash token db none =
      let user : Account = record {
        id = db.next_user;
        email = email;
        password_hash = password_hash;
        full_name = full_name;
        role = "user";
        is_active = true;
      } in
      (
        start_session now ttl token user.id
            (record db { users = db.users ++ user ∷ []; next_user = suc db.next_user }),
        done user,
      )

  unfoldable pub login_for :
      (String → Text → Bool)
      → ℕ
      → ℕ
      → Text
      → Text
      → Database
      → Option Account
      → Database × Outcome Account
  unfolding start_session
  login_for verify_password now ttl password token db none =
      (db, refused 401 "Invalid email or password")
  login_for verify_password now ttl password token db (some user) =
      if verify_password user.password_hash password
      then (if user.is_active
          then (start_session now ttl token user.id db, done user)
          else (db, refused 403 "Account disabled"))
      else (db, refused 401 "Invalid email or password")

  -- The mail with the link, if one is sent, is the recipient and the token. `RESET_TOKEN_TTL_MINUTES` is 60.
  unfoldable pub forgot_for : ℕ → Text → Database → Option Account → Database × Option (Text × Text)
  forgot_for now token db none = (db, none)
  forgot_for now token db (some user) =
      if user.is_active
      then (
        record db {
          resets =
              db.resets
              ++ record {
                id = db.next_reset;
                user_id = user.id;
                token_hash = hash_token token;
                expires_at = now + 3600;
                used_at = none;
              }
                ∷ [];
          next_reset = suc db.next_reset;
        },
        some (user.email, token),
      )
      else (db, none)

  module _ (lower : Text → Text) where
    unfoldable pub register :
        ℕ → ℕ → Text → Text → String → Text → Database → Database × Outcome Account
    unfolding user_of register_for
    register now ttl email full_name password_hash token db =
        register_for now ttl (lower email) full_name password_hash token db (user_of lower email db)

    unfoldable pub login :
        (String → Text → Bool) → ℕ → ℕ → Text → Text → Text → Database → Database × Outcome Account
    unfolding user_of login_for
    login verify_password now ttl email password token db =
        login_for verify_password now ttl password token db (user_of lower email db)

    unfoldable pub forgot_password : ℕ → Text → Text → Database → Database × Option (Text × Text)
    unfolding user_of forgot_for
    forgot_password now email token db = forgot_for now token db (user_of lower email db)

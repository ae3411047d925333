-- ===== src/Server/Accounts/Live/Kept.antt =====
-- Every handler that changes the tables of accounts and sessions, and runs of them.
use crag_project.Base.{
  ℕ, ◌+◌, String, Bool, true, false, not, Option, none, some, List, [], ◌∷◌, ◌++◌, filter, ltb,
  ◌==◌, str_eq, ◌≡◌, refl, Bool-cases, inl, inr, All-append,
}
use crag_project.Text.{Text, is_empty, text_eq}
use crag_project.Server.Accounts.{
  Account, SessionRow, ResetRow, Database, Outcome, done, refused, get_user, update, of_session,
  session_of, get_current_user, start_session, logout, user_of, register_for, login_for, forgot_for,
  login,
}
use crag_project.Server.Accounts.Passwords.{reset_account, reset_row}
use crag_project.Server.Accounts.Admin.{admin_for, set_status_of, delete_rows}
use crag_project.Server.Accounts.Live.{
  is_live, AreLive, is_live-append, is_live-last, is_live-find?, is_live-update,
  is_live-update_other, is_live-remove, AreLive-mono, AreLive-end_sessions, AreLive-filter,
}

abbrev pub IsLive : Database → Type 0
IsLive db = AreLive db.users db.sessions

pub of_session-IsLive :
    (now : ℕ) (db : Database) (o : Option SessionRow) → IsLive db → IsLive (of_session now db o).0
unfolding of_session
of_session-IsLive now db none l = l
of_session-IsLive now db (some row) l = elim (Bool-cases (ltb row.expires_at now)) [
  | inl e ↦ rw e (AreLive-filter db.users (λ (s : SessionRow). not (s.id == row.id)) db.sessions l)
  | inr e ↦ rw e l
]

pub set_status_of-IsLive :
    (b : Bool) (db : Database) (o : Outcome Account) → IsLive db → IsLive (set_status_of b db o).0
unfolding set_status_of
set_status_of-IsLive b db (refused status detail) l = l
set_status_of-IsLive true db (done t) l =
    AreLive-mono db.users (update t.id (λ (u : Account). record u { is_active = true }) db.users)
      (λ id.
        is_live-update t.id (λ (u : Account). record u { is_active = true }) db.users id
          (λ u. (refl, λ a. refl)))
      db.sessions l
set_status_of-IsLive false db (done t) l =
    AreLive-end_sessions db.users
      (update t.id (λ (u : Account). record u { is_active = false }) db.users) t.id
      (is_live-update_other t.id (λ (u : Account). record u { is_active = false }) db.users)
      db.sessions l

pub delete_rows-IsLive :
    (db : Database) (o : Outcome Account) → IsLive db → IsLive (delete_rows db o).0
unfolding delete_rows
delete_rows-IsLive db (refused status detail) l = l
delete_rows-IsLive db (done t) l =
    AreLive-end_sessions db.users (filter (λ (u : Account). not (u.id == t.id)) db.users) t.id
      (is_live-remove t.id db.users) db.sessions l

pub admin_for-IsLive :
    (email name : Text) (hash : String) (db : Database) (o : Option Account)
    → IsLive db
    → IsLive (admin_for email name hash db o)
unfolding admin_for
admin_for-IsLive email name hash db none l =
    let user : Account = record {
      id = db.next_user;
      email = email;
      password_hash = hash;
      full_name = name;
      role = "admin";
      is_active = true;
    } in
    AreLive-mono db.users (db.users ++ user ∷ []) (is_live-append db.users (user ∷ [])) db.sessions
      l
admin_for-IsLive email name hash db (some u) l =
    let change : Account → Account =
      λ v. record v { password_hash = hash; role = "admin"; is_active = true } in
    AreLive-mono db.users (update u.id change db.users)
      (λ id. is_live-update u.id change db.users id (λ v. (refl, λ a. refl))) db.sessions l

pub reset_account-IsLive :
    (now : ℕ) (hash : String) (db : Database) (row : ResetRow) (o : Option Account)
    → IsLive db
    → IsLive (reset_account now hash db row o).0
unfolding reset_account
reset_account-IsLive now hash db row none l = l
reset_account-IsLive now hash db row (some u) l = elim (Bool-cases u.is_active) [
  | inl e ↦ rw e (
      AreLive-end_sessions db.users
        (update u.id (λ (v : Account). record v { password_hash = hash }) db.users) u.id
        (λ id n.
          is_live-update u.id (λ (v : Account). record v { password_hash = hash }) db.users id
            (λ v. (refl, λ a. a)))
        db.sessions l)
  | inr e ↦ rw e l
]

pub reset_row-IsLive :
    (now : ℕ) (hash : String) (db : Database) (o : Option ResetRow)
    → IsLive db
    → IsLive (reset_row now hash db o).0
unfolding reset_row
reset_row-IsLive now hash db none l = l
reset_row-IsLive now hash db (some row) l = elim (Bool-cases (ltb row.expires_at now)) [
  | inl e ↦ rw e l
  | inr e ↦ rw e (reset_account-IsLive now hash db row (get_user row.user_id db) l)
]

-- An account that signs in: a session more.
started :
    (us : List Account) (ss : List SessionRow) (s : SessionRow)
    → AreLive us ss
    → is_live us s.user_id ≡ true
    → AreLive us (ss ++ s ∷ [])
started us ss s l a =
    All-append (λ (t : SessionRow). is_live us t.user_id ≡ true) ss (s ∷ []) l (a, tt)

module _ (hash_token : Text → String) where
  pub logout-IsLive :
      (cookie : Option Text) (db : Database) → IsLive db → IsLive (logout hash_token cookie db)
  unfolding logout
  logout-IsLive none db l = l
  logout-IsLive (some token) db l = elim (Bool-cases (is_empty token)) [
    | inl e ↦ rw e l
    | inr e ↦ rw e (
        AreLive-filter db.users (λ (s : SessionRow). not (str_eq s.token_hash (hash_token token)))
          db.sessions l)
  ]

  pub get_current_user-IsLive :
      (now : ℕ) (cookie : Option Text) (db : Database)
      → IsLive db
      → IsLive (get_current_user hash_token now cookie db).0
  unfolding get_current_user
  get_current_user-IsLive now none db l = l
  get_current_user-IsLive now (some token) db l = elim (Bool-cases (is_empty token)) [
    | inl e ↦ rw e l
    | inr e ↦ rw e (of_session-IsLive now db (session_of hash_token token db) l)
  ]

  pub login_for-IsLive :
      (verify : String → Text → Bool) (now ttl : ℕ) (password token : Text) (db : Database)
      (o : Option Account)
      → IsLive db
      → ((u : Account) → o ≡ some u → u.is_active ≡ true → is_live db.users u.id ≡ true)
      → IsLive (login_for hash_token verify now ttl password token db o).0
  unfolding login_for start_session
  login_for-IsLive verify now ttl password token db none l f = l
  login_for-IsLive verify now ttl password token db (some u) l f =
      elim (Bool-cases (verify u.password_hash password)) [
        | inl right ↦ elim (Bool-cases u.is_active) [
          | inl active ↦
              rw (right, active)
                (started db.users db.sessions
                  (record {
                    id = db.next_session;
                    user_id = u.id;
                    token_hash = hash_token token;
                    expires_at = now + ttl;
                  })
                  l (f u refl active))
          | inr banned ↦ rw (right, banned) l
        ]
        | inr wrong ↦ rw wrong l
      ]

  pub register_for-IsLive :
      (now ttl : ℕ) (email name : Text) (hash : String) (token : Text) (db : Database)
      (o : Option Account)
      → IsLive db
      → IsLive (register_for hash_token now ttl email name hash token db o).0
  unfolding register_for start_session
  register_for-IsLive now ttl email name hash token db (some u) l = l
  register_for-IsLive now ttl email name hash token db none l =
      let user : Account = record {
        id = db.next_user;
        email = email;
        password_hash = hash;
        full_name = name;
        role = "user";
        is_active = true;
      } in
      started (db.users ++ user ∷ []) db.sessions
        (record {
          id = db.next_session;
          user_id = db.next_user;
          token_hash = hash_token token;
          expires_at = now + ttl;
        })
        (AreLive-mono db.users (db.users ++ user ∷ []) (is_live-append db.users (user ∷ []))
          db.sessions l)
        (is_live-last db.users user refl)

  pub forgot_for-IsLive :
      (now : ℕ) (token : Text) (db : Database) (o : Option Account)
      → IsLive db
      → IsLive (forgot_for hash_token now token db o).0
  unfolding forgot_for
  forgot_for-IsLive now token db none l = l
  forgot_for-IsLive now token db (some u) l = elim (Bool-cases u.is_active) [
    | inl active ↦ rw active l
    | inr banned ↦ rw banned l
  ]

  pub login-IsLive :
      (lower : Text → Text) (verify : String → Text → Bool) (now ttl : ℕ)
      (email password token : Text) (db : Database)
      → IsLive db
      → IsLive (login hash_token lower verify now ttl email password token db).0
  unfolding login
  login-IsLive lower verify now ttl email password token db l =
      login_for-IsLive verify now ttl password token db (user_of lower email db) l (λ u e active.
        is_live-find? (λ (v : Account). text_eq v.email (lower email)) db.users u e active)

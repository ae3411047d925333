-- ===== src/Server/Accounts/Passwords.antt =====
-- A password that is set with a reset token: `reset_password` of src/api/routers/auth.py.
use crag_project.Base.{
  ℕ, String, not, ◌&&◌, ◌||◌, Option, none, some, List, map, find?, ltb, ◌==◌, str_eq,
  if◌then◌else◌, is_some,
}
use crag_project.Text.{Text}
use crag_project.Server.Accounts.{
  Account, ResetRow, Database, Outcome, done, refused, get_user, update, end_sessions,
}

-- The row that is used, and the user's other rows that are not used so far, are marked.
unfoldable pub mark : ℕ → ResetRow → ResetRow → ResetRow
mark now row r =
    if r.id == row.id || (r.user_id == row.user_id && not (is_some r.used_at))
    then record r { used_at = some now }
    else r

abbrev pub invalid_link : {A : Type 0} → Outcome A
invalid_link = refused 400 "This reset link is invalid or has expired"

-- `reset_password` from the account of the token on, and from the token's row on
unfoldable pub reset_account :
    ℕ → String → Database → ResetRow → Option Account → Database × Outcome (Unit {0})
unfolding update end_sessions mark
reset_account now password_hash db row none = (db, invalid_link)
reset_account now password_hash db row (some user) =
    if user.is_active
    then (
      record db {
        users =
            update user.id (λ (u : Account). record u { password_hash = password_hash }) db.users;
        sessions = end_sessions user.id db.sessions;
        resets = map (mark now row) db.resets;
      },
      done tt,
    )
    else (db, invalid_link)

unfoldable pub reset_row : ℕ → String → Database → Option ResetRow → Database × Outcome (Unit {0})
unfolding reset_account get_user
reset_row now password_hash db none = (db, invalid_link)
reset_row now password_hash db (some row) =
    if ltb row.expires_at now
    then (db, invalid_link)
    else reset_account now password_hash db row (get_user row.user_id db)

module _ (hash_token : Text → String) (strip : Text → Text) where
  -- The unused row of a token.
  unfoldable pub reset_of : Text → List ResetRow → Option ResetRow
  reset_of token =
      find? (λ (r : ResetRow).
        str_eq r.token_hash (hash_token (strip token)) && not (is_some r.used_at))

  unfoldable pub reset_password : ℕ → Text → String → Database → Database × Outcome (Unit {0})
  unfolding reset_of reset_row
  reset_password now token password_hash db =
      reset_row now password_hash db (reset_of token db.resets)

-- ===== src/Server/Accounts/Live/StaysOut.antt =====
-- A banned or deleted account, through later requests.
use crag_project.Base.{
  ℕ, ◌<◌, String, Bool, true, false, not, Option, none, some, List, [], ◌∷◌, filter, find?, ◌==◌,
  ◌≡◌, ◌≢◌, ◌⊎◌, sym, ap, ◌∙◌, inl, inr, All, absurd_bool, arith, Bool-cases,
}
use mathlib.Core.Path.{subst}
use crag_project.Text.{Text, is_empty}
use crag_project.Server.Accounts.{
  Account, Database, Outcome, done, refused, get_user, user_of, session_of, update, admit,
}
use crag_project.Server.Accounts
use crag_project.Server.Accounts.Passwords.{reset_of}
use crag_project.Server.Accounts.Passwords
use crag_project.Server.Accounts.Admin.{get_managed_user, managed, set_status_of, delete_rows}
use crag_project.Server.Accounts.Admin
use crag_project.Server.Accounts.Live.{is_live, is_live-find?}
use crag_project.Server.Accounts.Live.Reachable.{
  Library, Step, get_current_user, register, login, logout, forgot_password, reset_password,
  set_user_status, delete_user, create_admin,
}
use crag_project.Server.Accounts.Revocation.{
  Exclusion, ban, deletion, exclude, exclude-target, get_managed_user-done, managed-done,
  of_session-done, admit-done,
}
use crag_project.Server.Accounts.Live.Out.{
  IsOut, banned-not_live, deleted-not_live, set_status_of-IsOut, delete_rows-IsOut, reset_row-IsOut,
  get_current_user-IsOut, logout-IsOut, login_for-IsOut, forgot_for-IsOut, register_for-IsOut,
}

-- A request that does not lift a ban of this account, and no command that makes an administrator.
abbrev pub Keeps : {lib : Library} {db after : Database} → ℕ → Step lib db after → Type 0
Keeps id (set_user_status k is_active admin db) = (k ≢ id) ⊎ (is_active ≡ false)
Keeps id (create_admin email name hash db) = ⊥
Keeps id step = Unit

-- Requests one after another, none of which lifts a ban of this account.
pub data Later (lib : Library) (id : ℕ) (db : Database) : Database → Type 0 where
  now : Later lib id db db
  next :
      {mid after : Database}
      → Later lib id db mid
      → (s : Step lib mid after) → Keeps id s
      → Later lib id db after

module _ (lib : Library) (id : ℕ) where
  Step-IsOut :
      {before after : Database} (s : Step lib before after)
      → Keeps id s
      → IsOut id before
      → IsOut id after
  unfolding Accounts.register Accounts.login Accounts.forgot_password Passwords.reset_password
      Admin.set_user_status Admin.delete_user
  Step-IsOut (get_current_user time cookie db) k i =
      get_current_user-IsOut id lib.hash_token time cookie db i
  Step-IsOut (register time ttl email name hash token db) k i =
      register_for-IsOut id lib.hash_token time ttl (lib.lower email) name hash token db
        (user_of lib.lower email db) i
  Step-IsOut (login time ttl email password token db) k i =
      login_for-IsOut id lib.hash_token lib.verify_password time ttl password token db
        (user_of lib.lower email db) i
  Step-IsOut (logout cookie db) k i = logout-IsOut id lib.hash_token cookie db i
  Step-IsOut (forgot_password time email token db) k i =
      forgot_for-IsOut id lib.hash_token time token db (user_of lib.lower email db) i
  Step-IsOut (reset_password time token hash db) k i =
      reset_row-IsOut id time hash db (reset_of lib.hash_token lib.strip token db.resets) i
  Step-IsOut (set_user_status other is_active admin db) k i =
      set_status_of-IsOut id is_active db other (get_managed_user other admin db)
        (get_managed_user-done other admin db) k i
  Step-IsOut (delete_user other admin db) k i =
      delete_rows-IsOut id db (get_managed_user other admin db) i
  Step-IsOut (create_admin email name hash db) k i = absurd k

  Later-IsOut : {db after : Database} → Later lib id db after → IsOut id db → IsOut id after
  Later-IsOut now i = i
  Later-IsOut (next l s k) i = Step-IsOut s k (Later-IsOut l i)

-- The ids come from a column that counts up.
abbrev pub AreOld : Database → Type 0
AreOld db = All (λ (u : Account). u.id < db.next_user) db.users

found_old :
    (p : Account → Bool) (us : List Account) (n : ℕ) (u : Account)
    → All (λ (v : Account). v.id < n) us
    → find? p us ≡ some u
    → u.id < n
found_old p [] n u h e = ground arith
found_old p (v ∷ us) n u (a, h) e = ground (arith, found_old p us n u h)

target_old :
    (id admin : ℕ) (db : Database) (t : Account)
    → AreOld db
    → get_managed_user id admin db ≡ done t
    → id < db.next_user
unfolding get_managed_user get_user
target_old id admin db t old e =
    subst (λ k. k < db.next_user) (get_managed_user-done id admin db t e)
      (found_old (λ (u : Account). u.id == id) db.users db.next_user t old
        (managed-done admin (get_user id db) t e))

exclude-IsOut :
    (x : Exclusion) (id admin : ℕ) (db : Database)
    → AreOld db
    → (exclude x id admin db).1 ≡ done tt
    → IsOut id (exclude x id admin db).0
unfolding exclude Admin.set_user_status Admin.delete_user set_status_of delete_rows
exclude-IsOut ban id admin db old h =
    let (t, e) = exclude-target ban id admin db h in
    let off : Account → Account = λ u. record u { is_active = false } in
    subst (λ o. IsOut id (set_status_of false db o).0) (sym e)
      (record {
        not_live =
            ap (λ k. is_live (update k off db.users) id) (get_managed_user-done id admin db t e)
            ∙ banned-not_live db.users id;
        id_is_old = target_old id admin db t old e;
      })
exclude-IsOut deletion id admin db old h =
    let (t, e) = exclude-target deletion id admin db h in
    subst (λ o. IsOut id (delete_rows db o).0) (sym e)
      (record {
        not_live =
            ap (λ k. is_live (filter (λ (u : Account). not (u.id == k)) db.users) id)
              (get_managed_user-done id admin db t e)
            ∙ deleted-not_live db.users id;
        id_is_old = target_old id admin db t old e;
      })

let_in-is_live :
    (hash_token : Text → String) (time : ℕ) (cookie : Option Text) (db : Database) (u : Account)
    → (Accounts.get_current_user hash_token time cookie db).1 ≡ done u
    → is_live db.users u.id ≡ true
unfolding Accounts.get_current_user get_user
let_in-is_live hash_token time none db u h = ground arith
let_in-is_live hash_token time (some token) db u h = elim (Bool-cases (is_empty token)) [
  | inl e ↦ ground arith
  | inr e ↦
      let (r, found, a) =
        of_session-done time db (session_of hash_token token db) u (ground arith) in
      let (here, active) = admit-done (get_user r.user_id db) u a in
      is_live-find? (λ (v : Account). v.id == r.user_id) db.users u here active
]

-- After an administrator has banned or deleted an account, whatever requests follow of which none lifts a ban of it,
-- no cookie whatever, at no time, lets anyone in as that account. The accounts' ids are below the next one.
pub exclude-Later :
    (lib : Library) (x : Exclusion) (id admin : ℕ) (db after : Database)
    → AreOld db
    → (exclude x id admin db).1 ≡ done tt
    → Later lib id (exclude x id admin db).0 after
    → (time : ℕ) (cookie : Option Text) (u : Account)
    → (Accounts.get_current_user lib.hash_token time cookie after).1 ≡ done u
    → u.id ≢ id
exclude-Later lib x id admin db after old h later time cookie u let_in same =
    let i = Later-IsOut lib id later (exclude-IsOut x id admin db old h) in
    absurd_bool (
      sym i.not_live
      ∙ ap (is_live after.users) (sym same)
      ∙ let_in-is_live lib.hash_token time cookie after u let_in)

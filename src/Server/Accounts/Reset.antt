-- ===== src/Server/Accounts/Reset.antt =====
-- What a reset of a password leaves: the token is spent and the account's sessions are ended.
use crag_project.Base.{
  split_and, ℕ, String, Bool, true, false, not, ◌&&◌, Option, none, some, is_some, List, [], ◌∷◌,
  map, find?, ltb, ◌==◌, str_eq, ◌≡◌, refl, sym, ap, ◌∙◌, arith, Bool-cases, inl, inr, find?-holds,
  ==_iff, eq_iff, All,
}
use mathlib.Core.Path.{subst}
use crag_project.Text.{Text}
use crag_project.Server.Accounts.{Account, ResetRow, Database, done, get_user, end_sessions}
use crag_project.Server.Accounts.Passwords.{
  mark, invalid_link, reset_account, reset_row, reset_of, reset_password,
}
use crag_project.Server.Accounts.Revocation.{has_session, has_session-end_sessions}

-- The column `token_hash` is unique.
abbrev pub AreUnique : List ResetRow → Type 0
AreUnique [] = Unit
AreUnique (r ∷ rs) =
    All (λ (q : ResetRow). str_eq q.token_hash r.token_hash ≡ false) rs × AreUnique rs

reset_account-done :
    (now : ℕ) (hash : String) (db : Database) (row : ResetRow) (o : Option Account)
    → (reset_account now hash db row o).1 ≡ done tt
    → (u : Account) × (o ≡ some u)
      × ((reset_account now hash db row o).0.resets ≡ map (mark now row) db.resets)
      × ((reset_account now hash db row o).0.sessions ≡ end_sessions u.id db.sessions)
unfolding reset_account
reset_account-done now hash db row none h = ground arith
reset_account-done now hash db row (some u) h = elim (Bool-cases u.is_active) [
  | inl e ↦ (u, refl, rw e refl, rw e refl)
  | inr e ↦ ground arith
]

same_id :
    (row : ResetRow) (db : Database) (u : Account)
    → get_user row.user_id db ≡ some u
    → u.id ≡ row.user_id
unfolding get_user
same_id row db u h =
    (==_iff u.id row.user_id).0 (find?-holds (λ (v : Account). v.id == row.user_id) db.users u h)

reset_row-done :
    (now : ℕ) (hash : String) (db : Database) (o : Option ResetRow)
    → (reset_row now hash db o).1 ≡ done tt
    → (row : ResetRow) × (o ≡ some row)
      × ((reset_row now hash db o).0.resets ≡ map (mark now row) db.resets)
      × (has_session row.user_id (reset_row now hash db o).0.sessions ≡ false)
unfolding reset_row get_user
reset_row-done now hash db none h = ground arith
reset_row-done now hash db (some row) h = elim (Bool-cases (ltb row.expires_at now)) [
  | inl e ↦ ground arith
  | inr e ↦
      let (u, found, resets, sessions) =
        reset_account-done now hash db row (get_user row.user_id db) (ground arith) in
      (
        row,
        refl,
        rw e resets,
        rw e (
            rw sessions (
              ap (λ i. has_session i (end_sessions u.id db.sessions)) (sym (same_id row db u found))
              ∙ has_session-end_sessions u.id db.sessions)),
      )
]

-- Is this an unused row of the token with this hash?
abbrev is_usable : String → ResetRow → Bool
is_usable k r = str_eq r.token_hash k && not (is_some r.used_at)

mark-unusable :
    (k : String) (now : ℕ) (row r : ResetRow)
    → is_usable k r ≡ false
    → is_usable k (mark now row r) ≡ false
unfolding mark
mark-unusable k now row r h = ground arith

mark_self : (k : String) (now : ℕ) (row : ResetRow) → is_usable k (mark now row row) ≡ false
unfolding mark
mark_self k now row = ground arith

others-spent :
    (k : String) (now : ℕ) (row : ResetRow) (rs : List ResetRow)
    → All (λ (q : ResetRow). str_eq q.token_hash k ≡ false) rs
    → find? (is_usable k) (map (mark now row) rs) ≡ none
others-spent k now row [] h = refl
others-spent k now row (r ∷ rs) (n, h) =
    ground (arith, mark-unusable k now row r, others-spent k now row rs h)

some_inj : {A : Type 0} {a b : A} → some a ≡ some b → a ≡ b
some_inj e = cc

-- The first usable row of the list, after which no row has its hash.
marked-first :
    (k : String) (now : ℕ) (row r : ResetRow) (rs : List ResetRow)
    → is_usable k r ≡ true
    → All (λ (q : ResetRow). str_eq q.token_hash r.token_hash ≡ false) rs
    → r ≡ row
    → find? (is_usable k) (map (mark now row) (r ∷ rs)) ≡ none
marked-first k now row r rs e fresh same =
    let hash : r.token_hash ≡ k =
      (eq_iff r.token_hash k).0 (split_and (str_eq r.token_hash k) (not (is_some r.used_at)) e).0 in
    let used = ap (λ q. is_usable k (mark now q r)) (sym same) ∙ mark_self k now r in
    rw used (
      others-spent k now row rs
        (subst (λ t. All (λ (q : ResetRow). str_eq q.token_hash t ≡ false) rs) hash fresh))

marked-spent :
    (k : String) (now : ℕ) (row : ResetRow) (rs : List ResetRow)
    → AreUnique rs
    → find? (is_usable k) rs ≡ some row
    → find? (is_usable k) (map (mark now row) rs) ≡ none
marked-spent k now row [] u h = ground arith
marked-spent k now row (r ∷ rs) (fresh, u) h = elim (Bool-cases (is_usable k r)) [
  | inl e ↦ marked-first k now row r rs e fresh (some_inj (ground arith))
  | inr e ↦ ground (arith, mark-unusable k now row r e, marked-spent k now row rs u)
]

-- After a reset with a token, whenever the next attempt with it comes, it is refused; and the account has no
-- session left. The hashes of the tokens are unique, as the table's column demands.
pub reset_password-spent :
    (hash_token : Text → String) (strip : Text → Text) (now : ℕ) (token : Text) (hash : String)
    (db : Database) (row : ResetRow)
    → AreUnique db.resets
    → reset_of hash_token strip token db.resets ≡ some row
    → (reset_password hash_token strip now token hash db).1 ≡ done tt
    → (later : ℕ) (other : String)
    → ((reset_password hash_token strip later token other
          (reset_password hash_token strip now token hash db).0).1
        ≡ invalid_link)
      × (has_session row.user_id (reset_password hash_token strip now token hash db).0.sessions
          ≡ false)
unfolding reset_password reset_of reset_row
reset_password-spent hash_token strip now token hash db row u found h later other =
    let (row', found', resets, sessions) =
      reset_row-done now hash db (reset_of hash_token strip token db.resets) h in
    let same : row' ≡ row = some_inj (sym found' ∙ found) in
    (
      ap
            (λ rs.
              (reset_row later other
                (reset_row now hash db (reset_of hash_token strip token db.resets)).0
                (reset_of hash_token strip token rs)).1)
            resets
          ∙ ap
              (λ o.
                (reset_row later other
                  (reset_row now hash db (reset_of hash_token strip token db.resets)).0 o).1)
              (marked-spent (hash_token (strip token)) now row' db.resets u found'),
      ap
            (λ (r : ResetRow).
              has_session r.user_id
                (reset_row now hash db (reset_of hash_token strip token db.resets)).0.sessions)
            (sym same)
          ∙ sessions,
    )

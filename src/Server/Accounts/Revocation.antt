-- ===== src/Server/Accounts/Revocation.antt =====
-- Accounts whose sessions are ended: whom `get_current_user` lets in afterwards.
use crag_project.Base.{
  ℕ, String, Bool, true, false, Option, none, some, List, [], ◌∷◌, find?, any, ltb, ◌==◌, str_eq,
  ◌≡◌, ◌≢◌, refl, sym, ◌∙◌, arith, Bool-cases, inl, inr, find?-holds, ==_iff,
}
use crag_project.Text.{Text, is_empty}
use crag_project.Server.Accounts.{
  Account, SessionRow, Database, Outcome, done, refused, get_user, end_sessions, session_of,
  of_session, admit, get_current_user,
}
use crag_project.Server.Accounts.Admin.{
  managed, get_managed_user, set_status_of, delete_rows, set_user_status, delete_user,
}

-- Has the account a session?
unfoldable pub has_session : ℕ → List SessionRow → Bool
has_session id ss = any (λ (s : SessionRow). s.user_id == id) ss

pub has_session-end_sessions :
    (id : ℕ) (ss : List SessionRow) → has_session id (end_sessions id ss) ≡ false
unfolding has_session end_sessions
has_session-end_sessions id [] = refl
has_session-end_sessions id (s ∷ ss) = ground (arith, has_session-end_sessions id ss)

find?-has_session :
    (id : ℕ) (p : SessionRow → Bool) (ss : List SessionRow) (r : SessionRow)
    → has_session id ss ≡ false
    → find? p ss ≡ some r
    → r.user_id ≢ id
unfolding has_session
find?-has_session id p [] r n h = ground arith
find?-has_session id p (s ∷ ss) r n h = ground (arith, find?-has_session id p ss r)

pub admit-done :
    (o : Option Account) (u : Account) → admit o ≡ done u → (o ≡ some u) × (u.is_active ≡ true)
unfolding admit
admit-done none u h = ground arith
admit-done (some v) u h = ground arith

pub of_session-done :
    (now : ℕ) (db : Database) (o : Option SessionRow) (u : Account)
    → (of_session now db o).1 ≡ done u
    → (r : SessionRow) × (o ≡ some r) × (admit (get_user r.user_id db) ≡ done u)
unfolding of_session
of_session-done now db none u h = ground arith
of_session-done now db (some row) u h = elim (Bool-cases (ltb row.expires_at now)) [
  | inl e ↦ ground arith
  | inr e ↦ (row, refl, ground arith)
]

module _ (hash_token : Text → String) where
  -- Whoever is let in has a session.
  pub get_current_user-has_session :
      (now : ℕ) (cookie : Option Text) (db : Database) (u : Account) (id : ℕ)
      → has_session id db.sessions ≡ false
      → (get_current_user hash_token now cookie db).1 ≡ done u
      → u.id ≢ id
  unfolding get_current_user session_of get_user
  get_current_user-has_session now none db u id n h = ground arith
  get_current_user-has_session now (some token) db u id n h = elim (Bool-cases (is_empty token)) [
    | inl e ↦ ground arith
    | inr e ↦
        let (r, found, a) =
          of_session-done now db (session_of hash_token token db) u (ground arith) in
        let (here, active) = admit-done (get_user r.user_id db) u a in
        let other =
          find?-has_session id (λ (s : SessionRow). str_eq s.token_hash (hash_token token))
            db.sessions r n found in
        let same = find?-holds (λ (v : Account). v.id == r.user_id) db.users u here in
        λ e. other (sym ((==_iff u.id r.user_id).0 same) ∙ e)
  ]

-- The two ways in which an administrator shuts an account out: `admin_set_user_status` and
-- `admin_delete_user`.
pub data Exclusion : Type 0 where
  ban deletion : Exclusion

abbrev pub without_answer : {A : Type 0} → Outcome A → Outcome (Unit {0})
without_answer (done a) = done tt
without_answer (refused status detail) = refused status detail

unfoldable pub exclude : Exclusion → ℕ → ℕ → Database → Database × Outcome (Unit {0})
unfolding set_user_status delete_user
exclude ban id admin db =
    let after = set_user_status id false admin db in (after.0, without_answer after.1)
exclude deletion id admin db = delete_user id admin db

pub managed-done :
    (admin : ℕ) (o : Option Account) (t : Account) → managed admin o ≡ done t → o ≡ some t
unfolding managed
managed-done admin none t h = ground arith
managed-done admin (some u) t h = ground arith

pub get_managed_user-done :
    (id admin : ℕ) (db : Database) (t : Account) → get_managed_user id admin db ≡ done t → t.id ≡ id
unfolding get_managed_user get_user
get_managed_user-done id admin db t h =
    (==_iff t.id id).0 (
      find?-holds (λ (u : Account). u.id == id) db.users t
        (managed-done admin (get_user id db) t h))

status_target :
    (db : Database) (o : Outcome Account)
    → without_answer (set_status_of false db o).1 ≡ done tt
    → (t : Account) × (o ≡ done t)
unfolding set_status_of
status_target db (done t) h = (t, refl)
status_target db (refused status detail) h = ground arith

deleted_target :
    (db : Database) (o : Outcome Account)
    → (delete_rows db o).1 ≡ done tt
    → (t : Account) × (o ≡ done t)
unfolding delete_rows
deleted_target db (done t) h = (t, refl)
deleted_target db (refused status detail) h = ground arith

pub exclude-target :
    (x : Exclusion) (id admin : ℕ) (db : Database)
    → (exclude x id admin db).1 ≡ done tt
    → (t : Account) × (get_managed_user id admin db ≡ done t)
unfolding exclude
exclude-target ban id admin db h = status_target db (get_managed_user id admin db) h
exclude-target deletion id admin db h = deleted_target db (get_managed_user id admin db) h

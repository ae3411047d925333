-- ===== src/Server/Accounts/Live/Out.antt =====
-- An account that is shut out, through all later requests.
use crag_project.Base.{
  ℕ, ◌<◌, String, Bool, true, false, not, Option, none, some, List, [], ◌∷◌, ◌++◌, filter, ltb,
  ◌==◌, ◌≡◌, ◌≢◌, ◌⊎◌, refl, sym, ◌∙◌, arith, Bool-cases, inl, inr, absurd_bool,
}
use crag_project.Text.{Text, is_empty}
use crag_project.Server.Accounts.{
  Account, SessionRow, ResetRow, Database, Outcome, done, refused, get_user, user_of, update,
  session_of, of_session, login_for, forgot_for, register_for, start_session,
}
use crag_project.Server.Accounts
use crag_project.Server.Accounts.Passwords.{reset_account, reset_row}
use crag_project.Server.Accounts.Admin.{set_status_of, delete_rows}
use crag_project.Server.Accounts.Live.{is_live}

-- No account with this id is active, and none will get the id.
pub record IsOut (id : ℕ) (db : Database) : Type 0 where
  pub not_live : is_live db.users id ≡ false
  pub id_is_old : id < db.next_user

not_live-append :
    (us : List Account) (u : Account) (id : ℕ)
    → is_live us id ≡ false
    → (u.id == id) ≡ false
    → is_live (us ++ u ∷ []) id ≡ false
unfolding is_live
not_live-append [] u id h n = ground arith
not_live-append (v ∷ us) u id h n = ground (arith, not_live-append us u id)

not_live-filter :
    (p : Account → Bool) (us : List Account) (id : ℕ)
    → is_live us id ≡ false
    → is_live (filter p us) id ≡ false
unfolding is_live
not_live-filter p [] id h = h
not_live-filter p (u ∷ us) id h = ground (arith, not_live-filter p us id)

-- A change that makes no account active, or one of another account.
not_live-update :
    (k : ℕ) (f : Account → Account) (us : List Account) (id : ℕ)
    → ((u : Account) → ((f u).id ≡ u.id) × ((f u).is_active ≡ true → u.is_active ≡ true))
    → is_live us id ≡ false
    → is_live (update k f us) id ≡ false
unfolding is_live update
not_live-update k f [] id g h = h
not_live-update k f (u ∷ us) id g h =
    let (same, kept) = g u in ground (arith, not_live-update k f us id g)

not_live-update_other :
    (k : ℕ) (f : Account → Account) (us : List Account) (id : ℕ)
    → ((u : Account) → (f u).id ≡ u.id)
    → k ≢ id
    → is_live us id ≡ false
    → is_live (update k f us) id ≡ false
unfolding is_live update
not_live-update_other k f [] id g n h = h
not_live-update_other k f (u ∷ us) id g n h =
    let same = g u in ground (arith, not_live-update_other k f us id g n)

-- A ban and a deletion.
pub banned-not_live :
    (us : List Account) (id : ℕ)
    → is_live (update id (λ (u : Account). record u { is_active = false }) us) id ≡ false
unfolding is_live update
banned-not_live [] id = refl
banned-not_live (u ∷ us) id = ground (arith, banned-not_live us id)

pub deleted-not_live :
    (us : List Account) (id : ℕ)
    → is_live (filter (λ (u : Account). not (u.id == id)) us) id ≡ false
unfolding is_live
deleted-not_live [] id = refl
deleted-not_live (u ∷ us) id = ground (arith, deleted-not_live us id)

module _ (id : ℕ) where
  pub of_session-IsOut :
      (time : ℕ) (db : Database) (o : Option SessionRow)
      → IsOut id db
      → IsOut id (of_session time db o).0
  unfolding of_session
  of_session-IsOut time db none i = i
  of_session-IsOut time db (some row) i = elim (Bool-cases (ltb row.expires_at time)) [
    | inl e ↦ rw e (record { not_live = i.not_live; id_is_old = i.id_is_old })
    | inr e ↦ rw e i
  ]

  pub set_status_of-IsOut :
      (b : Bool) (db : Database) (k : ℕ) (o : Outcome Account)
      → ((t : Account) → o ≡ done t → t.id ≡ k)
      → (k ≢ id) ⊎ (b ≡ false)
      → IsOut id db
      → IsOut id (set_status_of b db o).0
  unfolding set_status_of
  set_status_of-IsOut b db k (refused status detail) same keeps i = i
  set_status_of-IsOut b db k (done t) same (inl other) i = record {
    not_live =
        not_live-update_other t.id (λ (u : Account). record u { is_active = b }) db.users id
          (λ u. refl) (λ e. other (sym (same t refl) ∙ e)) i.not_live;
    id_is_old = i.id_is_old;
  }
  set_status_of-IsOut true db k (done t) same (inr off) i = absurd_bool (sym off)
  set_status_of-IsOut false db k (done t) same (inr off) i = record {
    not_live =
        not_live-update t.id (λ (u : Account). record u { is_active = false }) db.users id
          (λ u. (refl, λ e. absurd_bool e)) i.not_live;
    id_is_old = i.id_is_old;
  }

  pub delete_rows-IsOut :
      (db : Database) (o : Outcome Account) → IsOut id db → IsOut id (delete_rows db o).0
  unfolding delete_rows
  delete_rows-IsOut db (refused status detail) i = i
  delete_rows-IsOut db (done t) i = record {
    not_live = not_live-filter (λ (u : Account). not (u.id == t.id)) db.users id i.not_live;
    id_is_old = i.id_is_old;
  }

  pub reset_account-IsOut :
      (time : ℕ) (hash : String) (db : Database) (row : ResetRow) (o : Option Account)
      → IsOut id db
      → IsOut id (reset_account time hash db row o).0
  unfolding reset_account
  reset_account-IsOut time hash db row none i = i
  reset_account-IsOut time hash db row (some t) i = elim (Bool-cases t.is_active) [
    | inl e ↦ rw e (record {
      not_live =
          not_live-update t.id (λ (u : Account). record u { password_hash = hash }) db.users id
            (λ u. (refl, λ e. e)) i.not_live;
      id_is_old = i.id_is_old;
    })
    | inr e ↦ rw e i
  ]

  pub reset_row-IsOut :
      (time : ℕ) (hash : String) (db : Database) (o : Option ResetRow)
      → IsOut id db
      → IsOut id (reset_row time hash db o).0
  unfolding reset_row
  reset_row-IsOut time hash db none i = i
  reset_row-IsOut time hash db (some row) i = elim (Bool-cases (ltb row.expires_at time)) [
    | inl e ↦ rw e i
    | inr e ↦ rw e (reset_account-IsOut time hash db row (get_user row.user_id db) i)
  ]

  module _ (hash_token : Text → String) where
    pub get_current_user-IsOut :
        (time : ℕ) (cookie : Option Text) (db : Database)
        → IsOut id db
        → IsOut id (Accounts.get_current_user hash_token time cookie db).0
    unfolding Accounts.get_current_user
    get_current_user-IsOut time none db i = i
    get_current_user-IsOut time (some token) db i = elim (Bool-cases (is_empty token)) [
      | inl e ↦ rw e i
      | inr e ↦ rw e (of_session-IsOut time db (session_of hash_token token db) i)
    ]

    pub logout-IsOut :
        (cookie : Option Text) (db : Database)
        → IsOut id db
        → IsOut id (Accounts.logout hash_token cookie db)
    unfolding Accounts.logout
    logout-IsOut none db i = i
    logout-IsOut (some token) db i = elim (Bool-cases (is_empty token)) [
      | inl e ↦ rw e i
      | inr e ↦ rw e (record { not_live = i.not_live; id_is_old = i.id_is_old })
    ]

    pub login_for-IsOut :
        (verify : String → Text → Bool) (time ttl : ℕ) (password token : Text) (db : Database)
        (o : Option Account)
        → IsOut id db
        → IsOut id (login_for hash_token verify time ttl password token db o).0
    unfolding login_for start_session
    login_for-IsOut verify time ttl password token db none i = i
    login_for-IsOut verify time ttl password token db (some u) i =
        elim (Bool-cases (verify u.password_hash password)) [
          | inl right ↦ elim (Bool-cases u.is_active) [
            | inl active ↦
                rw (right, active) (record { not_live = i.not_live; id_is_old = i.id_is_old })
            | inr banned ↦ rw (right, banned) i
          ]
          | inr wrong ↦ rw wrong i
        ]

    pub forgot_for-IsOut :
        (time : ℕ) (token : Text) (db : Database) (o : Option Account)
        → IsOut id db
        → IsOut id (forgot_for hash_token time token db o).0
    unfolding forgot_for
    forgot_for-IsOut time token db none i = i
    forgot_for-IsOut time token db (some u) i = elim (Bool-cases u.is_active) [
      | inl active ↦ rw active (record { not_live = i.not_live; id_is_old = i.id_is_old })
      | inr banned ↦ rw banned i
    ]

    pub register_for-IsOut :
        (time ttl : ℕ) (email name : Text) (hash : String) (token : Text) (db : Database)
        (o : Option Account)
        → IsOut id db
        → IsOut id (register_for hash_token time ttl email name hash token db o).0
    unfolding register_for start_session
    register_for-IsOut time ttl email name hash token db (some u) i = i
    register_for-IsOut time ttl email name hash token db none i = record {
      not_live =
          not_live-append db.users
            (record {
              id = db.next_user;
              email = email;
              password_hash = hash;
              full_name = name;
              role = "user";
              is_active = true;
            })
            id i.not_live (let old = i.id_is_old in ground arith);
      id_is_old = let old = i.id_is_old in omega arith;
    }

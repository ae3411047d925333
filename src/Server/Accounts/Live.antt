-- ===== src/Server/Accounts/Live.antt =====
-- Which accounts have sessions, whatever the handlers are called with and in whatever order.
pub mod Kept
pub mod Reachable
pub mod Out
pub mod StaysOut
use crag_project.Base.{
  split_and, join_and, ℕ, String, Bool, true, false, not, ◌&&◌, ◌||◌, Option, none, some, List, [],
  ◌∷◌, ◌++◌, map, filter, find?, any, ◌==◌, str_eq, if◌then◌else◌, ◌≡◌, refl, sym, ap, ◌∙◌, arith,
  Bool-cases, inl, inr, All, All-append, ==_iff, ==_refl,
}
use crag_project.Text.{Text}
use crag_project.Server.Accounts.{
  Account, SessionRow, ResetRow, Database, Outcome, update, end_sessions,
}

-- Is there an account with this id that is not banned?
unfoldable pub is_live : List Account → ℕ → Bool
is_live us id = any (λ (u : Account). u.id == id && u.is_active) us

-- Every session is of an account that is not banned.
abbrev pub AreLive : List Account → List SessionRow → Type 0
AreLive us ss = All (λ (s : SessionRow). is_live us s.user_id ≡ true) ss

pub is_live-append :
    (us vs : List Account) (id : ℕ) → is_live us id ≡ true → is_live (us ++ vs) id ≡ true
unfolding is_live
is_live-append [] vs id h = ground arith
is_live-append (u ∷ us) vs id h = ground (arith, is_live-append us vs id)

pub is_live-last :
    (us : List Account) (u : Account) → u.is_active ≡ true → is_live (us ++ u ∷ []) u.id ≡ true
unfolding is_live
is_live-last [] u h = ground arith
is_live-last (v ∷ us) u h = ground (arith, is_live-last us u h)

pub is_live-find? :
    (p : Account → Bool) (us : List Account) (u : Account)
    → find? p us ≡ some u
    → u.is_active ≡ true
    → is_live us u.id ≡ true
unfolding is_live
is_live-find? p [] u e h = ground arith
is_live-find? p (v ∷ us) u e h = ground (arith, is_live-find? p us u)

-- A change that bans nobody.
pub is_live-update :
    (k : ℕ) (f : Account → Account) (us : List Account) (id : ℕ)
    → ((u : Account) → ((f u).id ≡ u.id) × (u.is_active ≡ true → (f u).is_active ≡ true))
    → is_live us id ≡ true
    → is_live (update k f us) id ≡ true
unfolding is_live update
is_live-update k f [] id g h = h
is_live-update k f (u ∷ us) id g h =
    let (same, kept) = g u in ground (arith, is_live-update k f us id g)

-- A change of another account.
pub is_live-update_other :
    (k : ℕ) (f : Account → Account) (us : List Account) (id : ℕ)
    → (k == id) ≡ false
    → is_live us id ≡ true
    → is_live (update k f us) id ≡ true
unfolding is_live update
is_live-update_other k f [] id n h = h
is_live-update_other k f (u ∷ us) id n h = ground (arith, is_live-update_other k f us id n)

pub is_live-remove :
    (k : ℕ) (us : List Account) (id : ℕ)
    → (k == id) ≡ false
    → is_live us id ≡ true
    → is_live (filter (λ (u : Account). not (u.id == k)) us) id ≡ true
unfolding is_live
is_live-remove k [] id n h = h
is_live-remove k (u ∷ us) id n h = ground (arith, is_live-remove k us id n)

module _ (us vs : List Account) where
  pub AreLive-mono :
      ((id : ℕ) → is_live us id ≡ true → is_live vs id ≡ true)
      → (ss : List SessionRow) → AreLive us ss
      → AreLive vs ss
  AreLive-mono f [] h = tt
  AreLive-mono f (s ∷ ss) (a, h) = (f s.user_id a, AreLive-mono f ss h)

  -- Of the sessions that are left when those of one account are ended.
  pub AreLive-end_sessions :
      (k : ℕ)
      → ((id : ℕ) → (k == id) ≡ false → is_live us id ≡ true → is_live vs id ≡ true)
      → (ss : List SessionRow) → AreLive us ss
      → AreLive vs (end_sessions k ss)
  unfolding end_sessions
  AreLive-end_sessions k f [] h = tt
  AreLive-end_sessions k f (s ∷ ss) (a, h) = elim (Bool-cases (s.user_id == k)) [
    | inl e ↦ rw e (AreLive-end_sessions k f ss h)
    | inr e ↦ rw e (f s.user_id (ground arith) a, AreLive-end_sessions k f ss h)
  ]

pub AreLive-filter :
    (us : List Account) (p : SessionRow → Bool) (ss : List SessionRow)
    → AreLive us ss
    → AreLive us (filter p ss)
AreLive-filter us p [] h = tt
AreLive-filter us p (s ∷ ss) (a, h) = elim (Bool-cases (p s)) [
  | inl e ↦ rw e (a, AreLive-filter us p ss h)
  | inr e ↦ rw e (AreLive-filter us p ss h)
]

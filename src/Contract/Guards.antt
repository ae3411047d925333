-- ===== src/Contract/Guards.antt =====
-- What the page of accounts offers, against the server's guard.
use crag_project.Base.{
  Bool, true, false, not, ◌&&◌, some, ◌==◌, ◌≡◌, arith, find?-holds, ==_iff, ◌∙◌, ap, any, sym,
  Bool-cases, inl, inr, String,
}
use crag_project.Text.{Text}
use crag_project.Types.{User}
use crag_project.Ui.{clicks}
use crag_project.Users.{
  AdminUserRow, Snapshot, Click, select, set_status, ask_delete, close_details, cancel,
  confirm_delete, is_self, is_admin_row,
}
use crag_project.Users.View.{user_row, row_actions}
use crag_project.Server.Accounts.{Account, Database, Outcome, done, refused, get_user}
use crag_project.Server.Accounts.Admin.{managed, get_managed_user}

abbrev pub is_done : {A : Type 0} → Outcome A → Bool
is_done (done a) = true
is_done (refused status detail) = false

-- Does the click act on an account, beyond showing it?
abbrev pub is_action : Click → Bool
is_action (set_status id active) = true
is_action (ask_delete row) = true
is_action (confirm_delete id) = true
is_action (select id) = false
is_action close_details = false
is_action cancel = false

managed-guard :
    (me : User) (row : AdminUserRow) (u : Account)
    → u.id ≡ row.id
    → u.role ≡ row.role
    → (not (is_self (some me) row) && not (is_admin_row row)) ≡ is_done (managed me.id (some u))
unfolding managed is_self is_admin_row
managed-guard me row u i r = rw (i, r) (ground arith)

module _ (format_date : String → Text) (me : User) (q : Snapshot) (row : AdminUserRow) where
  user_row-is_action :
      q.status_mutation.is_pending ≡ false
      → q.delete_mutation.is_pending ≡ false
      → any is_action (clicks (user_row format_date (some me) q row))
        ≡ (not (is_self (some me) row) && not (is_admin_row row))
  unfolding user_row row_actions
  user_row-is_action p d =
      rw (p, d)
        (elim (Bool-cases row.is_active) [
          | inl e ↦ rw e (ground arith)
          | inr e ↦ rw e (ground arith)
        ])

  -- For a row of the page that is up to date in its role, while no ban or deletion is under way, the row
  -- shows an administrator an enabled button that bans, unbans or deletes exactly if the server lets
  -- them act on that account.
  pub offered-managed :
      (db : Database) (u : Account)
      → q.status_mutation.is_pending ≡ false
      → q.delete_mutation.is_pending ≡ false
      → get_user row.id db ≡ some u
      → u.role ≡ row.role
      → any is_action (clicks (user_row format_date (some me) q row))
        ≡ is_done (get_managed_user row.id me.id db)
  unfolding get_managed_user get_user
  offered-managed db u p d found r =
      user_row-is_action p d
      ∙ managed-guard me row u
          ((==_iff u.id row.id).0 (find?-holds (λ (v : Account). v.id == row.id) db.users u found))
          r
      ∙ ap (λ o. is_done (managed me.id o)) (sym found)

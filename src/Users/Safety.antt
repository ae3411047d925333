-- ===== src/Users/Safety.antt =====
-- Which accounts the page can act on.
use crag_project.Base.{String, Option, List, [], All, ◌++◌}
use crag_project.Text.{Text}
use crag_project.Api.Errors.{ok, failed}
use crag_project.Types.{User}
use crag_project.Ui.{clicks}
use crag_project.Ui.Clicks.{In, All-In, In-append-left}
use crag_project.Users.{
  AdminUserRow, UsersState, initial, Click, Settled, status_settled, delete_settled, on_click,
  on_settled, Snapshot,
}
use crag_project.Users.View.{view}
use crag_project.Users.Offered.{
  HasSafeTarget, IsAllowed, answered, more-HasSafeTarget, IsSafe, view-IsSafe,
}

-- The states that the page can come to, each with the rows that the server has given it on the way:
-- by a click on something that it shows, at whatever answers of the server, or by a request that
-- ends.
pub data Reach (format_date : String → Text) (me : Option User)
    : List AdminUserRow → UsersState → Type 0 where
  start : Reach format_date me [] initial
  clicked :
      {rows : List AdminUserRow} {s : UsersState} (q : Snapshot) (e : Click)
      → Reach format_date me rows s
      → In e (clicks (view format_date me q s))
      → Reach format_date me (answered q ++ rows) (on_click s e).0
  settled :
      {rows : List AdminUserRow} {s : UsersState} (e : Settled)
      → Reach format_date me rows s
      → Reach format_date me rows (on_settled s e).0

module _ (format_date : String → Text) (me : Option User) (rows : List AdminUserRow) where
  settled-HasSafeTarget :
      (s : UsersState) (e : Settled)
      → HasSafeTarget rows me s
      → HasSafeTarget rows me (on_settled s e).0
  unfolding on_settled
  settled-HasSafeTarget s (status_settled b (ok _)) h = tt
  settled-HasSafeTarget s (status_settled b (failed err)) h = h
  settled-HasSafeTarget s (delete_settled (ok _)) h = tt
  settled-HasSafeTarget s (delete_settled (failed err)) h = h

-- A click on something that the page shows is safe, as far as the rows go that it has been given.
clicked-IsSafe :
    (format_date : String → Text) (me : Option User) (rows : List AdminUserRow) (s : UsersState)
    (q : Snapshot) (e : Click)
    → HasSafeTarget rows me s
    → In e (clicks (view format_date me q s))
    → IsSafe format_date me (answered q ++ rows) s e
clicked-IsSafe format_date me rows s q e target m =
    let all = answered q ++ rows in
    All-In (IsSafe format_date me all s) _ e
      (view-IsSafe format_date me all q s (λ row i. In-append-left row (answered q) rows i)
        (more-HasSafeTarget (answered q) rows me s.delete_target target)).at
      m

module _ (format_date : String → Text) (me : Option User) where
  Reach-HasSafeTarget :
      {rows : List AdminUserRow} {s : UsersState}
      → Reach format_date me rows s
      → HasSafeTarget rows me s
  Reach-HasSafeTarget start = tt
  Reach-HasSafeTarget (clicked {rows} {s} q e r m) =
      (clicked-IsSafe format_date me rows s q e (Reach-HasSafeTarget r) m).0
  Reach-HasSafeTarget (settled {rows} {s} e r) =
      settled-HasSafeTarget format_date me rows s e (Reach-HasSafeTarget r)

  -- In every state that the page can come to, each request that a click on the page makes is about
  -- the account of a row that the server has given to the page, now or before, and in that row the
  -- account is neither the signed-in user's own nor an administrator's.
  pub Reach-IsAllowed :
      {rows : List AdminUserRow} {s : UsersState} (q : Snapshot) (e : Click)
      → Reach format_date me rows s
      → In e (clicks (view format_date me q s))
      → All (IsAllowed (answered q ++ rows) me) (on_click s e).1
  Reach-IsAllowed {rows} {s} q e r m =
      (clicked-IsSafe format_date me rows s q e (Reach-HasSafeTarget r) m).1

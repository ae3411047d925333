-- ===== src/Users/Offered.antt =====
-- What the page of accounts offers, by the rows that the server has given it.
use crag_project.Base.{
  ℕ, String, Bool, true, false, not, ◌&&◌, Option, none, some, List, [], ◌∷◌, ◌≡◌, refl, ◌⊎◌, inl,
  inr, All, arith, get_or, ◌++◌,
}
use crag_project.Text.{Text}
use crag_project.Types.{User}
use crag_project.Ui.{Effect, send, each}
use crag_project.Ui.Clicks.{In, In-append-right, EveryClick-each-In, EveryClick, click_rules}
use crag_project.Users.{
  AdminUserRow, AdminUserDetail, RecentConversation, UsersState, Click, select, set_status,
  ask_delete, close_details, cancel, confirm_delete, on_click, Snapshot, user_url, status_url,
  is_self, is_admin_row,
}
use crag_project.Users.View.{
  row_actions, user_row, detail_body, recent_list, detail_heading, detail_content, detail_card,
  delete_dialog, users_table, access_required, view,
}

-- A row of these that an administrator may ban or delete: not their own, and no administrator's.
pub record IsManageable (rows : List AdminUserRow) (me : Option User) (row : AdminUserRow)
    : Type 0 where
  pub listed : In row rows
  pub not_self : is_self me row ≡ false
  pub not_admin : is_admin_row row ≡ false

abbrev pub IsSafeTarget : List AdminUserRow → Option User → Option AdminUserRow → Type 0
IsSafeTarget rows me none = Unit
IsSafeTarget rows me (some row) = IsManageable rows me row

abbrev pub HasSafeTarget : List AdminUserRow → Option User → UsersState → Type 0
HasSafeTarget rows me s = IsSafeTarget rows me s.delete_target

-- A request, if it is one, is about the account of one of these rows that may be banned or deleted.
abbrev pub IsAllowed : List AdminUserRow → Option User → Effect → Type 0
IsAllowed rows me (send method url fields) =
    (row : AdminUserRow) × IsManageable rows me row
    × ((url ≡ status_url row.id) ⊎ (url ≡ user_url row.id))
IsAllowed rows me _ = Unit

-- The rows that the server has answered with.
abbrev pub answered : Snapshot → List AdminUserRow
answered q = get_or q.users.result []

-- More rows leave a target safe.
pub more-HasSafeTarget :
    (more rows : List AdminUserRow) (me : Option User) (o : Option AdminUserRow)
    → IsSafeTarget rows me o
    → IsSafeTarget (more ++ rows) me o
more-HasSafeTarget more rows me none h = tt
more-HasSafeTarget more rows me (some row) h = record {
  listed = In-append-right row more rows h.listed;
  not_self = h.not_self;
  not_admin = h.not_admin;
}

module _ (format_date : String → Text) (me : Option User) (rows : List AdminUserRow) where
  -- A click is safe if it keeps the dialog's target safe and makes only allowed requests.
  abbrev pub IsSafe : UsersState → Click → Type 0
  IsSafe s e = HasSafeTarget rows me (on_click s e).0 × All (IsAllowed rows me) (on_click s e).1

  set_status-IsSafe :
      (s : UsersState)
      → HasSafeTarget rows me s
      → (row : AdminUserRow) → IsManageable rows me row
      → (b : Bool) → IsSafe s (set_status row.id b)
  unfolding on_click
  set_status-IsSafe s target row m b = (target, ((row, m, inl refl), tt))

  ask_delete-IsSafe :
      (s : UsersState) (row : AdminUserRow) → IsManageable rows me row → IsSafe s (ask_delete row)
  unfolding on_click
  ask_delete-IsSafe s row m = (m, tt)

  confirm_delete-IsSafe :
      (s : UsersState)
      → HasSafeTarget rows me s
      → (row : AdminUserRow) → IsManageable rows me row
      → IsSafe s (confirm_delete row.id)
  unfolding on_click
  confirm_delete-IsSafe s target row m = (target, ((row, m, inr refl), tt))

  select-IsSafe : (s : UsersState) → HasSafeTarget rows me s → (id : ℕ) → IsSafe s (select id)
  unfolding on_click
  select-IsSafe s target id = (target, tt)

  close_details-IsSafe : (s : UsersState) → HasSafeTarget rows me s → IsSafe s close_details
  unfolding on_click
  close_details-IsSafe s target = (target, tt)

  cancel-IsSafe : (s : UsersState) → IsSafe s cancel
  unfolding on_click
  cancel-IsSafe s = (tt, tt)

  offered-IsManageable :
      (row : AdminUserRow)
      → In row rows
      → (not (is_self me row) && not (is_admin_row row)) ≡ true
      → IsManageable rows me row
  offered-IsManageable row m h = record {
    listed = m;
    not_self = ground arith;
    not_admin = ground arith;
  }

  ruleset safe_clicks = (
    click_rules, set_status-IsSafe, ask_delete-IsSafe, confirm_delete-IsSafe, select-IsSafe,
    close_details-IsSafe, cancel-IsSafe, offered-IsManageable,
  )

  module _ (q : Snapshot) (s : UsersState)
      (shown : (row : AdminUserRow) → In row (answered q) → In row rows)
      (target : HasSafeTarget rows me s) where
    row_actions-IsSafe :
        (row : AdminUserRow)
        → In row rows
        → EveryClick (IsSafe s) (row_actions format_date me q row)
    unfolding row_actions
    row_actions-IsSafe row m = search safe_clicks depth 12

    user_row-IsSafe :
        (row : AdminUserRow) → In row rows → EveryClick (IsSafe s) (user_row format_date me q row)
    unfolding user_row
    user_row-IsSafe row m = search (safe_clicks, row_actions-IsSafe) depth 12

    rows-IsSafe :
        EveryClick (IsSafe s) (each (user_row format_date me q) (get_or q.users.result []))
    rows-IsSafe =
        EveryClick-each-In (user_row format_date me q) (answered q)
          (λ row m. user_row-IsSafe row (shown row m))

    users_table-IsSafe : EveryClick (IsSafe s) (users_table format_date me q)
    unfolding users_table
    users_table-IsSafe = search (safe_clicks, rows-IsSafe) depth 12

    recent_list-IsSafe :
        (rs : List RecentConversation) → EveryClick (IsSafe s) (recent_list format_date me q rs)
    unfolding recent_list
    recent_list-IsSafe [] = search safe_clicks
    recent_list-IsSafe (r ∷ rs) = search safe_clicks depth 12

    detail_heading-IsSafe :
        (o : Option AdminUserDetail) → EveryClick (IsSafe s) (detail_heading format_date me q o)
    unfolding detail_heading
    detail_heading-IsSafe none = search safe_clicks
    detail_heading-IsSafe (some d) = search safe_clicks

    detail_body-IsSafe :
        (d : AdminUserDetail) → EveryClick (IsSafe s) (detail_body format_date me q d)
    unfolding detail_body
    detail_body-IsSafe d = search (safe_clicks, recent_list-IsSafe) depth 14

    detail_content-IsSafe :
        (o : Option AdminUserDetail) → EveryClick (IsSafe s) (detail_content format_date me q o)
    unfolding detail_content
    detail_content-IsSafe none = search safe_clicks
    detail_content-IsSafe (some d) = detail_body-IsSafe d

    detail_card-IsSafe : (o : Option ℕ) → EveryClick (IsSafe s) (detail_card format_date me q o)
    unfolding detail_card
    detail_card-IsSafe none = search safe_clicks
    detail_card-IsSafe (some id) =
        search (safe_clicks, detail_heading-IsSafe, detail_content-IsSafe) depth 12

    delete_dialog-IsSafe :
        (o : Option AdminUserRow)
        → IsSafeTarget rows me o
        → EveryClick (IsSafe s) (delete_dialog format_date me q o)
    unfolding delete_dialog
    delete_dialog-IsSafe none m = search safe_clicks
    delete_dialog-IsSafe (some row) m = search safe_clicks depth 12

    pub view-IsSafe : EveryClick (IsSafe s) (view format_date me q s)
    unfolding view access_required
    view-IsSafe =
        search (safe_clicks, users_table-IsSafe, detail_card-IsSafe, delete_dialog-IsSafe) depth 16

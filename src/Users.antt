-- ===== src/Users.antt =====
-- frontend/src/pages/Users.tsx: the administrator's list of accounts. `me` is the signed-in user,
-- `format_date` stands for the browser's `toLocaleDateString`.
pub mod View
pub mod Offered
pub mod Safety
use crag_project.Base.{
  ℕ, String, Bool, true, false, not, ◌&&◌, ◌||◌, Option, none, some, get_or, List, [], ◌∷◌, ◌++◌,
  ◌==◌, ◌=?◌, str_eq, length, if◌then◌else◌,
}
use mathlib.Core.Option
use crag_project.Text.{Text, codes, is_empty}
use crag_project.Text.Decimal.{decimal}
use crag_project.Types.{User}
use crag_project.Api.Errors.{ApiError, Reply, ok, failed, detail_or}
use crag_project.Ui.{
  Query, Mutation, Effect, send, toast_success, toast_error, invalidate, QueryKey, str, bool_field,
  Variant, default, secondary, destructive, success, Widget, words, text, badge, button, skeleton,
  when, each, text_or,
}

pub record AdminUserRow : Type 0 where
  pub id : ℕ
  pub email : Text
  pub full_name : Text
  pub role : String
  pub is_active : Bool
  pub created_at : String

pub record RecentConversation : Type 0 where
  pub id : ℕ
  pub title : String
  pub message_count : ℕ

pub record AdminUserDetail : Type 0 where
  pub row : AdminUserRow
  pub open row use *
  pub document_count : ℕ
  pub conversation_count : ℕ
  pub message_count : ℕ
  pub query_log_count : ℕ
  pub recent_conversations : List RecentConversation

-- The component's `useState`s.
pub record UsersState : Type 0 where
  pub selected_id : Option ℕ
  pub delete_target : Option AdminUserRow

abbrev pub initial : UsersState
initial = record { selected_id = none; delete_target = none }

-- What a click does.
pub data Click : Type 0 where
  select : ℕ → Click
  set_status : ℕ → Bool → Click
  ask_delete : AdminUserRow → Click
  close_details : Click
  cancel : Click
  confirm_delete : ℕ → Click

-- A mutation that ends: `onSuccess` or `onError`.
pub data Settled : Type 0 where
  status_settled : Bool → Reply (Unit {0}) → Settled
  delete_settled : Reply (Unit {0}) → Settled

abbrev pub user_url : ℕ → Text
user_url id = codes "/admin/users/" ++ decimal id

abbrev pub status_url : ℕ → Text
status_url id = user_url id ++ codes "/status"

unfoldable pub on_click : UsersState → Click → UsersState × List Effect
on_click s (select id) = (record s { selected_id = some id }, [])
on_click s (set_status id is_active) =
    (s, send "PATCH" (status_url id) (bool_field "is_active" is_active ∷ []) ∷ [])
on_click s (ask_delete row) = (record s { delete_target = some row }, [])
on_click s close_details = (record s { selected_id = none }, [])
on_click s cancel = (record s { delete_target = none }, [])
on_click s (confirm_delete id) = (s, send "DELETE" (user_url id) [] ∷ [])

-- `invalidate`
abbrev pub invalidations : List Effect
invalidations = invalidate (str "admin-users" ∷ []) ∷ invalidate (str "admin-user-detail" ∷ []) ∷ []

unfoldable pub on_settled : UsersState → Settled → UsersState × List Effect
unfolding detail_or
on_settled s (status_settled is_active (ok _)) = (
  record s { delete_target = none },
  toast_success (if is_active then "User unbanned" else "User banned") ∷ invalidations,
)
on_settled s (status_settled is_active (failed err)) =
    (s, toast_error (detail_or "Action failed." err) ∷ [])
on_settled s (delete_settled (ok _)) = (
  record s { selected_id = none; delete_target = none },
  toast_success "User and all their data deleted" ∷ invalidations,
)
on_settled s (delete_settled (failed err)) = (s, toast_error (detail_or "Delete failed." err) ∷ [])

-- The libraries' state at one rendering.
pub record Snapshot : Type 0 where
  pub users : Query (List AdminUserRow)
  pub detail : Query AdminUserDetail
  pub status_mutation : Mutation
  pub delete_mutation : Mutation

-- me?.id === row.id
unfoldable pub is_self : Option User → AdminUserRow → Bool
is_self none row = false
is_self (some me) row = me.id == row.id

unfoldable pub is_admin_row : AdminUserRow → Bool
is_admin_row row = str_eq row.role "admin"

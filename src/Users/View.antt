-- ===== src/Users/View.antt =====
-- What frontend/src/pages/Users.tsx shows: the table with its actions, the activity of the selected
-- account, and the dialog that asks before an account is deleted.
use crag_project.Base.{
  ℕ, String, true, false, not, ◌&&◌, ◌||◌, Option, none, some, get_or, List, [], ◌∷◌, ◌++◌, length,
  if◌then◌else◌,
}
use crag_project.Text.{Text, codes, is_empty}
use crag_project.Text.Decimal.{decimal}
use crag_project.Types.{User}
use crag_project.Ui.{
  default, secondary, destructive, success, Widget, words, text, badge, button, skeleton, when,
  each, text_or,
}
use crag_project.Users.{
  AdminUserRow, AdminUserDetail, RecentConversation, UsersState, Click, select, set_status,
  ask_delete, close_details, cancel, confirm_delete, Snapshot, is_self, is_admin_row,
}

unfoldable pub access_required : List (Widget Click)
access_required =
    words "Admin"
    ∷ words "Users"
    ∷ words "Administrator access required"
    ∷ words "Sign in with an admin account to manage users."
    ∷ []

-- row.full_name || row.email
unfoldable pub name_or_email : AdminUserRow → Text
name_or_email row = if is_empty row.full_name then row.email else row.full_name

module _ (format_date : String → Text) (me : Option User) (q : Snapshot) where
  -- The buttons at the end of a row.
  unfoldable pub row_actions : AdminUserRow → List (Widget Click)
  unfolding is_self is_admin_row
  row_actions row =
      when (not (is_self me row) && not (is_admin_row row)) (
        (if row.is_active
          then button (codes "Ban") q.status_mutation.is_pending (set_status row.id false) ∷ []
          else button (codes "Unban") q.status_mutation.is_pending (set_status row.id true) ∷ [])
        ++ button (codes "Delete") q.delete_mutation.is_pending (ask_delete row) ∷ [])
      ++ when (is_self me row || is_admin_row row)
          (words (if is_self me row then "This is you" else "Protected") ∷ [])

  unfoldable pub user_row : AdminUserRow → List (Widget Click)
  unfolding row_actions
  user_row row =
      button (text_or row.full_name "Unnamed user") false (select row.id)
      ∷ text row.email
      ∷ badge (if is_admin_row row then default else secondary)
          (if is_admin_row row then "Admin" else "User")
      ∷ badge (if row.is_active then success else destructive)
          (if row.is_active then "Active" else "Banned")
      ∷ text (format_date row.created_at)
      ∷ row_actions row

  abbrev count_card : String → ℕ → List (Widget Click)
  count_card label count = words label ∷ text (decimal count) ∷ []

  unfoldable pub recent_list : List RecentConversation → List (Widget Click)
  recent_list [] = words "This user has not started any conversations yet." ∷ []
  recent_list (c ∷ cs) =
      each
        (λ (r : RecentConversation).
          words r.title ∷ text (decimal r.message_count ++ codes " messages") ∷ [])
        (c ∷ cs)

  unfoldable pub detail_body : AdminUserDetail → List (Widget Click)
  unfolding recent_list
  detail_body d =
      count_card "Documents" d.document_count
      ++ count_card "Conversations" d.conversation_count
      ++ count_card "Messages" d.message_count
      ++ count_card "Queries" d.query_log_count
      ++ words "Recent conversations"
        ∷ (recent_list d.recent_conversations
            ++ button (codes "Close details") false close_details ∷ [])

  unfoldable pub detail_heading : Option AdminUserDetail → List (Widget Click)
  detail_heading none = []
  detail_heading (some d) =
      text (name_or_email d.row ++ (codes " · joined " ++ format_date d.created_at)) ∷ []

  unfoldable pub detail_content : Option AdminUserDetail → List (Widget Click)
  unfolding detail_body
  detail_content none = words "Failed to load user details." ∷ []
  detail_content (some d) = detail_body d

  -- The card under the table, `selectedId !== null && (…)`.
  unfoldable pub detail_card : Option ℕ → List (Widget Click)
  unfolding detail_heading detail_content
  detail_card none = []
  detail_card (some id) =
      words "User activity"
      ∷ (detail_heading q.detail.result
          ++ (if q.detail.is_loading then skeleton 4 ∷ [] else detail_content q.detail.result))

  -- The dialog, `deleteTarget && (…)`.
  unfoldable pub delete_dialog : Option AdminUserRow → List (Widget Click)
  delete_dialog none = []
  delete_dialog (some row) =
      words "Delete this user?"
      ∷ text (
          name_or_email row
          ++ codes
              " and all their documents, conversations, uploads, and vector indexes will be permanently removed. This cannot be undone.")
      ∷ button (codes "Cancel") false cancel
      ∷ button (codes "Delete permanently") q.delete_mutation.is_pending (confirm_delete row.id)
      ∷ []

  unfoldable pub users_table : List (Widget Click)
  unfolding user_row
  users_table =
      words "All users"
      ∷ text (decimal (length (get_or q.users.result [])) ++ codes " registered accounts.")
      ∷ (if q.users.is_loading
          then skeleton 3 ∷ []
          else words "User"
            ∷ words "Role"
            ∷ words "Status"
            ∷ words "Joined"
            ∷ words "Actions"
            ∷ each user_row (get_or q.users.result []))

  unfoldable pub view : UsersState → List (Widget Click)
  unfolding access_required detail_card delete_dialog users_table
  view s =
      if q.users.is_error
      then access_required
      else words "Admin"
        ∷ words "User management"
        ∷ words "Inspect accounts, review activity, ban abusive users, or remove them entirely."
        ∷ (users_table
            ++ (detail_card s.selected_id
                ++ (delete_dialog s.delete_target
                    ++ words
                        "Admins cannot be modified by other admins. Deleting a user also cleans their MinIO blobs, Qdrant chunks, and Neo4j graph nodes."
                      ∷ [])))

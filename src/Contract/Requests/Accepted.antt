-- ===== src/Contract/Requests/Accepted.antt =====
-- The requests of each page against the server's routes.
use crag_project.Base.{
  ℕ, String, Bool, true, false, Option, none, some, List, [], ◌∷◌, ◌++◌, ◌≡◌, refl, ap, ◌∙◌,
  Bool-cases, inl, inr, drop, str_eq,
}
use crag_project.Text.{Text, codes}
use crag_project.Text.Decimal.{decimal}
use crag_project.Types.{DocumentRecord}
use crag_project.Ui.{Field, text_field, string_field, bool_field}
use crag_project.Server.Routes.{
  Handler, dispatch, segments, first_match, routes, admin_set_user_status, admin_delete_user,
  reply_to_thread, update_status, delete_document, delete_conversation, send_message_stream,
}
use crag_project.Users
use crag_project.Support
use crag_project.Chat.{create_fields, truthy, conversation_url}
use crag_project.Api.Stream.{stream_url}
use crag_project.Server.Routes.Matching.{slashed, are_parts}
use crag_project.Contract.Paths.{IsParameter, decimal-IsParameter, dispatch-parameter}
use crag_project.Contract.Requests.{takes, accepted}

accepted-dispatch :
    (m : String) (t : Text) (fs : List Field) (h : Handler)
    → dispatch m t ≡ some h
    → takes h fs ≡ true
    → accepted m t fs ≡ true
unfolding accepted
accepted-dispatch m t fs h d e = ap (λ o. elim o [ none ↦ false | some k ↦ takes k fs ]) d ∙ e

-- A path with a number in it, by what it gives with every text in the number's place.
accepted-number :
    (m : String) (h : Handler) (p : Text) (ps qs : List Text)
    → are_parts (p ∷ ps) ≡ true
    → are_parts qs ≡ true
    → ((x : ℕ) (t : Text) → first_match m (p ∷ (ps ++ (x ∷ t) ∷ qs)) routes ≡ some h)
    → (fs : List Field) → takes h fs ≡ true
    → (id : ℕ) → accepted m (slashed (p ∷ (ps ++ decimal id ∷ qs))) fs ≡ true
accepted-number m h p ps qs f g found fs e id =
    accepted-dispatch m (slashed (p ∷ (ps ++ decimal id ∷ qs))) fs h
      (dispatch-parameter m h p ps qs f g found (decimal id) (decimal-IsParameter id)) e

pub set_status-accepted :
    (active : Bool) (id : ℕ)
    → accepted "PATCH" (Users.status_url id) (bool_field "is_active" active ∷ []) ≡ true
unfolding first_match takes
set_status-accepted active =
    accepted-number "PATCH" admin_set_user_status (codes "admin") (codes "users" ∷ [])
      (codes "status" ∷ []) refl refl (λ x t. refl) (bool_field "is_active" active ∷ []) refl

pub user_delete-accepted : (id : ℕ) → accepted "DELETE" (Users.user_url id) [] ≡ true
unfolding first_match takes
user_delete-accepted =
    accepted-number "DELETE" admin_delete_user (codes "admin") (codes "users" ∷ []) [] refl refl
      (λ x t. refl) [] refl

pub reply-accepted :
    (t : Text) (id : ℕ)
    → accepted "POST" (Support.messages_url id) (text_field "content" t ∷ []) ≡ true
unfolding first_match takes
reply-accepted content =
    accepted-number "POST" reply_to_thread (codes "support") [] (codes "messages" ∷ []) refl refl
      (λ x t. refl) (text_field "content" content ∷ []) refl

pub resolve-accepted :
    (id : ℕ)
    → accepted "PATCH" (Support.status_url id) (string_field "status" "resolved" ∷ []) ≡ true
unfolding first_match takes
resolve-accepted =
    accepted-number "PATCH" update_status (codes "support") (codes "admin" ∷ [])
      (codes "status" ∷ []) refl refl (λ x t. refl) (string_field "status" "resolved" ∷ []) refl

pub reopen-accepted :
    (id : ℕ) → accepted "PATCH" (Support.status_url id) (string_field "status" "open" ∷ []) ≡ true
unfolding first_match takes
reopen-accepted =
    accepted-number "PATCH" update_status (codes "support") (codes "admin" ∷ [])
      (codes "status" ∷ []) refl refl (λ x t. refl) (string_field "status" "open" ∷ []) refl

pub thread_delete-accepted : (id : ℕ) → accepted "DELETE" (conversation_url id) [] ≡ true
unfolding first_match takes
thread_delete-accepted =
    accepted-number "DELETE" delete_conversation (codes "conversations") [] [] refl refl
      (λ x t. refl) [] refl

pub stream-accepted :
    (content : Text) (id : ℕ)
    → accepted "POST" (drop 7 (stream_url id)) (text_field "content" content ∷ []) ≡ true
unfolding first_match takes stream_url
stream-accepted content =
    accepted-number "POST" send_message_stream (codes "conversations") []
      (codes "messages" ∷ codes "stream" ∷ []) refl refl (λ x t. refl)
      (text_field "content" content ∷ []) refl

pub document_delete-accepted :
    (d : Text) → IsParameter d → accepted "DELETE" (codes "/documents/" ++ d) [] ≡ true
unfolding first_match takes
document_delete-accepted d i =
    accepted-dispatch "DELETE" (codes "/documents/" ++ d) [] delete_document
      (dispatch-parameter "DELETE" delete_document (codes "documents") [] [] refl refl (λ x t. refl)
        d i)
      refl

pub create-accepted :
    (param : Option String) (pinned : Option DocumentRecord)
    → accepted "POST" (codes "/conversations") (create_fields param pinned) ≡ true
unfolding accepted dispatch segments first_match takes create_fields truthy
create-accepted none pinned = refl
create-accepted (some p) none = elim (Bool-cases (str_eq p "")) [
  | inl e ↦ rw e refl
  | inr e ↦ rw e refl
]
create-accepted (some p) (some d) = elim (Bool-cases (str_eq p "")) [
  | inl e ↦ rw e refl
  | inr e ↦ rw e refl
]

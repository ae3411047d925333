-- ===== src/Contract/Requests/Pages.antt =====
-- All requests of the pages against the server's routes.
use crag_project.Base.{String, Bool, Option, none, some, [], ◌∷◌, refl, All, Bool-cases, inl, inr}
use crag_project.Text.{Text, codes}
use crag_project.Types.{DocumentRecord}
use crag_project.Server.Routes.{dispatch, segments, first_match}
use crag_project.Api.Errors.{ok, failed}
use crag_project.Users
use crag_project.Support
use crag_project.Documents
use crag_project.Chat.{ChatState, on_submit}
use crag_project.Chat.View.{
  ChatEvent, new_conversation, select_thread, delete_thread, toggle_viewer, close_viewer, set_draft,
  submit, on_click, send_content,
}
use crag_project.Forms.Login
use crag_project.Forms.Register
use crag_project.Forms.ForgotPassword
use crag_project.Forms.ResetPassword
use crag_project.Contract.Paths.{IsParameter}
use crag_project.Contract.Requests.{
  takes, accepted, Action, users, support, documents, chat, stream, login, register,
  forgot_password, reset_password, effects, IsAccepted, of_documents, of_chat, IsTaken, forms,
  forms_of, accepted_form, file_part,
}
use crag_project.Contract.Requests.Accepted.{
  set_status-accepted, user_delete-accepted, reply-accepted, resolve-accepted, reopen-accepted,
  thread_delete-accepted, stream-accepted, document_delete-accepted, create-accepted,
}

-- A document that is deleted has an id fit for a path.
abbrev pub IsDeletable : {File : Type 0} → Documents.Event File → Type 0
IsDeletable (Documents.delete d) = IsParameter (codes d.id)
IsDeletable e = Unit

abbrev pub IsSendable : {Cache File : Type 0} → Action Cache File → Type 0
IsSendable (documents over e) = IsDeletable e
IsSendable a = Unit

users-IsAccepted : (s : Users.UsersState) (e : Users.Click) → All IsAccepted (Users.on_click s e).1
unfolding Users.on_click
users-IsAccepted s (Users.select id) = tt
users-IsAccepted s (Users.set_status id active) = (set_status-accepted active id, tt)
users-IsAccepted s (Users.ask_delete row) = tt
users-IsAccepted s Users.close_details = tt
users-IsAccepted s Users.cancel = tt
users-IsAccepted s (Users.confirm_delete id) = (user_delete-accepted id, tt)

support-IsAccepted :
    (s : Support.SupportState) (e : Support.SupportEvent) → All IsAccepted (Support.on_event s e).1
unfolding Support.on_event accepted dispatch segments first_match takes
support-IsAccepted s Support.new_ticket = tt
support-IsAccepted s (Support.filter_by status) = tt
support-IsAccepted s (Support.open_thread id) = tt
support-IsAccepted s Support.back = tt
support-IsAccepted s (Support.set_subject t) = tt
support-IsAccepted s (Support.set_message t) = tt
support-IsAccepted s (Support.set_reply t) = tt
support-IsAccepted s Support.submit_ticket = (refl, tt)
support-IsAccepted s (Support.send_reply id) = (reply-accepted s.reply id, tt)
support-IsAccepted s (Support.resolve id) = (resolve-accepted id, tt)
support-IsAccepted s (Support.reopen id) = (reopen-accepted id, tt)

documents-IsAccepted :
    {File : Type 0} (over : Bool) (e : Documents.Event File)
    → IsDeletable e
    → All IsAccepted (of_documents (Documents.step over e).1)
unfolding Documents.step
documents-IsAccepted over Documents.drag_over i = tt
documents-IsAccepted over Documents.drag_leave i = tt
documents-IsAccepted over (Documents.drop []) i = tt
documents-IsAccepted over (Documents.drop (f ∷ fs)) i = tt
documents-IsAccepted over (Documents.pick none) i = tt
documents-IsAccepted over (Documents.pick (some [])) i = tt
documents-IsAccepted over (Documents.pick (some (f ∷ fs))) i = tt
documents-IsAccepted over Documents.browse i = tt
documents-IsAccepted over (Documents.open_chat d) i = elim (Bool-cases (Documents.can_chat d)) [
  | inl e ↦ rw e (tt, tt)
  | inr e ↦ rw e tt
]
documents-IsAccepted over (Documents.ask d) i = (tt, tt)
documents-IsAccepted over (Documents.delete d) i = (document_delete-accepted (codes d.id) i, tt)
documents-IsAccepted over (Documents.uploaded (ok d)) i = (tt, (tt, tt))
documents-IsAccepted over (Documents.uploaded (failed err)) i = (tt, tt)
documents-IsAccepted over (Documents.removed (ok u)) i = (tt, (tt, (tt, tt)))
documents-IsAccepted over (Documents.removed (failed err)) i = (tt, (tt, (tt, tt)))

submit-IsAccepted :
    (content : Option Text)
    → All IsAccepted (of_chat (elim content [ none ↦ [] | some c ↦ send_content c ∷ [] ]))
submit-IsAccepted none = tt
submit-IsAccepted (some c) = tt

chat-IsAccepted :
    {Cache : Type 0} (param : Option String) (pinned : Option DocumentRecord) (is_pending : Bool)
    (s : ChatState Cache) (e : ChatEvent)
    → All IsAccepted (of_chat (on_click param pinned is_pending s e).1)
unfolding on_click
chat-IsAccepted param pinned is_pending s new_conversation = (create-accepted param pinned, tt)
chat-IsAccepted param pinned is_pending s (select_thread id) = tt
chat-IsAccepted param pinned is_pending s (delete_thread id) = (thread_delete-accepted id, tt)
chat-IsAccepted param pinned is_pending s toggle_viewer = tt
chat-IsAccepted param pinned is_pending s close_viewer = tt
chat-IsAccepted param pinned is_pending s (set_draft t) = tt
chat-IsAccepted param pinned is_pending s submit = submit-IsAccepted (on_submit is_pending s).1

module _ (is_email : Text → Bool) where
  login-IsAccepted : (v : Login.LoginValues) → All IsAccepted (Login.submitted is_email v)
  unfolding Login.submitted accepted dispatch segments first_match takes
  login-IsAccepted v = elim (Bool-cases (Login.accepts is_email v)) [
    | inl e ↦ rw e (refl, tt)
    | inr e ↦ rw e tt
  ]

  register-IsAccepted :
      (v : Register.RegisterValues) → All IsAccepted (Register.submitted is_email v)
  unfolding Register.submitted accepted dispatch segments first_match takes
  register-IsAccepted v = elim (Bool-cases (Register.accepts is_email v)) [
    | inl e ↦ rw e (refl, tt)
    | inr e ↦ rw e tt
  ]

  forgot-IsAccepted : (email : Text) → All IsAccepted (ForgotPassword.submitted is_email email)
  unfolding ForgotPassword.submitted accepted dispatch segments first_match takes
  forgot-IsAccepted email = elim (Bool-cases (is_email email)) [
    | inl e ↦ rw e (refl, tt)
    | inr e ↦ rw e tt
  ]

reset-IsAccepted :
    (token : Text) (v : ResetPassword.ResetValues)
    → All IsAccepted (ResetPassword.submitted token v)
unfolding ResetPassword.submitted accepted dispatch segments first_match takes
reset-IsAccepted [] v = elim (Bool-cases (ResetPassword.accepts v)) [
  | inl e ↦ rw e (tt, tt)
  | inr e ↦ rw e tt
]
reset-IsAccepted (x ∷ token) v = elim (Bool-cases (ResetPassword.accepts v)) [
  | inl e ↦ rw e (refl, tt)
  | inr e ↦ rw e tt
]

upload-IsTaken : {File : Type 0} (file : File) → IsTaken (Documents.upload_request file)
unfolding Documents.upload_request accepted_form dispatch segments first_match file_part
upload-IsTaken file = refl

documents-IsTaken :
    {File : Type 0} (over : Bool) (e : Documents.Event File)
    → All IsTaken (forms_of (Documents.step over e).1)
unfolding Documents.step
documents-IsTaken over Documents.drag_over = tt
documents-IsTaken over Documents.drag_leave = tt
documents-IsTaken over (Documents.drop []) = tt
documents-IsTaken over (Documents.drop (f ∷ fs)) = (upload-IsTaken f, tt)
documents-IsTaken over (Documents.pick none) = tt
documents-IsTaken over (Documents.pick (some [])) = tt
documents-IsTaken over (Documents.pick (some (f ∷ fs))) = (upload-IsTaken f, tt)
documents-IsTaken over Documents.browse = tt
documents-IsTaken over (Documents.open_chat d) = elim (Bool-cases (Documents.can_chat d)) [
  | inl e ↦ rw e tt
  | inr e ↦ rw e tt
]
documents-IsTaken over (Documents.ask d) = tt
documents-IsTaken over (Documents.delete d) = tt
documents-IsTaken over (Documents.uploaded (ok d)) = tt
documents-IsTaken over (Documents.uploaded (failed err)) = tt
documents-IsTaken over (Documents.removed (ok u)) = tt
documents-IsTaken over (Documents.removed (failed err)) = tt

forms-IsTaken :
    (is_email : Text → Bool) {Cache File : Type 0} (a : Action Cache File)
    → All IsTaken (forms is_email a)
unfolding forms
forms-IsTaken is_email (users s e) = tt
forms-IsTaken is_email (support s e) = tt
forms-IsTaken is_email (documents over e) = documents-IsTaken over e
forms-IsTaken is_email (chat param pinned is_pending s e) = tt
forms-IsTaken is_email (stream id content) = tt
forms-IsTaken is_email (login v) = tt
forms-IsTaken is_email (register v) = tt
forms-IsTaken is_email (forgot_password email) = tt
forms-IsTaken is_email (reset_password token v) = tt

requests-IsAccepted :
    (is_email : Text → Bool) {Cache File : Type 0} (a : Action Cache File)
    → IsSendable a
    → All IsAccepted (effects is_email a)
unfolding effects
requests-IsAccepted is_email (users s e) i = users-IsAccepted s e
requests-IsAccepted is_email (support s e) i = support-IsAccepted s e
requests-IsAccepted is_email (documents over e) i = documents-IsAccepted over e i
requests-IsAccepted is_email (chat param pinned is_pending s e) i =
    chat-IsAccepted param pinned is_pending s e
requests-IsAccepted is_email (stream id content) i = (stream-accepted content id, tt)
requests-IsAccepted is_email (login v) i = login-IsAccepted is_email v
requests-IsAccepted is_email (register v) i = register-IsAccepted is_email v
requests-IsAccepted is_email (forgot_password email) i = forgot-IsAccepted is_email email
requests-IsAccepted is_email (reset_password token v) i = reset-IsAccepted token v

-- Every request that an event of these pages sends (the accounts, the tickets, the documents, the chat
-- with its streams, and the four account forms) has a route on the server: one with a JSON body or
-- none has the fields that the route's handler takes, lengths aside, and an upload is posted with the
-- file under the name that its handler takes. A document that is deleted has an id without slash and
-- question mark.
pub effects-IsAccepted :
    (is_email : Text → Bool) {Cache File : Type 0} (a : Action Cache File)
    → IsSendable a
    → All IsAccepted (effects is_email a) × All IsTaken (forms is_email a)
effects-IsAccepted is_email a i = (requests-IsAccepted is_email a i, forms-IsTaken is_email a)

-- ===== src/Contract/Requests.antt =====
-- The requests that the pages send, by the event that sends them, and what the server's routes take.
pub mod Accepted
pub mod Pages
use crag_project.Base.{
  ℕ, zero, suc, String, Bool, true, false, Option, none, some, List, [], ◌∷◌, ◌++◌, ◌≡◌, drop,
  str_eq,
}
use crag_project.Text.{Text, codes}
use crag_project.Types.{DocumentRecord}
use crag_project.Api.Shapes.{Json, truth, word, record_of, Members, end, member, conforms}
use crag_project.Api.Stream.{stream_url}
use crag_project.Ui.{Field, text_field, string_field, bool_field, Effect, send}
use crag_project.Server.Routes.{Handler, upload_document, dispatch}
use crag_project.Server.Routes.Answers.{payload}
use crag_project.Users
use crag_project.Support
use crag_project.Documents
use crag_project.Chat.{ChatState}
use crag_project.Chat.View.{ChatEvent, ChatCall, effect, send_content, on_click}
use crag_project.Forms.Login
use crag_project.Forms.Register
use crag_project.Forms.ForgotPassword
use crag_project.Forms.ResetPassword

-- `JSON.stringify` of the fields of a body
abbrev pub members_of : List Field → Members
members_of [] = end
members_of (text_field n t ∷ fs) = member n (word t) (members_of fs)
members_of (string_field n s ∷ fs) = member n (word (codes s)) (members_of fs)
members_of (bool_field n b ∷ fs) = member n (truth b) (members_of fs)

-- Does the handler take this body?
unfoldable pub takes : Handler → List Field → Bool
unfolding conforms
takes h fs = elim (payload h) [
  | none ↦ (elim fs [ [] ↦ true | (f ∷ rest) ↦ false ])
  | some s ↦ conforms s (record_of (members_of fs))
]

-- The part of a form that the handler takes, a file; any other handler takes no form.
unfoldable pub file_part : Handler → Option String
file_part upload_document = some "file"
file_part h = none

-- Is there a route for a form that is posted, whose handler takes its file?
unfoldable pub accepted_form : Text → String → Bool
unfolding dispatch file_part
accepted_form t part = elim (dispatch "POST" t) [
  | none ↦ false
  | some h ↦ (elim (file_part h) [ none ↦ false | some p ↦ str_eq p part ])
]

-- Is there a route for the request, whose handler takes its body?
unfoldable pub accepted : String → Text → List Field → Bool
unfolding dispatch takes
accepted m t fs = elim (dispatch m t) [ none ↦ false | some h ↦ takes h fs ]

-- An event of a page after which it may send a request.
pub data Action (Cache File : Type 0) : Type 0 where
  users : Users.UsersState → Users.Click → Action Cache File
  support : Support.SupportState → Support.SupportEvent → Action Cache File
  documents : Bool → Documents.Event File → Action Cache File
  chat :
      Option String → Option DocumentRecord → Bool → ChatState Cache → ChatEvent → Action Cache File
  -- the stream of an answer: the thread and the message
  stream : ℕ → Text → Action Cache File
  login : Login.LoginValues → Action Cache File
  register : Register.RegisterValues → Action Cache File
  forgot_password : Text → Action Cache File
  reset_password : Text → ResetPassword.ResetValues → Action Cache File

abbrev pub of_documents : {File : Type 0} → List (Documents.Call File) → List Effect
of_documents [] = []
of_documents (Documents.effect e ∷ cs) = e ∷ of_documents cs
of_documents (c ∷ cs) = of_documents cs

-- The forms that the calls of the page of documents post.
abbrev pub forms_of : {File : Type 0} → List (Documents.Call File) → List (Documents.FormPost File)
forms_of [] = []
forms_of (Documents.upload f ∷ cs) = Documents.upload_request f ∷ forms_of cs
forms_of (c ∷ cs) = forms_of cs

abbrev pub of_chat : List ChatCall → List Effect
of_chat [] = []
of_chat (effect e ∷ cs) = e ∷ of_chat cs
of_chat (send_content t ∷ cs) = of_chat cs

module _ (is_email : Text → Bool) {Cache File : Type 0} where
  -- What the event makes the page do; the stream's path is taken below `/api/v1`.
  unfoldable pub effects : Action Cache File → List Effect
  unfolding Users.on_click Support.on_event Documents.step on_click stream_url Login.submitted
      Register.submitted ForgotPassword.submitted ResetPassword.submitted
  effects (users s e) = (Users.on_click s e).1
  effects (support s e) = (Support.on_event s e).1
  effects (documents over e) = of_documents (Documents.step over e).1
  effects (chat param pinned is_pending s e) = of_chat (on_click param pinned is_pending s e).1
  effects (stream id content) =
      send "POST" (drop 7 (stream_url id)) (text_field "content" content ∷ []) ∷ []
  effects (login v) = Login.submitted is_email v
  effects (register v) = Register.submitted is_email v
  effects (forgot_password email) = ForgotPassword.submitted is_email email
  effects (reset_password token v) = ResetPassword.submitted token v

  -- The forms that the event makes the page post.
  unfoldable pub forms : Action Cache File → List (Documents.FormPost File)
  unfolding Documents.step Documents.upload_request
  forms (documents over e) = forms_of (Documents.step over e).1
  forms a = []

abbrev pub IsTaken : {File : Type 0} → Documents.FormPost File → Type 0
IsTaken form = accepted_form form.url form.part ≡ true

-- The effect is a request that the server's routes accept, or no request.
abbrev pub IsAccepted : Effect → Type 0
IsAccepted (send m t fs) = accepted m t fs ≡ true
IsAccepted e = Unit

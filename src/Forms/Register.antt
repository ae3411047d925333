-- ===== src/Forms/Register.antt =====
-- frontend/src/pages/Register.tsx
use crag_project.Base.{
  String, Bool, true, ◌&&◌, Option, List, [], ◌∷◌, ◌++◌, leb, length, if◌then◌else◌,
}
use crag_project.Text.{Text, codes, text_eq}
use crag_project.Types.{User}
use crag_project.Api.Errors.{Reply, ok, failed, detail_or}
use crag_project.Auth.{AuthState}
use crag_project.Auth
use crag_project.Ui.{
  Effect, send, toast_success, toast_error, navigate, text_field, Widget, words, link,
}
use crag_project.Forms.{FormEvent, field, submit_button, auth_shell}

pub record RegisterValues : Type 0 where
  pub full_name : Text
  pub email : Text
  pub password : Text
  pub confirm : Text

pub record RegisterForm : Type 0 where
  pub values : RegisterValues
  pub full_name_error : Option String
  pub email_error : Option String
  pub password_error : Option String
  pub confirm_error : Option String
  pub is_submitting : Bool

module _ (is_email : Text → Bool) where
  -- `schema`, its `refine` included
  unfoldable pub accepts : RegisterValues → Bool
  accepts v =
      leb (length v.full_name) 255
      && is_email v.email
      && leb 8 (length v.password)
      && text_eq v.password v.confirm

  unfoldable pub submitted : RegisterValues → List Effect
  unfolding accepts
  submitted v =
      if accepts v
      then send "POST" (codes "/auth/register") (
          text_field "email" v.email
          ∷ text_field "password" v.password
          ∷ text_field "full_name" v.full_name
          ∷ [])
        ∷ []
      else []

unfoldable pub answered : Reply User → AuthState → AuthState × List Effect
unfolding detail_or Auth.register
answered reply a =
    let (a', outcome) = Auth.register reply a in
    (
      a',
      elim outcome [
        | ok _ ↦ toast_success "Account created — welcome aboard" ∷ navigate "/dashboard" true ∷ []
        | failed err ↦
            toast_error (detail_or "Registration failed. Try a different email." err) ∷ []
      ],
    )

unfoldable pub view : RegisterForm → List (Widget FormEvent)
unfolding field auth_shell
view f = auth_shell (
    words "Create your account"
    ∷ words "Start asking your documents questions."
    ∷ (field "fullName" "Full name" f.values.full_name f.full_name_error
        ++ (field "email" "Email" f.values.email f.email_error
            ++ (field "password" "Password" f.values.password f.password_error
                ++ (field "confirm" "Confirm password" f.values.confirm f.confirm_error
                    ++ submit_button f.is_submitting "Creating account…" "Create account"
                      ∷ words "Already registered?"
                      ∷ link "/login" "Log in"
                      ∷ [])))))

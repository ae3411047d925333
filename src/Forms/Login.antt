-- ===== src/Forms/Login.antt =====
-- frontend/src/pages/Login.tsx
use crag_project.Base.{
  String, Bool, true, ◌&&◌, Option, none, some, List, [], ◌∷◌, ◌++◌, leb, length, if◌then◌else◌,
}
use crag_project.Text.{Text, codes}
use crag_project.Types.{User}
use crag_project.Api.Errors.{Reply, ok, failed, detail_or}
use crag_project.Auth.{AuthState}
use crag_project.Auth
use crag_project.Routing.{Origin}
use crag_project.Ui.{
  Effect, send, toast_success, toast_error, navigate, text_field, Widget, words, link,
}
use crag_project.Forms.{FormEvent, field, submit_button, auth_shell}

pub record LoginValues : Type 0 where
  pub email : Text
  pub password : Text

-- What react-hook-form shows of the form.
pub record LoginForm : Type 0 where
  pub values : LoginValues
  pub email_error : Option String
  pub password_error : Option String
  pub is_submitting : Bool

module _ (is_email : Text → Bool) where
  -- `schema`
  unfoldable pub accepts : LoginValues → Bool
  accepts v = is_email v.email && leb 1 (length v.password)

  -- `handleSubmit(onSubmit)` up to the call of `login`
  unfoldable pub submitted : LoginValues → List Effect
  unfolding accepts
  submitted v =
      if accepts v
      then send "POST" (codes "/auth/login")
          (text_field "email" v.email ∷ text_field "password" v.password ∷ [])
        ∷ []
      else []

-- `from?.pathname ?? '/dashboard'`
unfoldable pub return_path : Option Origin → String
return_path none = "/dashboard"
return_path (some o) = o.pathname

-- `onSubmit` once the server has answered
unfoldable pub answered : Option Origin → Reply User → AuthState → AuthState × List Effect
unfolding return_path detail_or Auth.login
answered from reply a =
    let (a', outcome) = Auth.login reply a in
    (
      a',
      elim outcome [
        | ok _ ↦ toast_success "Welcome back" ∷ navigate (return_path from) true ∷ []
        | failed err ↦ toast_error (detail_or "Login failed. Check your credentials." err) ∷ []
      ],
    )

unfoldable pub view : LoginForm → List (Widget FormEvent)
unfolding field auth_shell
view f = auth_shell (
    words "Welcome back"
    ∷ words "Log in to continue to your dashboard."
    ∷ (field "email" "Email" f.values.email f.email_error
        ++ (field "password" "Password" f.values.password f.password_error
            ++ link "/forgot-password" "Forgot password?"
              ∷ submit_button f.is_submitting "Logging in…" "Log in"
              ∷ words "No account?"
              ∷ link "/register" "Create one"
              ∷ [])))

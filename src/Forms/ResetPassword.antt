-- ===== src/Forms/ResetPassword.antt =====
-- frontend/src/pages/ResetPassword.tsx. `token` is `params.get('token') ?? ''`.
use crag_project.Base.{
  String, Bool, true, ◌&&◌, Option, List, [], ◌∷◌, ◌++◌, leb, length, if◌then◌else◌,
}
use crag_project.Text.{Text, codes, text_eq, is_empty}
use crag_project.Api.Errors.{Reply, ok, failed, detail_or}
use crag_project.Ui.{
  Effect, send, toast_success, toast_error, navigate, text_field, Widget, words, link,
}
use crag_project.Forms.{FormEvent, field, submit_button, auth_shell}

pub record ResetValues : Type 0 where
  pub password : Text
  pub confirm : Text

pub record ResetForm : Type 0 where
  pub values : ResetValues
  pub password_error : Option String
  pub confirm_error : Option String
  pub is_submitting : Bool

unfoldable pub accepts : ResetValues → Bool
accepts v = leb 8 (length v.password) && text_eq v.password v.confirm

-- `handleSubmit(onSubmit)` up to the call
unfoldable pub submitted : Text → ResetValues → List Effect
unfolding accepts
submitted token v =
    if accepts v
    then if is_empty token
      then toast_error (codes "This reset link is missing its token. Request a new one.") ∷ []
      else send "POST" (codes "/auth/reset-password")
          (text_field "token" token ∷ text_field "new_password" v.password ∷ [])
        ∷ []
    else []

unfoldable pub answered : Reply (Unit {0}) → List Effect
unfolding detail_or
answered (ok _) =
    toast_success "Password updated. Please log in with your new password."
    ∷ navigate "/login" true
    ∷ []
answered (failed err) = toast_error (detail_or "Reset failed. The link may have expired." err) ∷ []

unfoldable pub view : Text → ResetForm → List (Widget FormEvent)
unfolding field auth_shell
view token f = auth_shell (
    if is_empty token
    then words "Invalid reset link"
      ∷ words "This link is missing its token. Request a fresh one below."
      ∷ link "/forgot-password" "Request new link"
      ∷ []
    else words "Choose a new password"
      ∷ words "Your new password must be at least 8 characters."
      ∷ (field "password" "New password" f.values.password f.password_error
          ++ (field "confirm" "Confirm password" f.values.confirm f.confirm_error
              ++ submit_button f.is_submitting "Updating…" "Update password" ∷ [])))

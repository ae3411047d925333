-- ===== src/Forms/ForgotPassword.antt =====
-- frontend/src/pages/ForgotPassword.tsx
use crag_project.Base.{String, Bool, true, Option, List, [], ◌∷◌, ◌++◌, if◌then◌else◌}
use crag_project.Text.{Text, codes}
use crag_project.Api.Errors.{Reply, ok, failed, detail_or}
use crag_project.Ui.{Effect, send, toast_error, text_field, Widget, words, text, link}
use crag_project.Forms.{FormEvent, field, submit_button, auth_shell}

pub record ForgotForm : Type 0 where
  pub email : Text
  pub email_error : Option String
  pub is_submitting : Bool

module _ (is_email : Text → Bool) where
  unfoldable pub submitted : Text → List Effect
  submitted email =
      if is_email email
      then send "POST" (codes "/auth/forgot-password") (text_field "email" email ∷ []) ∷ []
      else []

-- The state is `sent`.
unfoldable pub answered : Reply (Unit {0}) → Bool → Bool × List Effect
unfolding detail_or
answered (ok _) sent = (true, [])
answered (failed err) sent = (sent, toast_error (detail_or "Something went wrong." err) ∷ [])

unfoldable pub view : Bool → ForgotForm → List (Widget FormEvent)
unfolding field auth_shell
view sent f = auth_shell (
    words "Reset your password"
    ∷ words "Enter your email and we'll send you a reset link."
    ∷ (if sent
        then words "If an account exists for"
          ∷ text f.email
          ∷ words ", a reset link is on its way. The link expires in 60 minutes."
          ∷ link "/login" "Back to login"
          ∷ []
        else field "email" "Email" f.email f.email_error
          ++ submit_button f.is_submitting "Sending…" "Send reset link"
            ∷ words "Remembered it?"
            ∷ link "/login" "Log in"
            ∷ []))

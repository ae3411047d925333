-- ===== src/Forms/Laws.antt =====
-- What the forms of frontend/src/pages/Register.tsx, Login.tsx and ResetPassword.tsx send, and when.
use crag_project.Base.{Bool, true, false, [], ◌∷◌, length, ◌≡◌, ◌≤◌, ◌↔◌, arith}
use crag_project.Text.{Text, codes, text_eq_iff, is_empty}
use crag_project.Ui.{send, text_field}
use crag_project.Forms.Register.{RegisterValues}
use crag_project.Forms.Register
use crag_project.Forms.ResetPassword.{ResetValues}
use crag_project.Forms.ResetPassword

module _ (is_email : Text → Bool) where
  -- The registration form accepts exactly the values whose name has 255 characters or fewer, whose
  -- address the schema takes for one, whose password has 8 characters or more, and whose second
  -- password is the same as the first.
  pub accepts_register_iff :
      (v : RegisterValues)
      → (Register.accepts is_email v ≡ true) ↔ (
          (length v.full_name ≤ 255)
          × (is_email v.email ≡ true)
          × (8 ≤ length v.password)
          × (v.password ≡ v.confirm))
  unfolding Register.accepts
  accepts_register_iff v = ground (arith, text_eq_iff v.password v.confirm)

-- A new password is sent exactly when the link had a token, the password has 8 characters or more, and the
-- second password is the same as the first; it then goes out once, with that token.
pub submitted_reset_iff :
    (token : Text) (v : ResetValues)
    → (ResetPassword.submitted token v
        ≡ send "POST"
            (codes "/auth/reset-password")
            (text_field "token" token ∷ text_field "new_password" v.password ∷ [])
          ∷ [])
      ↔ ((is_empty token ≡ false) × (8 ≤ length v.password) × (v.password ≡ v.confirm))
unfolding ResetPassword.submitted ResetPassword.accepts
submitted_reset_iff token v = ground (arith, text_eq_iff v.password v.confirm)

-- ===== src/Forms.antt =====
-- What the four account forms share: frontend/src/pages/Login.tsx, Register.tsx, ForgotPassword.tsx
-- and ResetPassword.tsx. react-hook-form keeps the values and calls `onSubmit` with values that the
-- zod schema accepts; `is_email` stands for `z.string().email()`.
pub mod Laws
pub mod Login
pub mod Register
pub mod ForgotPassword
pub mod ResetPassword
use crag_project.Base.{String, Bool, Option, none, some, List, [], ◌∷◌, ◌++◌, if◌then◌else◌}
use crag_project.Text.{Text, codes}
use crag_project.Ui.{Widget, words, link, input, button}

-- A keystroke in the named field, or the form's submission.
pub data FormEvent : Type 0 where
  edit : String → Text → FormEvent
  submit : FormEvent

-- A labelled field, and its error message if it has one.
unfoldable pub field : String → String → Text → Option String → List (Widget FormEvent)
field name label value none = words label ∷ input value (edit name) ∷ []
field name label value (some message) = words label ∷ input value (edit name) ∷ words message ∷ []

-- The submit button, with its words while the form is sent.
abbrev pub submit_button : Bool → String → String → Widget FormEvent
submit_button is_submitting sending label =
    button (codes (if is_submitting then sending else label)) is_submitting submit

-- `AuthShell`: the logo, the link home, and the page.
unfoldable pub auth_shell : List (Widget FormEvent) → List (Widget FormEvent)
auth_shell children = words "Agentic RAG" ∷ link "/" "Back to home" ∷ children

-- ===== src/System/Refusal.antt =====
-- What the pages for administrators show of a request that failed: frontend/src/pages/System.tsx, the
-- four tables and components/AdminAccessCard.tsx.
use Prim.Native.String
use crag_project.Base.{
  ℕ, String, Bool, true, false, none, List, any, str_eq, ◌=?◌, ◌≡◌, refl, ◌∙◌, sym, ap, inl, inr,
  Bool-cases,
}
use crag_project.Text.{Text}
use crag_project.Types.{SystemStats}
use crag_project.Api.Errors.{ApiError, error_status}
use crag_project.Ui.{Query, Widget, words}
use crag_project.System.{View}
use crag_project.System
use crag_project.System.Tables.{
  Table, documents_table, conversations_table, messages_table, query_logs_table, access_card,
  table_view, documents_view, conversations_view, messages_view, query_logs_view,
}
use crag_project.System.Tables
use crag_project.System.Links.{
  SystemPage, overview, documents_page, conversations_page, messages_page, query_logs_page, shown,
}

-- Does the widget say exactly this?
is_words : {E : Type 0} → String → Widget E → Bool
is_words t (words s) = str_eq s t
is_words t _ = false

-- Does the view say that the page is for administrators?
abbrev pub wants_admin : View → Bool
unfolding is_words
wants_admin ws = any (is_words "Administrator access required") ws

-- A query without what it has cached.
abbrev pub forgotten : {A : Type 0} → Query A → Query A
forgotten q = record q { result = none }

module _ {Score : Type 0} where
  abbrev pub forget : SystemPage Score → SystemPage Score
  forget (overview q) = overview (forgotten q)
  forget (documents_page q) = documents_page (forgotten q)
  forget (conversations_page q) = conversations_page (forgotten q)
  forget (messages_page q) = messages_page (forgotten q)
  forget (query_logs_page q) = query_logs_page (forgotten q)

  abbrev pub has_failed : SystemPage Score → Bool
  has_failed (overview q) = q.is_error
  has_failed (documents_page q) = q.is_error
  has_failed (conversations_page q) = q.is_error
  has_failed (messages_page q) = q.is_error
  has_failed (query_logs_page q) = q.is_error

  abbrev pub error_of : SystemPage Score → ApiError
  error_of (overview q) = q.error
  error_of (documents_page q) = q.error
  error_of (conversations_page q) = q.error
  error_of (messages_page q) = q.error
  error_of (query_logs_page q) = q.error

view-failed :
    (q : Query SystemStats) → q.is_error ≡ true → System.view q ≡ System.failed_view q.error
unfolding System.view
view-failed q e = rw (e, System.view) refl

table-failed :
    {A : Type 0} (t : Table) (row : A → View) (q : Query (List A))
    → q.is_error ≡ true
    → table_view t row q ≡ Tables.failed_view t q.error
unfolding table_view
table-failed t row q e = rw (e, table_view) refl

overview-wants : (err : ApiError) → wants_admin (System.failed_view err) ≡ (error_status err =? 403)
unfolding System.failed_view is_words
overview-wants err = elim (Bool-cases (error_status err =? 403)) [
  | inl e ↦ rw e refl
  | inr e ↦ rw e refl
]

abbrev admin_words : String
admin_words = "Administrator access required"

table-wants :
    (t : Table) (err : ApiError)
    → str_eq t.title admin_words ≡ false
    → str_eq (String.◌++◌ "Failed to load " (String.◌++◌ t.resource ".")) admin_words ≡ false
    → wants_admin (Tables.failed_view t err) ≡ (error_status err =? 403)
unfolding Tables.failed_view access_card is_words
table-wants t err h k = elim (Bool-cases (error_status err =? 403)) [
  | inl e ↦ rw (e, h) refl
  | inr e ↦ rw (e, h, k) refl
]

module _ {A : Type 0} (t : Table) (row : A → View) (q : Query (List A))
    (e : q.is_error ≡ true) where
  table-refused :
      str_eq t.title admin_words ≡ false
      → str_eq (String.◌++◌ "Failed to load " (String.◌++◌ t.resource ".")) admin_words ≡ false
      → (table_view t row q ≡ table_view t row (forgotten q))
        × (wants_admin (table_view t row q) ≡ (error_status q.error =? 403))
  table-refused h k = (
    table-failed t row q e ∙ sym (table-failed t row (forgotten q) e),
    ap wants_admin (table-failed t row q e) ∙ table-wants t q.error h k,
  )

module _ (format_date : String → Text) {Score : Type 0} (percent : Score → Text)
    (seconds : ℕ → Text) where
  -- When the request of one of the five pages has failed, the page shows nothing of an answer that is
  -- still cached, and it asks for an administrator's account exactly if the status of the failure is 403.
  pub shown-refused :
      (p : SystemPage Score)
      → has_failed p ≡ true
      → (shown format_date percent seconds p ≡ shown format_date percent seconds (forget p))
        × (wants_admin (shown format_date percent seconds p) ≡ (error_status (error_of p) =? 403))
  unfolding documents_view conversations_view messages_view query_logs_view
  shown-refused (overview q) e = (
    view-failed q e ∙ sym (view-failed (forgotten q) e),
    ap wants_admin (view-failed q e) ∙ overview-wants q.error,
  )
  shown-refused (documents_page q) e = table-refused documents_table _ q e refl refl
  shown-refused (conversations_page q) e = table-refused conversations_table _ q e refl refl
  shown-refused (messages_page q) e = table-refused messages_table _ q e refl refl
  shown-refused (query_logs_page q) e = table-refused query_logs_table _ q e refl refl

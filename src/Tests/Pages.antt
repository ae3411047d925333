-- ===== src/Tests/Pages.antt =====
-- The pages about accounts, tickets and documents, and the forms, at concrete inputs.
use crag_project.Base.{
  String, ℕ, ◌≢◌, arith, eq_iff, Bool, true, false, some, [], ◌∷◌, refl, inl, inr, All, any, none,
  if◌then◌else◌, ◌≡◌,
}
use crag_project.Text.{Text, codes}
use crag_project.Ui.{clicks}
use crag_project.Users.{AdminUserRow, initial, Click, set_status, on_click, is_self, is_admin_row}
use crag_project.Users
use crag_project.Users.View as UsersView
use crag_project.Users.Offered.{IsAllowed}
use crag_project.Users.Safety.{start, Reach-IsAllowed}
use crag_project.Support.{
  SupportThread, SupportState, open_ticket, resolve, send_reply, is_resolved, current,
}
use crag_project.Support
use crag_project.Support.View as SupportView
use crag_project.Support.Laws.{IsPermitted, view-IsPermitted}
use crag_project.Documents.View as DocumentsView
use crag_project.Documents.Laws.{refetch_interval-pulse, IsReadyOnly, view-IsReadyOnly}
use crag_project.Forms.Register.{RegisterValues}
use crag_project.Forms.ResetPassword.{ResetValues}
use crag_project.Tests.Data.{admin_user, ready_document, loaded, unloaded, idle, date}
use crag_project.Types.{DocumentRecord}
use crag_project.Documents.{refetch_interval, meta_of}

abbrev row : AdminUserRow
row = record {
  id = 9;
  email = codes "bob@example.org";
  full_name = codes "Bob";
  role = "user";
  is_active = true;
  created_at = "2025-01-02";
}

abbrev accounts : Users.Snapshot
accounts = record {
  users = loaded (row ∷ []);
  detail = unloaded;
  status_mutation = idle;
  delete_mutation = idle;
}

Reach-IsAllowed_example :
    All (IsAllowed (row ∷ []) (some admin_user)) (on_click initial (set_status 9 false)).1
Reach-IsAllowed_example =
    Reach-IsAllowed date (some admin_user) accounts (set_status 9 false) start (
      unfold UsersView.view UsersView.users_table UsersView.user_row UsersView.row_actions is_self
        is_admin_row in
      inr (inl refl))

abbrev ticket : SupportThread
ticket = record {
  id = 3;
  subject = codes "Upload";
  status = open_ticket;
  user_email = some (codes "ann@example.org");
  messages = [];
}

abbrev tickets : SupportView.Snapshot
tickets = record {
  threads = loaded (ticket ∷ []);
  reply_mutation = idle;
  resolve_mutation = idle;
  reopen_mutation = idle;
  create_mutation = idle;
}

abbrev reading : SupportState
reading = record Support.initial { active_thread = some 3 }

view-IsPermitted_example : IsPermitted true reading tickets (resolve 3)
view-IsPermitted_example = view-IsPermitted date true reading tickets (resolve 3) (
    unfold SupportView.view SupportView.side SupportView.filter_tab SupportView.thread_list
      SupportView.thread_row SupportView.status_badge SupportView.detail_or_hint
      SupportView.thread_detail SupportView.status_buttons is_resolved current in
    inr (inr (inr (inr (inl refl)))))

abbrev library : DocumentsView.Snapshot
library = record {
  documents = loaded (ready_document ∷ []);
  models = unloaded;
  upload = idle;
  remove = idle;
}

view-IsReadyOnly_example :
    All (IsReadyOnly ℕ (ready_document ∷ []) false) (clicks (DocumentsView.view date library))
view-IsReadyOnly_example = view-IsReadyOnly ℕ false date library

abbrev registration : RegisterValues
registration = record {
  full_name = codes "Ann";
  email = codes "ann@example.org";
  password = codes "password1";
  confirm = codes "password1";
}

abbrev any_address : Text → Bool
any_address t = true

abbrev new_password : ResetValues
new_password = record { password = codes "password1"; confirm = codes "password1" }

running-ne-deleted : ◌≢◌ {A = String} "running" "deleted"
running-ne-deleted e = let same = (eq_iff "running" "deleted").1 e in ground (arith, same)

refetch_interval-pulse_example : refetch_interval (some (ready_document ∷ [])) ≡ (
    if any (λ (d : DocumentRecord). (meta_of d.status).pulse) (ready_document ∷ [])
    then some 5000
    else none)
refetch_interval-pulse_example = refetch_interval-pulse (ready_document ∷ [])

-- ===== src/Documents.antt =====
-- frontend/src/pages/Documents.tsx: the library of documents, uploads and deletions.
pub mod View
pub mod Laws
pub mod Badges
use crag_project.Base.{
  ℕ, String, Bool, true, false, ◌&&◌, ◌||◌, Option, none, some, get_or, List, [], ◌∷◌, ◌++◌, ◌==◌,
  str_eq, length, any, head?, leb, not, if◌then◌else◌,
}
use Prim.Native.String
use crag_project.Text.{Text, codes}
use crag_project.Text.Decimal.{decimal}
use crag_project.Types.{DocumentRecord, ModelsInfo}
use crag_project.Api.Errors.{ApiError, Reply, ok, failed, detail_or}
use crag_project.Ui.{
  Query, Mutation, Effect, send, toast_success, toast_error, invalidate, navigate, str, text_field,
  Variant, default, secondary, destructive, outline, success, warning, Widget, words, text, badge,
  button, skeleton, when, each,
}

-- An entry of `statusMeta`; `pulse` is optional and so false where it is missing.
pub record StatusMeta : Type 0 where
  pub label : String
  pub variant : Variant
  pub pulse : Bool

abbrev meta : String → Variant → Bool → StatusMeta
meta label variant pulse = record { label = label; variant = variant; pulse = pulse }

-- `statusMeta[status]`
unfoldable pub status_meta : String → Option StatusMeta
status_meta status =
    if str_eq status "ready"
    then some (meta "Ready" success false)
    else if str_eq status "pending"
    then some (meta "Pending" warning true)
    else if str_eq status "queued"
    then some (meta "Queued" warning true)
    else if str_eq status "running"
    then some (meta "Indexing" warning true)
    else if str_eq status "failed"
    then some (meta "Failed" destructive false)
    else if str_eq status "deleted"
    then some (meta "Deleted" outline false)
    else none

-- statusMeta[document.status] ?? { label: document.status, variant: 'outline' }
unfoldable pub meta_of : String → StatusMeta
unfolding status_meta
meta_of status = get_or (status_meta status) (meta status outline false)

-- `ACTIVE_STATUSES.has(status)`
unfoldable pub is_active : String → Bool
is_active status = str_eq status "pending" || str_eq status "queued" || str_eq status "running"

-- `refetchInterval`, in milliseconds; `none` is `false`
unfoldable pub refetch_interval : Option (List DocumentRecord) → Option ℕ
unfolding is_active
refetch_interval none = none
refetch_interval (some docs) =
    if any (λ (d : DocumentRecord). is_active d.status) docs then some 5000 else none

-- `const canChat = document.status === 'ready'`
unfoldable pub can_chat : DocumentRecord → Bool
can_chat d = str_eq d.status "ready"

-- `/chat?document=${document.id}`
abbrev pub chat_url : String → String
chat_url id = String.◌++◌ "/chat?document=" id

-- The state is `dragOver`; a file is what `FormData` is given.
pub data Event (File : Type 0) : Type 0 where
  drag_over drag_leave : Event File
  drop : List File → Event File
  pick : Option (List File) → Event File
  browse : Event File
  open_chat : DocumentRecord → Event File
  ask : DocumentRecord → Event File
  delete : DocumentRecord → Event File
  uploaded : Reply DocumentRecord → Event File
  removed : Reply (Unit {0}) → Event File

-- A form that is posted, with one part, a file.
pub record FormPost (File : Type 0) : Type 0 where
  pub url : Text
  pub part : String
  pub file : File

-- `mutationFn` of `upload`
unfoldable pub upload_request : {File : Type 0} → File → FormPost File
upload_request file = record { url = codes "/documents/upload"; part = "file"; file = file }

-- The calls of the page: an upload beside those that every page makes, or the file dialog.
pub data Call (File : Type 0) : Type 0 where
  upload : File → Call File
  open_picker : Call File
  effect : Effect → Call File

module _ {File : Type 0} where
  -- `onFiles`: the first file, if there is one
  unfoldable pub on_files : Option (List File) → List (Call File)
  on_files none = []
  on_files (some files) = elim (head? files) [ none ↦ [] | some f ↦ upload f ∷ [] ]

  -- `onSettled` of the removal, which runs after `onSuccess` or `onError`
  abbrev pub settle_removal : List (Call File)
  settle_removal =
      effect (invalidate (str "documents" ∷ [])) ∷ effect (invalidate (str "system" ∷ [])) ∷ []

  unfoldable pub step : Bool → Event File → Bool × List (Call File)
  unfolding on_files can_chat detail_or
  step over drag_over = (true, [])
  step over drag_leave = (false, [])
  step over (drop files) = (false, on_files (some files))
  step over (pick files) = (over, on_files files)
  step over browse = (over, open_picker ∷ [])
  step over (open_chat d) =
      (over, if can_chat d then effect (navigate (chat_url d.id) false) ∷ [] else [])
  step over (ask d) = (over, effect (navigate (chat_url d.id) false) ∷ [])
  step over (delete d) = (over, effect (send "DELETE" (codes "/documents/" ++ codes d.id) []) ∷ [])
  step over (uploaded (ok d)) = (
    over,
    effect (invalidate (str "documents" ∷ []))
        ∷ effect (toast_success "Document uploaded — indexing started")
        ∷ [],
  )
  step over (uploaded (failed err)) =
      (over, effect (toast_error (detail_or "Upload failed" err)) ∷ [])
  step over (removed (ok _)) = (over, effect (toast_success "Document deleted") ∷ settle_removal)
  step over (removed (failed err)) =
      (over, effect (toast_error (detail_or "Delete failed" err)) ∷ settle_removal)

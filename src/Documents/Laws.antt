-- ===== src/Documents/Laws.antt =====
-- The status table, polling, deletion, and where the page leads.
use crag_project.Base.{
  String, Bool, true, Option, none, some, List, [], ◌∷◌, ◌≡◌, refl, inl, inr, str_eq, any,
  if◌then◌else◌, arith, All, eq_iff, Bool-cases, get_or, sym, ◌∙◌,
}
use crag_project.Text.{Text}
use crag_project.Types.{DocumentRecord, ModelsInfo}
use crag_project.Api.Errors.{Reply, ok, failed}
use crag_project.Ui.{invalidate, navigate, str, clicks, each}
use crag_project.Ui.Clicks.{In, EveryClick, EveryClick-each-In, click_rules}
use crag_project.Documents.{
  meta_of, is_active, refetch_interval, can_chat, chat_url, Event, browse, open_chat, ask, delete,
  removed, Call, effect, step,
}
use crag_project.Documents.View.{
  Snapshot, drop_zone, document_row, document_table, pipeline_card, view,
}

-- The badge of a document pulses exactly while the page counts its status as active.
pub pulse-is_active : (status : String) → (meta_of status).pulse ≡ is_active status
unfolding meta_of is_active
pulse-is_active status = elim (Bool-cases (str_eq status "ready")) [
  | inl e ↦ rw ((eq_iff status "ready").0 e) refl
  | inr e ↦ ground arith
]

any-congr {ℓ} :
    {A : Type ℓ} (f g : A → Bool) (xs : List A) → ((x : A) → f x ≡ g x) → any f xs ≡ any g xs
any-congr f g [] h = refl
any-congr f g (x ∷ xs) h = rw (h x, any-congr f g xs h) refl

-- Once the list is loaded, the page fetches it again every five seconds while the badge of some
-- document pulses, and not at all once none does.
pub refetch_interval-pulse :
    (docs : List DocumentRecord)
    → refetch_interval (some docs)
      ≡ (if any (λ (d : DocumentRecord). (meta_of d.status).pulse) docs then some 5000 else none)
unfolding refetch_interval
refetch_interval-pulse docs =
    rw
      (any-congr (λ (d : DocumentRecord). (meta_of d.status).pulse) (λ d. is_active d.status) docs
        (λ d. pulse-is_active d.status))
      refl

module _ (File : Type 0) where
  -- However a deletion ends, the list of documents and the system's figures are fetched again.
  removed-invalidates :
      (over : Bool) (reply : Reply (Unit {0}))
      → In (effect (invalidate (str "documents" ∷ []))) (step {File = File} over (removed reply)).1
        × In (effect (invalidate (str "system" ∷ []))) (step {File = File} over (removed reply)).1
  unfolding step
  removed-invalidates over (ok _) = (inr (inl refl), inr (inr (inl refl)))
  removed-invalidates over (failed err) = (inr (inl refl), inr (inr (inl refl)))

  can_chat-ready : (d : DocumentRecord) → can_chat d ≡ str_eq d.status "ready"
  unfolding can_chat
  can_chat-ready d = refl

  -- A call that leads to another page leads to the chat of one of these documents, which is ready.
  abbrev pub LeadsToReady : List DocumentRecord → Call File → Type 0
  LeadsToReady docs (effect (navigate path replace)) =
      (d : DocumentRecord) × In d docs × (str_eq d.status "ready" ≡ true) × (path ≡ chat_url d.id)
  LeadsToReady docs _ = Unit

  abbrev pub IsReadyOnly : List DocumentRecord → Bool → Event File → Type 0
  IsReadyOnly docs over e = All (LeadsToReady docs) (step over e).1

  module _ (docs : List DocumentRecord) (over : Bool) where
    browse-IsReadyOnly : IsReadyOnly docs over browse
    unfolding step
    browse-IsReadyOnly = (tt, tt)

    open_chat-IsReadyOnly : (d : DocumentRecord) → In d docs → IsReadyOnly docs over (open_chat d)
    open_chat-IsReadyOnly d m = elim (Bool-cases (can_chat d)) [
      | inl e ↦ unfold step in rw e ((d, m, sym (can_chat-ready d) ∙ e, refl), tt)
      | inr e ↦ unfold step in rw e tt
    ]

    ask-IsReadyOnly :
        (d : DocumentRecord) → In d docs → can_chat d ≡ true → IsReadyOnly docs over (ask d)
    unfolding step
    ask-IsReadyOnly d m h = ((d, m, sym (can_chat-ready d) ∙ h, refl), tt)

    delete-IsReadyOnly : (d : DocumentRecord) → IsReadyOnly docs over (delete d)
    unfolding step
    delete-IsReadyOnly d = (tt, tt)

    ruleset ready_clicks = (
      click_rules, browse-IsReadyOnly, open_chat-IsReadyOnly, ask-IsReadyOnly, delete-IsReadyOnly,
    )

    module _ (format_date : String → Text) (q : Snapshot) where
      document_row-IsReadyOnly :
          (d : DocumentRecord)
          → In d docs
          → EveryClick (IsReadyOnly docs over) (document_row format_date q d)
      unfolding document_row
      document_row-IsReadyOnly d m = search ready_clicks depth 12

      document_table-IsReadyOnly :
          (ds : List DocumentRecord)
          → ((d : DocumentRecord) → In d ds → In d docs)
          → EveryClick (IsReadyOnly docs over) (document_table format_date q ds)
      unfolding document_table
      document_table-IsReadyOnly [] sub = search ready_clicks depth 12
      document_table-IsReadyOnly (d ∷ ds) sub =
          let each_row : EveryClick (IsReadyOnly docs over)
              (each (document_row format_date q) (d ∷ ds)) =
            EveryClick-each-In (document_row format_date q) (d ∷ ds)
              (λ x m. document_row-IsReadyOnly x (sub x m)) in
          search (ready_clicks, each_row) depth 16

      pipeline_card-IsReadyOnly :
          (o : Option ModelsInfo)
          → EveryClick (IsReadyOnly docs over) (pipeline_card format_date q o)
      unfolding pipeline_card
      pipeline_card-IsReadyOnly none = search ready_clicks
      pipeline_card-IsReadyOnly (some m) = search ready_clicks depth 12

      module _
          (shown : (d : DocumentRecord) → In d (get_or q.documents.result []) → In d docs) where
        table-IsReadyOnly :
            EveryClick
              (IsReadyOnly docs over)
              (document_table format_date q (get_or q.documents.result []))
        table-IsReadyOnly = document_table-IsReadyOnly (get_or q.documents.result []) shown

        view-EveryClick : EveryClick (IsReadyOnly docs over) (view format_date q)
        unfolding view drop_zone
        view-EveryClick =
            search (ready_clicks, table-IsReadyOnly, pipeline_card-IsReadyOnly) depth 20

  -- Of the clicks that the page offers, those that lead to another page lead to the chat of a
  -- document of the list that the server has given, and the status of that document is "ready".
  pub view-IsReadyOnly :
      (over : Bool) (format_date : String → Text) (q : Snapshot)
      → All (IsReadyOnly (get_or q.documents.result []) over) (clicks (view format_date q))
  view-IsReadyOnly over format_date q =
      (view-EveryClick (get_or q.documents.result []) over format_date q (λ d m. m)).at

-- ===== src/Documents/View.antt =====
-- What frontend/src/pages/Documents.tsx shows: the drop zone, the table of documents, the models.
use crag_project.Base.{
  String, Bool, false, ◌||◌, Option, none, some, get_or, List, [], ◌∷◌, ◌++◌, ◌==◌, str_eq, length,
  ltb, if◌then◌else◌,
}
use crag_project.Text.{Text, codes}
use crag_project.Text.Decimal.{decimal}
use crag_project.Types.{DocumentRecord, ModelsInfo}
use crag_project.Format.{format_bytes}
use crag_project.Ui.{
  Query, Mutation, secondary, Widget, words, text, badge, button, skeleton, when, each,
}
use crag_project.Documents.{Event, browse, open_chat, ask, delete, meta_of, can_chat}

-- The libraries' state at one rendering.
pub record Snapshot : Type 0 where
  pub documents : Query (List DocumentRecord)
  pub models : Query ModelsInfo
  pub upload : Mutation
  pub remove : Mutation

abbrev documents_or_none : Snapshot → List DocumentRecord
documents_or_none q = get_or q.documents.result []

-- `isBusy`
unfoldable pub is_busy : Snapshot → Bool
is_busy q = q.upload.is_pending || q.remove.is_pending

module _ {File : Type 0} (format_date : String → Text) (q : Snapshot) where
  unfoldable pub drop_zone : List (Widget (Event File))
  drop_zone =
      button
        (codes
          (if q.upload.is_pending then "Uploading…" else "Drop a file here, or click to browse"))
        false browse
      ∷ words "PDF, Word (DOCX/DOC), TXT, or Markdown · up to 20 MB"
      ∷ []

  -- A row of the table, its own click included.
  unfoldable pub document_row : DocumentRecord → List (Widget (Event File))
  unfolding meta_of can_chat is_busy
  document_row d =
      button (codes d.file_name) false (open_chat d)
      ∷ words (if str_eq d.content_type "" then "—" else d.content_type)
      ∷ text (format_bytes d.size_bytes)
      ∷ badge (meta_of d.status).variant (meta_of d.status).label
      ∷ text (format_date d.created_at)
      ∷ (when (can_chat d) (button (codes "Ask") false (ask d) ∷ [])
          ++ button (codes "Delete") (is_busy q) (delete d) ∷ [])

  unfoldable pub empty_library : List (Widget (Event File))
  empty_library =
      words "Your library is empty"
      ∷ words "Upload your first document above to start building your knowledge base."
      ∷ []

  unfoldable pub document_table : List DocumentRecord → List (Widget (Event File))
  unfolding document_row empty_library
  document_table [] = empty_library
  document_table (d ∷ ds) =
      words "Name"
      ∷ words "Size"
      ∷ words "Status"
      ∷ words "Uploaded"
      ∷ words "Actions"
      ∷ each document_row (d ∷ ds)

  unfoldable pub pipeline_card : Option ModelsInfo → List (Widget (Event File))
  pipeline_card none = []
  pipeline_card (some m) =
      words "Indexing pipeline"
      ∷ words "Extraction"
      ∷ words m.ingestion.extraction_model
      ∷ words "Embeddings"
      ∷ words m.ingestion.embedding_model
      ∷ badge secondary
          (if str_eq m.ingestion.provider "local" then "runs locally" else m.ingestion.provider)
      ∷ []

  unfoldable pub view : List (Widget (Event File))
  unfolding drop_zone document_table pipeline_card
  view =
      words "Knowledge base"
      ∷ words "Documents"
      ∷ text (
          decimal (length (documents_or_none q))
          ++ codes (if length (documents_or_none q) == 1 then " file" else " files"))
      ∷ (drop_zone
          ++ (words "Your documents"
              ∷ (when (ltb 0 (length (documents_or_none q)))
                    (button (codes "Upload") false browse ∷ [])
                  ++ ((if q.documents.is_loading
                        then skeleton 4 ∷ []
                        else document_table (documents_or_none q))
                      ++ pipeline_card q.models.result))))

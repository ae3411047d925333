-- ===== src/Documents/Badges.antt =====
-- The badges of a document in frontend/src/pages/Documents.tsx and in the viewer of
-- frontend/src/pages/Chat.tsx, which have a table of their own each.
use crag_project.Base.{String, ◌≡◌, ◌≢◌, get_or, arith, str_eq, eq_iff, Bool-cases, inl, inr, false}
use crag_project.Ui.{outline}
use crag_project.Documents.{meta_of}
use crag_project.Chat.View.{document_meta}

module _ (status : String) where
  same_badge :
      str_eq status "deleted" ≡ false
      → ((meta_of status).label ≡ (get_or (document_meta status) (status, outline)).0)
        × ((meta_of status).variant ≡ (get_or (document_meta status) (status, outline)).1)
  unfolding meta_of document_meta
  same_badge h = (ground (arith, h), ground (arith, h))

  -- For every status but `deleted`, which the viewer's table does not have, the list of documents and the
  -- viewer of the chat show the same badge.
  pub meta_of-document_meta :
      status ≢ "deleted"
      → ((meta_of status).label ≡ (get_or (document_meta status) (status, outline)).0)
        × ((meta_of status).variant ≡ (get_or (document_meta status) (status, outline)).1)
  meta_of-document_meta h = elim (Bool-cases (str_eq status "deleted")) [
    | inl e ↦ absurd (h ((eq_iff status "deleted").0 e))
    | inr e ↦ same_badge e
  ]

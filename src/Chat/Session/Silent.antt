-- ===== src/Chat/Session/Silent.antt =====
-- What the effects of frontend/src/pages/Chat.tsx do to the streaming text and the cache.
use crag_project.Base.{String, Option, none, some, List, ◌≡◌, refl, inl, inr, arith, Bool-cases}
use crag_project.Types.{Conversation, DocumentRecord}
use crag_project.Ui.{Query}
use crag_project.Chat.{ChatState, open_viewer, auto_create, keep_active, truthy}

module _ {Cache : Type 0} where
  pub auto_create-silent :
      (param : Option String) (q : Query (List Conversation)) (pinned : Option DocumentRecord)
      (s : ChatState Cache)
      → ((auto_create param q pinned s).0.stream_text ≡ s.stream_text)
        × ((auto_create param q pinned s).0.cache ≡ s.cache)
  unfolding auto_create
  auto_create-silent param q pinned s = (ground arith, ground arith)

  pub open_viewer-silent :
      (param : Option String) (s : ChatState Cache)
      → ((open_viewer param s).stream_text ≡ s.stream_text)
        × ((open_viewer param s).cache ≡ s.cache)
  unfolding open_viewer
  open_viewer-silent param s = elim (Bool-cases (truthy param)) [
    | inl e ↦ rw e (refl, refl)
    | inr e ↦ rw e (refl, refl)
  ]

  pub keep_active-silent :
      (param : Option String) (all : Option (List Conversation)) (s : ChatState Cache)
      → ((keep_active param all s).stream_text ≡ s.stream_text)
        × ((keep_active param all s).cache ≡ s.cache)
  unfolding keep_active
  keep_active-silent param none s = (refl, refl)
  keep_active-silent param (some all) s = (refl, refl)

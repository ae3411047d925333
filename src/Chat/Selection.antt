-- ===== src/Chat/Selection.antt =====
-- The effects of frontend/src/pages/Chat.tsx that select a conversation, over the states and the
-- answers that they meet.
use crag_project.Base.{
  ℕ, String, Bool, true, false, Option, none, some, get_or, is_some, List, [], ◌∷◌, ◌++◌, ◌≡◌, refl,
  sym, ap, ◌≤◌, arith, eq_iff, ==_refl, Bool-cases, inl, inr, length, head?, any, ◌⊎◌,
}
use crag_project.Text.{Text, trim, is_empty}
use crag_project.Text.Trim.{trim_idem}
use crag_project.Types.{Conversation, DocumentRecord}
use crag_project.Ui.{Query, Effect}
use crag_project.Chat.{
  ChatState, truthy, same_document, visible, create, shows, select, keep_active, auto_create,
  deleted, on_submit,
}

-- The selected thread is one of these; if there are none, none is selected.
abbrev pub IsInStep : List Conversation → Option ℕ → Type 0
IsInStep [] active = active ≡ none
IsInStep (c ∷ cs) none = true ≡ false
IsInStep (c ∷ cs) (some id) = shows id (c ∷ cs) ≡ true

same_document_refl : (p : Option String) → same_document p p ≡ true
unfolding same_document
same_document_refl none = refl
same_document_refl (some p) = (eq_iff p p).1 refl

select-IsInStep : (cs : List Conversation) (a : Option ℕ) → IsInStep cs (select cs a)
unfolding select
select-IsInStep [] a = refl
select-IsInStep (c ∷ cs) none = rw (==_refl c.id) refl
select-IsInStep (c ∷ cs) (some id) = elim (Bool-cases (shows id (c ∷ cs))) [
  | inl e ↦ rw e e
  | inr e ↦ rw (e, ==_refl c.id) refl
]

select_kept : (cs : List Conversation) (a : Option ℕ) → IsInStep cs a → select cs a ≡ a
unfolding select
select_kept [] a h = sym h
select_kept (c ∷ cs) none h = ground arith
select_kept (c ∷ cs) (some id) h = rw h refl

select-none :
    (cs : List Conversation) → select cs none ≡ elim (head? cs) [ none ↦ none | some c ↦ some c.id ]
unfolding select
select-none [] = refl
select-none (c ∷ cs) = refl

-- What one run of the page's effects sees of the server.
abbrev pub Seen : Type 0
Seen = Query (List Conversation) × Option DocumentRecord

-- What the effect does when the server's answer is none, or one list of threads.
module _ {Cache : Type 0} where
  -- Whatever was selected, after the effect has run on a loaded list of threads the selected
  -- thread is one of the visible ones; none is selected if none is visible. Running the effect
  -- again then changes nothing.
  pub keep_active-IsInStep :
      (param : Option String) (all : List Conversation) (s : ChatState Cache)
      → IsInStep (visible param all) (keep_active param (some all) s).active_id
        × (keep_active param (some all) (keep_active param (some all) s)
            ≡ keep_active param (some all) s)
  unfolding keep_active
  keep_active-IsInStep param all s =
      let keep = λ (a : Option ℕ). record s { active_id = a } in
      let settled = select-IsInStep (visible param all) s.active_id in
      (
        settled,
        ap keep (select_kept (visible param all) (select (visible param all) s.active_id) settled),
      )

  -- A choice that is in step with the visible threads is kept, and so is the rest of the state.
  pub keep_active_kept :
      (param : Option String) (all : List Conversation) (s : ChatState Cache)
      → IsInStep (visible param all) s.active_id
      → keep_active param (some all) s ≡ s
  unfolding keep_active
  keep_active_kept param all s h =
      ap (λ (a : Option ℕ). record s { active_id = a })
        (select_kept (visible param all) s.active_id h)

  -- After any conversation is deleted, the effect first selects the first visible thread of the
  -- list that is at hand then, which may be the one from before the deletion, or none if there is
  -- none.
  pub keep_active-deleted :
      (param : Option String) (all : List Conversation) (s : ChatState Cache)
      → (keep_active param (some all) (deleted s).0).active_id
        ≡ elim (head? (visible param all)) [ none ↦ none | some c ↦ some c.id ]
  unfolding keep_active deleted
  keep_active-deleted param all s = select-none (visible param all)

  -- The effect that creates threads, run once for each of these, with one pinned document.
  abbrev pub creations : Option String → List Seen → ChatState Cache → List Effect
  creations param [] s = []
  creations param ((q, pinned) ∷ seen) s =
      let (s', calls) = auto_create param q pinned s in calls ++ creations param seen s'

  auto_create-quiet :
      (param : Option String) (q : Query (List Conversation)) (pinned : Option DocumentRecord)
      (s : ChatState Cache)
      → truthy param ≡ true
      → same_document s.auto_created param ≡ true
      → auto_create param q pinned s ≡ (s, [])
  unfolding auto_create
  auto_create-quiet param q pinned s t e = ground (arith, t, e)

  creations-quiet :
      (param : Option String) (seen : List Seen) (s : ChatState Cache)
      → truthy param ≡ true
      → same_document s.auto_created param ≡ true
      → creations param seen s ≡ []
  creations-quiet param [] s t e = refl
  creations-quiet param ((q, pinned) ∷ seen) s t e =
      rw (auto_create-quiet param q pinned s t e) (creations-quiet param seen s t e)

  auto_create-creates :
      (param : Option String) (q : Query (List Conversation)) (pinned : Option DocumentRecord)
      (s : ChatState Cache)
      → truthy param ≡ true
      → q.is_loading ≡ false
      → any (λ (c : Conversation). same_document c.document_id param) (get_or q.result []) ≡ false
      → same_document s.auto_created param ≡ false
      → auto_create param q pinned s ≡ (record s { auto_created = param }, create param pinned ∷ [])
  unfolding auto_create
  auto_create-creates param q pinned s t l e n = rw t (rw l (rw e (rw n refl)))

  auto_create-cases :
      (param : Option String) (q : Query (List Conversation)) (pinned : Option DocumentRecord)
      (s : ChatState Cache)
      → ((auto_create param q pinned s).1 ≡ [])
        ⊎ ((truthy param ≡ true)
            × (auto_create param q pinned s
                ≡ (record s { auto_created = param }, create param pinned ∷ [])))
  unfolding auto_create
  auto_create-cases param q pinned s = ground arith

  -- As long as one document stays pinned, the page creates at most one thread for it by itself,
  -- whatever the server answers meanwhile and however often its effect runs.
  pub creations-once :
      (param : Option String) (seen : List Seen) (s : ChatState Cache)
      → length (creations param seen s) ≤ 1
  creations-once param [] s = omega arith
  creations-once param ((q, pinned) ∷ seen) s = elim (auto_create-cases param q pinned s) [
    | inl e ↦ rw e (creations-once param seen (auto_create param q pinned s).0)
    | inr (t, e) ↦
        rw
          (
            e,
            creations-quiet param seen (record s { auto_created = param }) t
                (same_document_refl param),
          )
          (omega arith)
  ]

  -- If a document is pinned, the list of threads is not loading and holds none of that document,
  -- and the page has not created one for it yet, then it creates exactly one, with the
  -- document's id, however often its effect runs afterwards and whatever it then sees.
  pub creations-exactly :
      (param : Option String) (q : Query (List Conversation)) (pinned : Option DocumentRecord)
      (seen : List Seen) (s : ChatState Cache)
      → truthy param ≡ true
      → q.is_loading ≡ false
      → any (λ (c : Conversation). same_document c.document_id param) (get_or q.result []) ≡ false
      → same_document s.auto_created param ≡ false
      → creations param ((q, pinned) ∷ seen) s ≡ create param pinned ∷ []
  creations-exactly param q pinned seen s t l e n =
      rw
        (
          auto_create-creates param q pinned s t l e n,
          creations-quiet param seen (record s { auto_created = param }) t
              (same_document_refl param),
        )
        refl

  -- What the form hands to `sendMessage` is the trimmed draft: it is not empty, trimming it again
  -- changes nothing, a thread was selected, no other message was on its way, and the field is empty.
  pub on_submit-content :
      (pending : Bool) (s : ChatState Cache) (content : Text)
      → (on_submit pending s).1 ≡ some content
      → (content ≡ trim s.draft)
        × (is_empty content ≡ false)
        × (trim content ≡ content)
        × (pending ≡ false)
        × (is_some s.active_id ≡ true)
        × ((on_submit pending s).0.draft ≡ [])
  unfolding on_submit
  on_submit-content pending s content h = ground (arith, trim_idem s.draft)

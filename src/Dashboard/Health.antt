-- ===== src/Dashboard/Health.antt =====
-- The health of the platform as frontend/src/pages/AdminDashboard.tsx words it, and its badges.
use crag_project.Base.{
  Bool, true, false, not, ◌&&◌, Option, some, is_some, List, [], ◌∷◌, ◌++◌, all, str_eq, ◌≡◌, refl,
  ◌∙◌, ap, arith, inl, inr, Bool-cases, Option-cases, if◌then◌else◌,
}
use crag_project.Text.{Text}
use crag_project.Types.{User, SystemStats, DependencyStatus}
use crag_project.Ui.{
  Query, Variant, success, Widget, words, text, badge, link, button, input, tab, skeleton, each,
}
use crag_project.System.{is_ready, dependency_badge, dependency_row, dependency_rows}
use crag_project.Dashboard.Admin.{admin_cards, admin_card, all_ready, health_words, admin_view}

-- The colours of a view's badges.
abbrev pub badges : {E : Type 0} → List (Widget E) → List Variant
badges [] = []
badges (badge v t ∷ ws) = v ∷ badges ws
badges (_ ∷ ws) = badges ws

abbrev pub is_success : Variant → Bool
is_success success = true
is_success _ = false

-- All badges of the view are green.
abbrev pub all_green : {E : Type 0} → List (Widget E) → Bool
all_green ws = all is_success (badges ws)

module _ {E : Type 0} where
  all_green-append :
      (ws vs : List (Widget E)) → all_green (ws ++ vs) ≡ (all_green ws && all_green vs)
  all_green-append [] vs = refl
  all_green-append (badge v t ∷ ws) vs = rw (all_green-append ws vs) ground arith
  all_green-append (words t ∷ ws) vs = all_green-append ws vs
  all_green-append (text t ∷ ws) vs = all_green-append ws vs
  all_green-append (link to t ∷ ws) vs = all_green-append ws vs
  all_green-append (button t b e ∷ ws) vs = all_green-append ws vs
  all_green-append (input t f ∷ ws) vs = all_green-append ws vs
  all_green-append (tab t b e ∷ ws) vs = all_green-append ws vs
  all_green-append (skeleton n ∷ ws) vs = all_green-append ws vs

rows-green : (ds : List DependencyStatus) → all_green (each dependency_row ds) ≡ all is_ready ds
unfolding dependency_row dependency_badge
rows-green [] = refl
rows-green (d ∷ ds) = elim (Bool-cases (is_ready d)) [
  | inl e ↦ rw (e, rows-green ds) refl
  | inr e ↦ rw e refl
]

cards-green : (q : Query SystemStats) → all_green (each (admin_card q) admin_cards) ≡ true
unfolding admin_card
cards-green q = elim (Bool-cases q.is_loading) [ inl e ↦ rw e refl | inr e ↦ rw e refl ]

dependency_rows-green :
    (s : SystemStats) → all_green (dependency_rows (some s)) ≡ all is_ready s.dependencies
unfolding dependency_rows
dependency_rows-green s = rows-green s.dependencies

and_true : (b : Bool) → (b && true) ≡ b
and_true true = refl
and_true false = refl

view-green :
    (today : Text) (u : Option User) (q : Query SystemStats)
    → all_green (admin_view today u q)
      ≡ all_green (if q.is_loading then skeleton 4 ∷ [] else dependency_rows q.result)
unfolding admin_view
view-green today u q =
    let rows = if q.is_loading then skeleton 4 ∷ [] else dependency_rows q.result in
    all_green-append (each (admin_card q) admin_cards) _
    ∙ (ap (λ b. b && all_green (rows ++ words "Backing services powering the platform." ∷ []))
          (cards-green q)
        ∙ (all_green-append rows _ ∙ and_true (all_green rows)))

-- The start page of an administrator says that all systems are operational exactly if the figures have
-- been read, are not being read for the first time, and every badge on the page is green: a dependency
-- that is not ready makes it say otherwise, and so does a request without an answer.
pub health_words-operational :
    (today : Text) (u : Option User) (q : Query SystemStats)
    → str_eq (health_words q) "All systems operational"
      ≡ (not q.is_loading && (is_some q.result && all_green (admin_view today u q)))
unfolding health_words all_ready
health_words-operational today u q = elim (Bool-cases q.is_loading) [
  | inl l ↦ rw l refl
  | inr l ↦ elim (Option-cases q.result) [
    | inl n ↦ rw (l, n) refl
    | inr (s, e) ↦ elim (Bool-cases (all is_ready s.dependencies)) [
      | inl h ↦ rw (view-green today u q, l, e, dependency_rows-green s, h) refl
      | inr h ↦ rw (view-green today u q, l, e, dependency_rows-green s, h) refl
    ]
  ]
]

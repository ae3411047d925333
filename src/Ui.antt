-- ===== src/Ui.antt =====
-- What a page shows and does. A view is the list of its widgets in document order, without layout,
-- icons and styling; a handler returns the page's new state and the calls that it makes.
-- React Query, the router and the toasts are libraries: their state is an argument (`Query`,
-- `Mutation`) and the calls of them are effects.
pub mod Clicks
pub mod Links
use crag_project.Base.{
  ℕ, Bool, true, false, not, String, Option, none, some, List, [], ◌∷◌, ◌++◌, if◌then◌else◌, ◌⊎◌,
  ◌≡◌, inl, inr, All, sym,
}
use crag_project.Text.{Text, codes, is_empty}
use crag_project.Api.Errors.{ApiError}
use mathlib.Core.Path.{subst}

-- The snapshot of a `useQuery`.
pub record Query (A : Type 0) : Type 0 where
  pub result : Option A
  pub is_loading : Bool
  pub is_error : Bool
  pub error : ApiError

-- The snapshot of a `useMutation`.
pub record Mutation : Type 0 where
  pub is_pending : Bool

pub data KeyPart : Type 0 where
  str : String → KeyPart
  num : ℕ → KeyPart
  bool : Bool → KeyPart
  null : KeyPart

abbrev pub QueryKey : Type 0
QueryKey = List KeyPart

-- A field of a JSON body; an `undefined` one is left out.
pub data Field : Type 0 where
  text_field : String → Text → Field
  string_field : String → String → Field
  bool_field : String → Bool → Field

pub data Effect : Type 0 where
  -- a request: method, path below the API's base, fields of the body
  send : String → Text → List Field → Effect
  toast_success : String → Effect
  toast_error : Text → Effect
  invalidate : QueryKey → Effect
  -- the path, and whether it replaces the entry in the history
  navigate : String → Bool → Effect
  set_search_params : Effect

pub data Variant : Type 0 where
  default secondary destructive outline success warning : Variant

pub data Widget (E : Type 0) : Type 0 where
  -- words of the page, and text that comes from data
  words : String → Widget E
  text : Text → Widget E
  badge : Variant → String → Widget E
  -- a router link and its target
  link : String → String → Widget E
  -- a button or another element with a click handler: its words, whether it is disabled, its event
  button : Text → Bool → E → Widget E
  -- a text field: its value, and the event of a change
  input : Text → (Text → E) → Widget E
  -- a chosen or unchosen tab: its words, whether it is chosen, its event
  tab : Text → Bool → E → Widget E
  -- placeholders shown while something loads
  skeleton : ℕ → Widget E

-- `a || 'fallback'` on strings
abbrev pub text_or : Text → String → Text
text_or t fallback = if is_empty t then codes fallback else t

-- Some widgets if the test holds: `cond && <…/>`.
abbrev pub when : {E : Type 0} → Bool → List (Widget E) → List (Widget E)
when true ws = ws
when false ws = []

-- `xs.map((x) => …)`, each item giving some widgets
abbrev pub each : {A E : Type 0} → (A → List (Widget E)) → List A → List (Widget E)
each f [] = []
each f (x ∷ xs) = f x ++ each f xs

module _ {E : Type 0} where
  -- The event of a button that can be clicked.
  abbrev pub click : Widget E → List E
  click (button label disabled e) = if disabled then [] else e ∷ []
  click (tab label chosen e) = e ∷ []
  click _ = []

  -- The events that a view offers.
  abbrev pub clicks : List (Widget E) → List E
  clicks [] = []
  clicks (w ∷ ws) = click w ++ clicks ws

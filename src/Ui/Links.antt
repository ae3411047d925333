-- ===== src/Ui/Links.antt =====
-- What holds of the target of every link that a view shows, from what holds of its parts.
use crag_project.Base.{ℕ, String, Bool, true, false, List, [], ◌∷◌, ◌++◌, All, if◌then◌else◌}
use crag_project.Text.{Text}
use crag_project.Ui.{
  Variant, Widget, words, text, badge, link, button, input, tab, skeleton, each, when,
}

-- The targets of a view's links.
abbrev pub links : {E : Type 0} → List (Widget E) → List String
links [] = []
links (link to label ∷ ws) = to ∷ links ws
links (_ ∷ ws) = links ws

-- The target of every link satisfies `P`.
pub record EveryLink {E : Type 0} (P : String → Type 0) (ws : List (Widget E)) : Type 0 where
  pub at : All P (links ws)

module _ {E : Type 0} {P : String → Type 0} where
  pub EveryLink-nil : EveryLink {E = E} P []
  EveryLink-nil = record { at = tt }

  pub EveryLink-link :
      (to label : String) (ws : List (Widget E))
      → P to
      → EveryLink P ws
      → EveryLink P (link to label ∷ ws)
  EveryLink-link to label ws p h = record { at = (p, h.at) }

  pub EveryLink-words :
      (t : String) (ws : List (Widget E)) → EveryLink P ws → EveryLink P (words t ∷ ws)
  EveryLink-words t ws h = record { at = h.at }

  pub EveryLink-text :
      (t : Text) (ws : List (Widget E)) → EveryLink P ws → EveryLink P (text t ∷ ws)
  EveryLink-text t ws h = record { at = h.at }

  pub EveryLink-badge :
      (v : Variant) (t : String) (ws : List (Widget E))
      → EveryLink P ws
      → EveryLink P (badge v t ∷ ws)
  EveryLink-badge v t ws h = record { at = h.at }

  pub EveryLink-button :
      (t : Text) (b : Bool) (e : E) (ws : List (Widget E))
      → EveryLink P ws
      → EveryLink P (button t b e ∷ ws)
  EveryLink-button t b e ws h = record { at = h.at }

  pub EveryLink-skeleton :
      (n : ℕ) (ws : List (Widget E)) → EveryLink P ws → EveryLink P (skeleton n ∷ ws)
  EveryLink-skeleton n ws h = record { at = h.at }

  -- A figure, or a placeholder while it loads.
  pub EveryLink-figure :
      (b : Bool) (n : ℕ) (t : Text) (ws : List (Widget E))
      → EveryLink P ws
      → EveryLink P ((if b then skeleton n else text t) ∷ ws)
  EveryLink-figure true n t ws h = record { at = h.at }
  EveryLink-figure false n t ws h = record { at = h.at }

  pub EveryLink-append :
      (ws vs : List (Widget E)) → EveryLink P ws → EveryLink P vs → EveryLink P (ws ++ vs)
  EveryLink-append [] vs h k = k
  EveryLink-append (link to label ∷ ws) vs h k = record {
    at = (h.at.0, (EveryLink-append ws vs (record { at = h.at.1 }) k).at);
  }
  EveryLink-append (words t ∷ ws) vs h k = record {
    at = (EveryLink-append ws vs (record { at = h.at }) k).at;
  }
  EveryLink-append (text t ∷ ws) vs h k = record {
    at = (EveryLink-append ws vs (record { at = h.at }) k).at;
  }
  EveryLink-append (badge v t ∷ ws) vs h k = record {
    at = (EveryLink-append ws vs (record { at = h.at }) k).at;
  }
  EveryLink-append (button t b e ∷ ws) vs h k = record {
    at = (EveryLink-append ws vs (record { at = h.at }) k).at;
  }
  EveryLink-append (input t f ∷ ws) vs h k = record {
    at = (EveryLink-append ws vs (record { at = h.at }) k).at;
  }
  EveryLink-append (tab t b e ∷ ws) vs h k = record {
    at = (EveryLink-append ws vs (record { at = h.at }) k).at;
  }
  EveryLink-append (skeleton n ∷ ws) vs h k = record {
    at = (EveryLink-append ws vs (record { at = h.at }) k).at;
  }

  pub EveryLink-each :
      {A : Type 0} (f : A → List (Widget E)) (xs : List A)
      → ((x : A) → EveryLink P (f x))
      → EveryLink P (each f xs)
  EveryLink-each f [] h = EveryLink-nil
  EveryLink-each f (x ∷ xs) h = EveryLink-append (f x) (each f xs) (h x) (EveryLink-each f xs h)

  pub EveryLink-when : (b : Bool) (ws : List (Widget E)) → EveryLink P ws → EveryLink P (when b ws)
  EveryLink-when true ws h = h
  EveryLink-when false ws h = EveryLink-nil

  pub EveryLink-if :
      (b : Bool) (ws vs : List (Widget E))
      → EveryLink P ws
      → EveryLink P vs
      → EveryLink P (if b then ws else vs)
  EveryLink-if true ws vs h k = h
  EveryLink-if false ws vs h k = k

pub ruleset link_rules = (
  EveryLink-nil, EveryLink-append, EveryLink-each, EveryLink-when, EveryLink-if, EveryLink-link,
  EveryLink-words, EveryLink-text, EveryLink-badge, EveryLink-button, EveryLink-skeleton,
  EveryLink-figure,
)

-- ===== src/Ui/Clicks.antt =====
-- What holds of every event that a view offers, from what holds of its parts.
use mathlib.Core.Path.{subst}
use crag_project.Base.{
  ℕ, String, ◌≡◌, refl, sym, Bool, true, false, inl, inr, ◌⊎◌, List, [], ◌∷◌, ◌++◌, All, All-append,
  All-append-left, All-append-right, if◌then◌else◌,
}
use crag_project.Text.{Text}
use crag_project.Ui.{
  Variant, Widget, words, text, badge, link, button, input, tab, skeleton, click, clicks, each,
  when,
}

-- Membership by recursion on the list.
abbrev pub In : {A : Type 0} → A → List A → Type 0
In a [] = ⊥
In a (x ∷ xs) = (a ≡ x) ⊎ In a xs

pub All-In : {A : Type 0} (P : A → Type 0) (xs : List A) (a : A) → All P xs → In a xs → P a
All-In P [] a h m = absurd m
All-In P (x ∷ xs) a (p, h) (inl e) = subst P (sym e) p
All-In P (x ∷ xs) a (p, h) (inr m) = All-In P xs a h m

pub In-append-right : {A : Type 0} (a : A) (xs ys : List A) → In a ys → In a (xs ++ ys)
In-append-right a [] ys m = m
In-append-right a (x ∷ xs) ys m = inr (In-append-right a xs ys m)

pub In-append-left : {A : Type 0} (a : A) (xs ys : List A) → In a xs → In a (xs ++ ys)
In-append-left a [] ys m = absurd m
In-append-left a (x ∷ xs) ys (inl e) = inl e
In-append-left a (x ∷ xs) ys (inr m) = inr (In-append-left a xs ys m)

-- Every event that the view offers satisfies `P`.
pub record EveryClick {E : Type 0} (P : E → Type 0) (ws : List (Widget E)) : Type 0 where
  pub at : All P (clicks ws)

module _ {E : Type 0} {P : E → Type 0} where
  pub EveryClick-nil : EveryClick P []
  EveryClick-nil = record { at = tt }

  pub EveryClick-append :
      (ws vs : List (Widget E)) → EveryClick P ws → EveryClick P vs → EveryClick P (ws ++ vs)
  EveryClick-append [] vs h k = k
  EveryClick-append (w ∷ ws) vs h k =
      let rest =
        EveryClick-append ws vs (record { at = All-append-right P (click w) (clicks ws) h.at }) k in
      record {
        at =
            All-append P (click w) (clicks (ws ++ vs))
              (All-append-left P (click w) (clicks ws) h.at) rest.at;
      }

  pub EveryClick-each :
      {A : Type 0} (f : A → List (Widget E)) (xs : List A)
      → ((x : A) → EveryClick P (f x))
      → EveryClick P (each f xs)
  EveryClick-each f [] h = EveryClick-nil
  EveryClick-each f (x ∷ xs) h = EveryClick-append (f x) (each f xs) (h x) (EveryClick-each f xs h)

  -- The same with what the element's membership gives.
  pub EveryClick-each-In :
      {A : Type 0} (f : A → List (Widget E)) (xs : List A)
      → ((x : A) → In x xs → EveryClick P (f x))
      → EveryClick P (each f xs)
  EveryClick-each-In f [] h = EveryClick-nil
  EveryClick-each-In f (x ∷ xs) h =
      EveryClick-append (f x) (each f xs) (h x (inl refl))
        (EveryClick-each-In f xs (λ y m. h y (inr m)))

  pub EveryClick-when :
      (b : Bool) (ws : List (Widget E)) → (b ≡ true → EveryClick P ws) → EveryClick P (when b ws)
  EveryClick-when true ws h = h refl
  EveryClick-when false ws h = EveryClick-nil

  pub EveryClick-if :
      (b : Bool) (ws vs : List (Widget E))
      → EveryClick P ws
      → EveryClick P vs
      → EveryClick P (if b then ws else vs)
  EveryClick-if true ws vs h k = h
  EveryClick-if false ws vs h k = k

  pub EveryClick-choice :
      (b : Bool) (ws vs : List (Widget E))
      → (b ≡ true → EveryClick P ws)
      → EveryClick P vs
      → EveryClick P (if b then ws else vs)
  EveryClick-choice true ws vs h k = h refl
  EveryClick-choice false ws vs h k = k

  pub EveryClick-button :
      (label : Text) (disabled : Bool) (e : E) (ws : List (Widget E))
      → P e
      → EveryClick P ws
      → EveryClick P (button label disabled e ∷ ws)
  EveryClick-button label true e ws p h = record { at = h.at }
  EveryClick-button label false e ws p h = record { at = (p, h.at) }

  -- A button whose event counts only while the button is enabled.
  pub EveryClick-guarded :
      (label : Text) (disabled : Bool) (e : E) (ws : List (Widget E))
      → (disabled ≡ false → P e)
      → EveryClick P ws
      → EveryClick P (button label disabled e ∷ ws)
  EveryClick-guarded label true e ws p h = record { at = h.at }
  EveryClick-guarded label false e ws p h = record { at = (p refl, h.at) }

  pub EveryClick-tab :
      (label : Text) (chosen : Bool) (e : E) (ws : List (Widget E))
      → P e
      → EveryClick P ws
      → EveryClick P (tab label chosen e ∷ ws)
  EveryClick-tab label chosen e ws p h = record { at = (p, h.at) }

  pub EveryClick-words :
      (t : String) (ws : List (Widget E)) → EveryClick P ws → EveryClick P (words t ∷ ws)
  EveryClick-words t ws h = record { at = h.at }

  pub EveryClick-text :
      (t : Text) (ws : List (Widget E)) → EveryClick P ws → EveryClick P (text t ∷ ws)
  EveryClick-text t ws h = record { at = h.at }

  pub EveryClick-badge :
      (v : Variant) (t : String) (ws : List (Widget E))
      → EveryClick P ws
      → EveryClick P (badge v t ∷ ws)
  EveryClick-badge v t ws h = record { at = h.at }

  pub EveryClick-link :
      (to t : String) (ws : List (Widget E)) → EveryClick P ws → EveryClick P (link to t ∷ ws)
  EveryClick-link to t ws h = record { at = h.at }

  pub EveryClick-input :
      (t : Text) (f : Text → E) (ws : List (Widget E))
      → EveryClick P ws
      → EveryClick P (input t f ∷ ws)
  EveryClick-input t f ws h = record { at = h.at }

  pub EveryClick-skeleton :
      (n : ℕ) (ws : List (Widget E)) → EveryClick P ws → EveryClick P (skeleton n ∷ ws)
  EveryClick-skeleton n ws h = record { at = h.at }

pub ruleset click_rules = (
  EveryClick-nil, EveryClick-append, EveryClick-each, EveryClick-when, EveryClick-if,
  EveryClick-button, EveryClick-tab, EveryClick-words, EveryClick-text, EveryClick-badge,
  EveryClick-link, EveryClick-input, EveryClick-skeleton,
)

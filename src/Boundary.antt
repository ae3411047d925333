-- ===== src/Boundary.antt =====
-- frontend/src/components/ErrorBoundary.tsx. `Thrown` is the type of what a rendering may throw,
-- `truthy` the test of `if (this.state.error)` and `message` the field of that name.
use crag_project.Base.{
  Bool, true, false, Option, none, some, List, [], ◌∷◌, foldl, ◌≡◌, refl, ◌∙◌, ap, any,
  if◌then◌else◌,
}
use crag_project.Text.{Text, codes}
use crag_project.Ui.{Widget, words, text, button}

pub data BoundaryEvent (Thrown : Type 0) : Type 0 where
  -- `getDerivedStateFromError`
  crashed : Thrown → BoundaryEvent Thrown
  try_again : BoundaryEvent Thrown
  -- `window.location.assign('/dashboard')`, which leaves the state as it is
  back_to_dashboard : BoundaryEvent Thrown

module _ {Thrown : Type 0} where
  -- The state is `error`.
  unfoldable pub step : Option Thrown → BoundaryEvent Thrown → Option Thrown
  step error (crashed e) = some e
  step error try_again = none
  step error back_to_dashboard = error

  unfoldable pub run : List (BoundaryEvent Thrown) → Option Thrown
  run events = foldl step none events

  module _ (truthy : Thrown → Bool) (message : Thrown → Text) where
    unfoldable pub crash_card : Thrown → List (Widget (BoundaryEvent Thrown))
    crash_card e =
        words "Something went wrong"
        ∷ words "This page crashed"
        ∷ text (message e)
        ∷ button (codes "Try again") false try_again
        ∷ button (codes "Back to dashboard") false back_to_dashboard
        ∷ []

    -- `render`
    unfoldable pub render :
        Option Thrown → List (Widget (BoundaryEvent Thrown)) → List (Widget (BoundaryEvent Thrown))
    render none children = children
    render (some e) children = if truthy e then crash_card e else children

  -- Does the event set the state?
  abbrev pub decides : BoundaryEvent Thrown → Bool
  decides (crashed e) = true
  decides try_again = true
  decides back_to_dashboard = false

  -- The crash that no later click on `Try again` and no later crash has replaced.
  abbrev pub last_crash : List (BoundaryEvent Thrown) → Option Thrown
  last_crash [] = none
  last_crash (crashed e ∷ events) = if any decides events then last_crash events else some e
  last_crash (try_again ∷ events) = last_crash events
  last_crash (back_to_dashboard ∷ events) = last_crash events

  last_crash_lem :
      (events : List (BoundaryEvent Thrown))
      → (if any decides events then last_crash events else none) ≡ last_crash events
  last_crash_lem [] = refl
  last_crash_lem (crashed e ∷ events) = refl
  last_crash_lem (try_again ∷ events) = refl
  last_crash_lem (back_to_dashboard ∷ events) = last_crash_lem events

  foldl-step :
      (events : List (BoundaryEvent Thrown)) (o : Option Thrown)
      → foldl step o events ≡ (if any decides events then last_crash events else o)
  unfolding step
  foldl-step [] o = refl
  foldl-step (crashed e ∷ events) o = foldl-step events (some e)
  foldl-step (try_again ∷ events) o = foldl-step events none ∙ last_crash_lem events
  foldl-step (back_to_dashboard ∷ events) o = foldl-step events o

  -- After any sequence of crashes and clicks the boundary shows the card of the last crash that no later
  -- click on `Try again` has cleared, and the page itself if there is none.
  pub render-run :
      (truthy : Thrown → Bool) (message : Thrown → Text) (events : List (BoundaryEvent Thrown))
      (children : List (Widget (BoundaryEvent Thrown)))
      → render truthy message (run events) children
        ≡ render truthy message (last_crash events) children
  unfolding run
  render-run truthy message events children =
      ap (λ o. render truthy message o children) (foldl-step events none ∙ last_crash_lem events)

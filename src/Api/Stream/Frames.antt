-- ===== src/Api/Stream/Frames.antt =====
-- Frames as the server writes them (`data: <payload>` and an empty line), read by `streamChat`.
use mathlib.Core.List.{flatten}
use crag_project.Base.{
  ℕ, ◌≡◌, refl, ap, ◌∙◌, ◌≢◌, Option, none, some, List, [], ◌∷◌, ◌++◌, foldl, map, All, arith, true,
  false, drop,
}
use crag_project.Text.{Text, codes, is_empty, starts_with, is_space, trim}
use crag_project.Text.Trim.{IsTight, trim-append_IsTight, trim-space_IsTight}
use crag_project.Text.Split.{Lacks}
use crag_project.Text.Lines.{nl, cut, cut-nil, cut-nl, cut-cons, push_first}
use crag_project.Api.Stream.{
  StreamEvent, TextDecoder, chunk, broken, resolved, rejected, on_line, read_loop,
}
use crag_project.Api.Stream.Chunks.{IsStreaming, read_loop-lines, read_loop-broken}

abbrev pub data_line : Text → Text
data_line p = codes "data: " ++ p

abbrev pub frame : Text → Text
frame p = data_line p ++ (nl ∷ nl ∷ [])

-- The text of a stream with these payloads.
abbrev pub wire : List Text → Text
wire [] = []
wire (p ∷ ps) = data_line p ++ (nl ∷ nl ∷ wire ps)

-- A payload as the server writes it: no line feed, no white space at its ends, not empty.
pub record IsPayload (p : Text) : Type 0 where
  pub one_line : Lacks nl p
  pub tight : IsTight p

cut-line : (l t : Text) → Lacks nl l → cut (l ++ (nl ∷ t)) ≡ (l ∷ (cut t).0, (cut t).1)
cut-line [] t h = cut-nl t
cut-line (x ∷ l) t (n, h) =
    rw (cut-cons x (l ++ (nl ∷ t)) (ground arith), cut-line l t h) (unfold push_first in refl)

lines_of : List Text → List Text
lines_of [] = []
lines_of (p ∷ ps) = data_line p ∷ [] ∷ lines_of ps

data_line-Lacks : (p : Text) → Lacks nl p → Lacks nl (data_line p)
data_line-Lacks p h =
    (omega arith, (omega arith, (omega arith, (omega arith, (omega arith, (omega arith, h))))))

cut-wire : (ps : List Text) → All IsPayload ps → cut (wire ps) ≡ (lines_of ps, [])
unfolding lines_of
cut-wire [] h = cut-nil
cut-wire (p ∷ ps) (c, h) =
    rw
      (
        cut-line (data_line p) (nl ∷ wire ps) (data_line-Lacks p c.one_line),
        cut-nl (wire ps),
        cut-wire ps h,
      )
      refl

is_empty-nonempty : (p : Text) → p ≢ [] → is_empty p ≡ false
is_empty-nonempty [] h = absurd (h refl)
is_empty-nonempty (x ∷ p) h = refl

module _ {M S : Type 0} (parse : Text → Option (StreamEvent M))
    (on_event : S → StreamEvent M → S) where
  -- What one payload is to do: its event is reported, or nothing is if it does not parse.
  abbrev pub report : S → Text → S
  report s p = elim (parse p) [ none ↦ s | some e ↦ on_event s e ]

  on_line-empty : (s : S) → on_line parse on_event s [] ≡ s
  unfolding on_line
  on_line-empty s = refl

  on_line-reports :
      (s : S) (line p : Text)
      → trim line ≡ line
      → starts_with line (codes "data:") ≡ true
      → trim (drop 5 line) ≡ p
      → is_empty p ≡ false
      → on_line parse on_event s line ≡ report s p
  unfolding on_line
  on_line-reports s line p t d e n = rw t (rw d (rw e (rw n refl)))

  on_line-data_line :
      (s : S) (p : Text) → IsTight p → on_line parse on_event s (data_line p) ≡ report s p
  on_line-data_line s p h =
      on_line-reports s (data_line p) p
        (trim-append_IsTight b'd' (codes "ata: ") p (unfold is_space in refl) h)
        (unfold starts_with in refl) (trim-space_IsTight p h) (is_empty-nonempty p h.nonempty)

  foldl-lines_of :
      (s : S) (ps : List Text)
      → All IsPayload ps
      → foldl (on_line parse on_event) s (lines_of ps) ≡ foldl report s ps
  unfolding lines_of
  foldl-lines_of s [] h = refl
  foldl-lines_of s (p ∷ ps) (c, h) =
      let read = λ (t : S). foldl (on_line parse on_event) t (lines_of ps) in
      ap (λ t. read (on_line parse on_event t [])) (on_line-data_line s p c.tight)
      ∙ (ap read (on_line-empty (report s p)) ∙ foldl-lines_of (report s p) ps h)

  -- A stream whose bytes, in whatever chunks, decode to the frames of some payloads, each on one
  -- line without white space at its ends, reports each payload's event once, in order. The decoder
  -- is taken to decode pieces to the text of the whole.
  pub read_loop-wire :
      (decoder : TextDecoder)
      → IsStreaming decoder
      → (chunks : List (List ℕ)) (ps : List Text) (s : S) → All IsPayload ps
      → (decoder.decode decoder.start (flatten chunks)).0 ≡ wire ps
      → read_loop parse on_event decoder decoder.start [] (map chunk chunks) s
        ≡ resolved (foldl report s ps)
  read_loop-wire decoder streaming chunks ps s h same =
      read_loop-lines parse on_event decoder streaming chunks s
      ∙ rw (same, cut-wire ps h) (ap resolved (foldl-lines_of s ps h))

  -- The same, if the connection breaks after these chunks: the events of the frames before that are
  -- reported, and the promise is rejected.
  pub read_loop-wire_broken :
      (decoder : TextDecoder)
      → IsStreaming decoder
      → (chunks : List (List ℕ)) (ps : List Text) (s : S) → All IsPayload ps
      → (decoder.decode decoder.start (flatten chunks)).0 ≡ wire ps
      → read_loop parse on_event decoder decoder.start [] (map chunk chunks ++ broken ∷ []) s
        ≡ rejected (foldl report s ps)
  read_loop-wire_broken decoder streaming chunks ps s h same =
      read_loop-broken parse on_event decoder streaming chunks s
      ∙ rw (same, cut-wire ps h) (ap rejected (foldl-lines_of s ps h))

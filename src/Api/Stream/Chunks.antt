-- ===== src/Api/Stream/Chunks.antt =====
-- How the bytes of a stream are cut into chunks makes no difference.
use mathlib.Core.List.{foldl-append, append_assoc, append-nil, flatten}
use crag_project.Base.{ℕ, ◌≡◌, refl, sym, ap, ◌∙◌, Option, List, [], ◌∷◌, ◌++◌, foldl, map}
use crag_project.Text.{Text}
use crag_project.Text.Lines.{cut, cut-nil, cut-append, cut-rest}
use crag_project.Api.Stream.{
  StreamEvent, TextDecoder, Read, chunk, broken, rejected, Outcome, resolved, on_line, read_loop,
}

-- What `{ stream: true }` promises: bytes in pieces decode to the text of the whole.
pub record IsStreaming (d : TextDecoder) : Type 0 where
  pub decode-nil : (s : d.State) → d.decode s [] ≡ ([], s)
  pub decode-append :
      (s : d.State) (a b : List ℕ)
      → d.decode s (a ++ b)
        ≡ ((d.decode s a).0 ++ (d.decode (d.decode s a).1 b).0, (d.decode (d.decode s a).1 b).1)

module _ {M S : Type 0} (parse : Text → Option (StreamEvent M)) (on_event : S → StreamEvent M → S)
    (decoder : TextDecoder) where
  open decoder use {State, start, decode}

  -- The state of the loop when the decoder has read some bytes.
  abbrev resume : State → Text → List ℕ → List Read → S → Outcome S
  resume d buffer bytes reads s =
      let text = buffer ++ (decode d bytes).0 in
      read_loop parse on_event decoder (decode d bytes).1 (cut text).1 reads
        (foldl (on_line parse on_event) s (cut text).0)

  read_loop-chunk :
      (d : State) (buffer : Text) (c : List ℕ) (reads : List Read) (s : S)
      → read_loop parse on_event decoder d buffer (chunk c ∷ reads) s ≡ resume d buffer c reads s
  unfolding read_loop cut
  read_loop-chunk d buffer c reads s = refl

  module _ (streaming : IsStreaming decoder) where
    resume-append :
        (d : State) (buffer : Text) (a b : List ℕ) (reads : List Read) (s : S)
        → let text = buffer ++ (decode d a).0 in
          resume (decode d a).1 (cut text).1 b reads (foldl (on_line parse on_event) s (cut text).0)
          ≡ resume d buffer (a ++ b) reads s
    resume-append d buffer a b reads s =
        let t = buffer ++ (decode d a).0 in
        let u = (decode (decode d a).1 b).0 in
        rw (streaming.decode-append d a b, ← append_assoc buffer (decode d a).0 u, cut-append t u)
          (rw (foldl-append (on_line parse on_event) s (cut t).0 (cut ((cut t).1 ++ u)).0) refl)

    read_loop-resume :
        (d : State) (buffer : Text) (chunks : List (List ℕ)) (reads : List Read) (s : S)
        → cut buffer ≡ ([], buffer)
        → read_loop parse on_event decoder d buffer (map chunk chunks ++ reads) s
          ≡ resume d buffer (flatten chunks) reads s
    unfolding flatten
    read_loop-resume d buffer [] reads s h = rw (streaming.decode-nil d) (rw (append-nil, h) refl)
    read_loop-resume d buffer (c ∷ cs) reads s h =
        let text = buffer ++ (decode d c).0 in
        read_loop-chunk d buffer c (map chunk cs ++ reads) s
        ∙ (read_loop-resume (decode d c).1 (cut text).1 cs reads
              (foldl (on_line parse on_event) s (cut text).0) (cut-rest text)
            ∙ resume-append d buffer c (flatten cs) reads s)

    -- Two ways to cut the same bytes into chunks have the same outcome, whatever follows them, if
    -- the decoder decodes pieces to the text of the whole.
    pub read_loop-flatten :
        (chunks chunks' : List (List ℕ)) (reads : List Read) (s : S)
        → flatten chunks ≡ flatten chunks'
        → read_loop parse on_event decoder start [] (map chunk chunks ++ reads) s
          ≡ read_loop parse on_event decoder start [] (map chunk chunks' ++ reads) s
    read_loop-flatten chunks chunks' reads s same =
        read_loop-resume start [] chunks reads s cut-nil
        ∙ (ap (λ bytes. resume start [] bytes reads s) same
            ∙ sym (read_loop-resume start [] chunks' reads s cut-nil))

    -- A stream that ends after these chunks has reported the events of the complete lines of its
    -- text, in order; what stands behind the last line feed is dropped.
    pub read_loop-lines :
        (chunks : List (List ℕ)) (s : S)
        → read_loop parse on_event decoder start [] (map chunk chunks) s
          ≡ resolved (foldl (on_line parse on_event) s (cut (decode start (flatten chunks)).0).0)
    read_loop-lines chunks s =
        ap (λ reads. read_loop parse on_event decoder start [] reads s)
          (sym (append-nil (map chunk chunks)))
        ∙ (read_loop-resume start [] chunks [] s cut-nil ∙ unfold read_loop in refl)

    -- The same, if the connection breaks after these chunks.
    pub read_loop-broken :
        (chunks : List (List ℕ)) (s : S)
        → read_loop parse on_event decoder start [] (map chunk chunks ++ broken ∷ []) s
          ≡ rejected (foldl (on_line parse on_event) s (cut (decode start (flatten chunks)).0).0)
    read_loop-broken chunks s =
        read_loop-resume start [] chunks (broken ∷ []) s cut-nil ∙ unfold read_loop in refl

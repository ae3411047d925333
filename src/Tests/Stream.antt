-- ===== src/Tests/Stream.antt =====
-- The layers below the pages at concrete inputs: cookies, the CSRF token, the stream.
use mathlib.Core.List.{flatten}
use crag_project.Base.{ℕ, none, some, List, [], ◌∷◌, ◌++◌, ◌+◌, ◌≡◌, refl, map, foldl, arith}
use crag_project.Text.{Text, codes, trim_start, trim_end, is_space}
use crag_project.Text.Trim.{IsTight}
use crag_project.Api.Csrf.{RequestConfig, intercept, Sends, intercept-Sends}
use crag_project.Api.Stream.{StreamEvent, read_loop, chunk, resolved}
use crag_project.Api.Stream.Chunks.{read_loop-flatten}
use crag_project.Api.Stream.Frames.{IsPayload, report, read_loop-wire}
use crag_project.Format.{size_of, IsNear, IsScaled, size_of-IsNear}
use crag_project.Tests.Data.{ChatMessage, parse, decoder, decoder-IsStreaming, no_reply, jar}
use crag_project.Api.Cookie.{read_cookie}
use crag_project.Api.Cookie.Laws.{jar_of, lookup, read_cookie-jar_of}

abbrev count : ℕ → StreamEvent ChatMessage → ℕ
count n e = 1 + n

abbrev pub payload : Text
payload = codes "D"

payload-IsTight : IsTight payload
payload-IsTight = record {
  starts = unfold trim_start is_space in refl;
  ends = unfold trim_end is_space in refl;
  nonempty = λ e. ground (arith, e);
}

pub payload-IsPayload : IsPayload payload
payload-IsPayload = record { one_line = (omega arith, tt); tight = payload-IsTight }

abbrev pub end_payload : Text
end_payload = codes "E"

end_payload-IsTight : IsTight end_payload
end_payload-IsTight = record {
  starts = unfold trim_start is_space in refl;
  ends = unfold trim_end is_space in refl;
  nonempty = λ e. ground (arith, e);
}

pub end_payload-IsPayload : IsPayload end_payload
end_payload-IsPayload = record { one_line = (omega arith, tt); tight = end_payload-IsTight }

read_loop-flatten_example :
    read_loop parse count decoder tt [] (map chunk (codes "data: D\n" ∷ []) ++ []) 0
    ≡ read_loop parse count decoder tt [] (map chunk (codes "da" ∷ codes "ta: D\n" ∷ []) ++ []) 0
read_loop-flatten_example =
    read_loop-flatten parse count decoder decoder-IsStreaming (codes "data: D\n" ∷ [])
      (codes "da" ∷ codes "ta: D\n" ∷ []) [] 0 (unfold flatten in refl)

read_loop-wire_example :
    read_loop parse count decoder tt []
      (map chunk (codes "da" ∷ codes "ta: D\n\ndata: D\n\n" ∷ []))
      0
    ≡ resolved (foldl (report parse count) 0 (payload ∷ payload ∷ []))
read_loop-wire_example =
    read_loop-wire parse count decoder decoder-IsStreaming
      (codes "da" ∷ codes "ta: D\n\ndata: D\n\n" ∷ []) (payload ∷ payload ∷ []) 0
      (payload-IsPayload, (payload-IsPayload, tt)) (unfold flatten in refl)

abbrev cookies : List (Text × Text)
cookies = (codes "a", codes "1") ∷ (codes "b", codes "x=y") ∷ []

abbrev post : RequestConfig
post = record { method = some (codes "POST"); url = codes "/documents"; csrf_header = none }

intercept-Sends_example : Sends no_reply jar post (intercept no_reply jar 2 post)
intercept-Sends_example = intercept-Sends no_reply jar 0 post

size_of-IsNear_example : IsNear 1536 (size_of 1536) × IsScaled (size_of 1536)
size_of-IsNear_example = size_of-IsNear 1536

read_cookie-jar_of_example : read_cookie (codes "b") (jar_of cookies) ≡ lookup (codes "b") cookies
read_cookie-jar_of_example =
    read_cookie-jar_of (codes "b") cookies (omega arith, tt)
      (
        record {
          plain_name = (omega arith, tt);
          no_separator = (omega arith, (omega arith, (omega arith, tt)));
        },
        (
          record {
            plain_name = (omega arith, tt);
            no_separator =
                (omega arith, (omega arith, (omega arith, (omega arith, (omega arith, tt)))));
          },
          tt,
        ),
      )

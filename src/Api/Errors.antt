-- ===== src/Api/Errors.antt =====
-- What the pages read of a failed request: the status and the `detail` of an axios error.
use crag_project.Base.{ℕ, Option, none, some, String}
use crag_project.Text.{Text, codes}

-- The `detail` field of a response's body, which need not be a string.
pub data Detail : Type 0 where
  absent : Detail
  text : Text → Detail
  other : Detail

pub record ErrorResponse : Type 0 where
  pub status : ℕ
  pub detail : Detail

-- A rejected call: an `AxiosError`, with a response if the server gave one, or anything else.
pub data ApiError : Type 0 where
  axios_error : Option ErrorResponse → ApiError
  other_error : ApiError

-- err instanceof AxiosError ? err.response?.data?.detail : undefined
unfoldable pub error_detail : ApiError → Detail
error_detail (axios_error (some r)) = r.detail
error_detail (axios_error none) = absent
error_detail other_error = absent

-- typeof detail === 'string' ? detail : fallback
unfoldable pub detail_or : String → ApiError → Text
unfolding error_detail
detail_or fallback err = elim (error_detail err) [
  | text d ↦ d
  | absent ↦ codes fallback
  | other ↦ codes fallback
]

-- err instanceof AxiosError ? err.response?.status : undefined
unfoldable pub error_status : ApiError → Option ℕ
error_status (axios_error (some r)) = some r.status
error_status (axios_error none) = none
error_status other_error = none

-- How an awaited call ends.
pub data Reply (A : Type 0) : Type 0 where
  ok : A → Reply A
  failed : ApiError → Reply A

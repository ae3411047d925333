-- ===== src/Server/Csrf.antt =====
-- src/auth/cookies.py and the handler of `GET /auth/csrf` in src/api/routers/auth.py: the token for
-- the double submission. The token is generated by a library, and so an argument.
use crag_project.Text.{Text, codes}

-- `CSRF_COOKIE`
abbrev pub csrf_cookie : Text
csrf_cookie = codes "rag_csrf"

-- The body of the answer, and the name and value of the cookie that it sets.
pub record CsrfAnswer : Type 0 where
  pub csrf_token : Text
  pub cookie : Text × Text

-- `get_csrf_token`, with `set_csrf_cookie`
unfoldable pub get_csrf_token : Text → CsrfAnswer
get_csrf_token generated = record { csrf_token = generated; cookie = (csrf_cookie, generated) }

-- ===== src/Api/Csrf.antt =====
-- The request interceptor of frontend/src/lib/api.ts. Requests go through it before they are sent;
-- `GET /auth/csrf`, which it makes itself, goes through it too.
use mathlib.Core.Path.{subst}
use crag_project.Base.{
  Bool, true, false, ◌||◌, Option, none, some, get_or, map, if◌then◌else◌, ℕ, zero, suc, ◌+◌, leb,
  ◌&&◌, ◌≡◌, refl, arith, sym, ◌∙◌, ◌⊎◌, inl, inr, [], ◌∷◌, Bool-cases,
}
use crag_project.Text.{Text, codes, text_eq, is_empty, text_eq_iff}
use crag_project.Api.Cookie.{read_cookie}

-- The part of an axios request that the interceptor reads and writes.
pub record RequestConfig : Type 0 where
  pub method : Option Text
  pub url : Text
  pub csrf_header : Option Text

-- `String.prototype.toLowerCase` on the letters of a method's name, which are ASCII.
unfoldable pub to_lower : ℕ → ℕ
to_lower c = if leb b'A' c && leb c b'Z' then c + 32 else c

-- The methods that need no token.
unfoldable pub is_read_only : Option Text → Bool
unfolding to_lower
is_read_only method =
    let name = map to_lower (get_or method (codes "get")) in
    text_eq name (codes "get") || text_eq name (codes "head") || text_eq name (codes "options")

-- `!token`
unfoldable pub is_missing : Option Text → Bool
is_missing none = true
is_missing (some t) = is_empty t

abbrev pub csrf_request : RequestConfig
csrf_request = record { method = some (codes "get"); url = codes "/auth/csrf"; csrf_header = none }

infixl 5 ◌>>=◌
abbrev pub ◌>>=◌ {ℓ κ} : {A : Type ℓ} {B : Type κ} → Option A → (A → Option B) → Option B
none >>= k = none
some a >>= k = k a

-- `reply` is the token in the server's answer to a call, `none` if the call fails; `jar` is
-- `document.cookie`.
module _ (reply : RequestConfig → Option Text) (jar : Text) where
  -- `readCookie('rag_csrf')`, and the call for a token where that is missing
  unfoldable pub token_or : Option Text → Option Text
  unfolding read_cookie is_missing
  token_or asked =
      let token = read_cookie (codes "rag_csrf") jar in if is_missing token then asked else token

  -- The request as it is sent, `none` if it fails before that. A request that the interceptor makes
  -- runs through it again, with one unit of fuel less.
  unfoldable pub intercept : ℕ → RequestConfig → Option RequestConfig
  unfolding is_read_only token_or
  intercept zero config = none
  intercept (suc depth) config = elim (is_read_only config.method) [
    | true ↦ some config
    | false ↦ do
      token ← token_or (do call ← intercept depth csrf_request; reply call)
      some (record config { csrf_header = some token })
  ]

  -- `api.get('/auth/csrf')`
  unfoldable pub get_csrf : Option Text
  unfolding intercept
  get_csrf = do call ← intercept 2 csrf_request; reply call

  -- What the interceptor is to do: a request that only reads goes out as it is, any other with the
  -- cookie's token, or with the one that the server gives to a plain `GET /auth/csrf`.
  unfoldable pub protected : RequestConfig → Option RequestConfig
  unfolding is_read_only token_or
  protected config = if is_read_only config.method then some config else do
    token ← token_or (reply csrf_request)
    some (record config { csrf_header = some token })

  -- A depth of two calls is enough, and more changes nothing.
  intercept-eq-protected :
      (depth : ℕ) (config : RequestConfig) → intercept (suc (suc depth)) config ≡ protected config
  unfolding intercept protected
  intercept-eq-protected depth config = ground arith

  pub get_csrf-eq : get_csrf ≡ reply csrf_request
  unfolding get_csrf
  get_csrf-eq = refl

  -- `protected` by what it looks at.
  outcome : RequestConfig → Bool → Option Text → Option Text → Option RequestConfig
  outcome config true found asked = some config
  outcome config false found asked = do
    token ← if is_missing found then asked else found
    some (record config { csrf_header = some token })

  protected-outcome :
      (config : RequestConfig)
      → protected config
        ≡ outcome config
            (is_read_only config.method)
            (read_cookie (codes "rag_csrf") jar)
            (reply csrf_request)
  unfolding protected outcome
  protected-outcome config =
      elim (is_read_only config.method)
        as (λ b.
          (if b then some config else do
            token ← token_or (reply csrf_request)
            some (record config { csrf_header = some token }))
          ≡ outcome config b (read_cookie (codes "rag_csrf") jar) (reply csrf_request)) [
            | true ↦ refl
            | false ↦ refl
          ]

-- The method's name in small letters, "get" where there is none.
abbrev pub method_name : RequestConfig → Text
method_name config = map to_lower (get_or config.method (codes "get"))

abbrev pub IsReading : RequestConfig → Type 0
IsReading config =
    (method_name config ≡ codes "get")
    ⊎ ((method_name config ≡ codes "head") ⊎ (method_name config ≡ codes "options"))

-- What the interceptor is to send for a request, `none` if nothing: by the request's method, the token's
-- cookie and the server's answer to a plain `GET /auth/csrf`.
pub data Sends (reply : RequestConfig → Option Text) (jar : Text) (config : RequestConfig)
    : Option RequestConfig → Type 0 where
  unchanged : IsReading config → Sends reply jar config (some config)
  echoed :
      (x : ℕ) (token : Text)
      → ¬ IsReading config
      → read_cookie (codes "rag_csrf") jar ≡ some (x ∷ token)
      → Sends reply jar config (some (record config { csrf_header = some (x ∷ token) }))
  asked :
      (token : Text)
      → ¬ IsReading config
      → (read_cookie (codes "rag_csrf") jar ≡ none) ⊎ (read_cookie (codes "rag_csrf") jar ≡ some [])
      → reply csrf_request ≡ some token
      → Sends reply jar config (some (record config { csrf_header = some token }))
  refused :
      ¬ IsReading config
      → (read_cookie (codes "rag_csrf") jar ≡ none) ⊎ (read_cookie (codes "rag_csrf") jar ≡ some [])
      → reply csrf_request ≡ none
      → Sends reply jar config none

is_read_only-IsReading :
    (config : RequestConfig) → is_read_only config.method ≡ true → IsReading config
unfolding is_read_only
is_read_only-IsReading config h = elim (Bool-cases (text_eq (method_name config) (codes "get"))) [
  | inl e ↦ inl ((text_eq_iff (method_name config) (codes "get")).0 e)
  | inr n ↦ elim (Bool-cases (text_eq (method_name config) (codes "head"))) [
    | inl e ↦ inr (inl ((text_eq_iff (method_name config) (codes "head")).0 e))
    | inr k ↦ inr (inr ((text_eq_iff (method_name config) (codes "options")).0 (ground arith)))
  ]
]

IsReading-is_read_only :
    (config : RequestConfig) → IsReading config → is_read_only config.method ≡ true
unfolding is_read_only
IsReading-is_read_only config (inl e) =
    let h = (text_eq_iff (method_name config) (codes "get")).1 e in ground arith
IsReading-is_read_only config (inr (inl e)) =
    let h = (text_eq_iff (method_name config) (codes "head")).1 e in ground arith
IsReading-is_read_only config (inr (inr e)) =
    let h = (text_eq_iff (method_name config) (codes "options")).1 e in ground arith

not-IsReading : (config : RequestConfig) → is_read_only config.method ≡ false → ¬ IsReading config
not-IsReading config h r = let e = IsReading-is_read_only config r in cc

module _ (reply : RequestConfig → Option Text) (jar : Text) where
  outcome-Sends :
      (config : RequestConfig) (b : Bool) (found answered : Option Text)
      → is_read_only config.method ≡ b
      → read_cookie (codes "rag_csrf") jar ≡ found
      → reply csrf_request ≡ answered
      → Sends reply jar config (outcome reply jar config b found answered)
  unfolding outcome is_missing
  outcome-Sends config true found answered m c r = unchanged (is_read_only-IsReading config m)
  outcome-Sends config false (some (x ∷ token)) answered m c r =
      echoed x token (not-IsReading config m) c
  outcome-Sends config false none none m c r = refused (not-IsReading config m) (inl c) r
  outcome-Sends config false none (some t) m c r = asked t (not-IsReading config m) (inl c) r
  outcome-Sends config false (some []) none m c r = refused (not-IsReading config m) (inr c) r
  outcome-Sends config false (some []) (some t) m c r = asked t (not-IsReading config m) (inr c) r

  -- The interceptor, which goes through itself for the call that asks for a token, sends a request
  -- whose method is get, head or options in whatever letters, or missing, as it is; any other with the
  -- token of the cookie `rag_csrf`, or, if that is missing or empty, with the one that the server gives
  -- to `GET /auth/csrf`; and if the server gives none either, it sends nothing. A depth of two calls
  -- is enough, and more changes nothing.
  pub intercept-Sends :
      (depth : ℕ) (config : RequestConfig)
      → Sends reply jar config (intercept reply jar (suc (suc depth)) config)
  intercept-Sends depth config =
      subst (Sends reply jar config)
        (sym (intercept-eq-protected reply jar depth config ∙ protected-outcome reply jar config))
        (outcome-Sends config _ _ _ refl refl refl)

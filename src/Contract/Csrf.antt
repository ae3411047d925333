-- ===== src/Contract/Csrf.antt =====
-- The token that the client sends along, against the server's check.
use crag_project.Base.{
  ℕ, suc, Bool, true, false, not, ◌&&◌, Option, none, some, List, [], ◌∷◌, ◌==◌, if◌then◌else◌, ◌≡◌,
  refl, arith, ==_iff, ◌∙◌, ap, any, sym, get_or, map, leb, ◌-◌, absurd_bool, split_and, inl, inr,
  ◌⊎◌, ◌≢◌, All,
}
use crag_project.Text.{Text, codes, is_empty, text_eq, text_eq_iff}
use crag_project.Api.Cookie.{read_cookie}
use crag_project.Api.Cookie.Laws.{jar_of, lookup, IsCookie, read_cookie-jar_of}
use crag_project.Api.Csrf.{
  RequestConfig, to_lower, is_missing, intercept, csrf_request, method_name, IsReading, Sends,
  unchanged, echoed, asked, intercept-Sends,
}
use crag_project.Server.Csrf.{csrf_cookie, get_csrf_token}

-- A method as it goes over the wire.
abbrev to_upper : ℕ → ℕ
to_upper c = if leb b'a' c && leb c b'z' then c - 32 else c

unfoldable pub wire_method : Option Text → Text
wire_method m = map to_upper (get_or m (codes "get"))

unfoldable pub is_safe : Text → Bool
is_safe m = any (text_eq m) (codes "GET" ∷ codes "HEAD" ∷ codes "OPTIONS" ∷ codes "TRACE" ∷ [])

-- `validate_csrf` of src/auth/deps.py: the method, the cookie and the header; does it let the request pass?
unfoldable pub validate_csrf : Text → Option Text → Option Text → Bool
unfolding is_safe is_missing
validate_csrf m cookie header =
    if is_safe m
    then true
    else not (is_missing cookie)
      && not (is_missing header)
      && text_eq (get_or cookie []) (get_or header [])

upper_lower : (c x : ℕ) → to_lower c ≡ x → to_upper c ≡ to_upper x
unfolding to_lower
upper_lower c x h = ground arith

map-upper : (t w : Text) → text_eq (map to_lower t) w ≡ true → map to_upper t ≡ map to_upper w
unfolding to_lower
map-upper [] [] h = refl
map-upper [] (x ∷ w) h = absurd_bool h
map-upper (c ∷ t) [] h = absurd_bool h
map-upper (c ∷ t) (x ∷ w) h =
    let (this, rest) = split_and (to_lower c == x) (text_eq (map to_lower t) w) h in
    ap (λ k. k ∷ map to_upper t) (upper_lower c x ((==_iff (to_lower c) x).0 this))
    ∙ ap (λ l. to_upper x ∷ l) (map-upper t w rest)

validate-safe :
    (m : Text) (cookie header : Option Text)
    → is_safe m ≡ true
    → validate_csrf m cookie header ≡ true
unfolding validate_csrf
validate-safe m cookie header h = rw h refl

text_eq_refl : (t : Text) → text_eq t t ≡ true
text_eq_refl t = (text_eq_iff t t).1 refl

validate-same : (m t : Text) → is_empty t ≡ false → validate_csrf m (some t) (some t) ≡ true
unfolding validate_csrf is_missing
validate-same m t h = ground (arith, text_eq_refl t)

reading_name-is_safe :
    (config : RequestConfig) (w v : Text)
    → map to_upper w ≡ v
    → is_safe v ≡ true
    → method_name config ≡ w
    → is_safe (wire_method config.method) ≡ true
unfolding wire_method
reading_name-is_safe config w v up safe e =
    ap is_safe (
      map-upper (get_or config.method (codes "get")) w ((text_eq_iff (method_name config) w).1 e)
      ∙ up)
    ∙ safe

reading-is_safe :
    (config : RequestConfig) → IsReading config → is_safe (wire_method config.method) ≡ true
unfolding is_safe
reading-is_safe config (inl e) = reading_name-is_safe config (codes "get") (codes "GET") refl refl e
reading-is_safe config (inr (inl e)) =
    reading_name-is_safe config (codes "head") (codes "HEAD") refl refl e
reading-is_safe config (inr (inr e)) =
    reading_name-is_safe config (codes "options") (codes "OPTIONS") refl refl e

some_ne_none : {A : Type 0} {a : A} → ◌≢◌ {A = Option A} (some a) none
some_ne_none e = cc

some_ne_empty : {x : ℕ} {t : Text} → some (x ∷ t) ≢ some []
some_ne_empty e = cc

some_config : (a b : RequestConfig) → some a ≡ some b → a ≡ b
some_config a b e = cc

validated :
    (config sent : RequestConfig) (token : Text) (cookie : Option Text)
    → cookie ≡ some token
    → is_empty token ≡ false
    → some (record config { csrf_header = some token }) ≡ some sent
    → validate_csrf (wire_method sent.method) cookie sent.csrf_header ≡ true
validated config sent token cookie c full e =
    ap (λ (s : RequestConfig). validate_csrf (wire_method s.method) cookie s.csrf_header)
      (sym (some_config _ _ e))
    ∙ ap (λ o. validate_csrf (wire_method config.method) o (some token)) c
    ∙ validate-same (wire_method config.method) token full

token_generated : {generated : Text} → (get_csrf_token generated).csrf_token ≡ generated
unfolding get_csrf_token
token_generated = refl

cookie_pair : {generated : Text} → (get_csrf_token generated).cookie ≡ (csrf_cookie, generated)
unfolding get_csrf_token
cookie_pair = refl

-- The browser's cookies by name, as `document.cookie` shows them. `store` is what the browser makes of
-- a cookie that an answer sets.
pub record IsCookieStore (store : Text × Text → List (Text × Text) → List (Text × Text))
    : Type 0 where
  pub kept :
      (name value : Text) (cookies : List (Text × Text))
      → lookup name (store (name, value) cookies) ≡ some value

module _ (store : Text × Text → List (Text × Text) → List (Text × Text)) (generated : Text)
    (reply : RequestConfig → Option Text) (cookies : List (Text × Text)) where
  -- The cookies once the interceptor has run: if it cannot do without an answer to its own call, the
  -- answer of `get_csrf_token` has come, and set its cookie.
  unfoldable pub cookies_after : RequestConfig → List (Text × Text)
  unfolding get_csrf_token
  cookies_after config = elim (intercept (λ c. none) (jar_of cookies) 2 config) [
    | some sent ↦ cookies
    | none ↦ store (get_csrf_token generated).cookie cookies
  ]

  -- What is left of the cookies, by what the interceptor sends while its own call fails.
  abbrev left : Option RequestConfig → List (Text × Text)
  left o = elim o [ some sent ↦ cookies | none ↦ store (get_csrf_token generated).cookie cookies ]

  echoed-left :
      (config : RequestConfig) (x : ℕ) (token : Text) {o : Option RequestConfig}
      → read_cookie (codes "rag_csrf") (jar_of cookies) ≡ some (x ∷ token)
      → Sends (λ c. none) (jar_of cookies) config o
      → left o ≡ cookies
  echoed-left config x token h (unchanged r) = refl
  echoed-left config x token h (echoed y other n c) = refl
  echoed-left config x token h (asked other n c r) = refl
  echoed-left config x token h (Sends.refused n (inl c) r) = absurd (some_ne_none (sym h ∙ c))
  echoed-left config x token h (Sends.refused n (inr c) r) = absurd (some_ne_empty (sym h ∙ c))

  asked-left :
      (config : RequestConfig) {o : Option RequestConfig}
      → ¬ IsReading config
      → (read_cookie (codes "rag_csrf") (jar_of cookies) ≡ none)
        ⊎ (read_cookie (codes "rag_csrf") (jar_of cookies) ≡ some [])
      → Sends (λ c. none) (jar_of cookies) config o
      → left o ≡ store (get_csrf_token generated).cookie cookies
  asked-left config n h (unchanged r) = absurd (n r)
  asked-left config n (inl h) (echoed y other k c) = absurd (some_ne_none (sym c ∙ h))
  asked-left config n (inr h) (echoed y other k c) = absurd (some_ne_empty (sym c ∙ h))
  asked-left config n h (asked other k c r) = cc
  asked-left config n h (Sends.refused k c r) = refl

  module _ (stored : IsCookieStore store) (proper : All IsCookie cookies)
      (given : (a : Text) → reply csrf_request ≡ some a → a ≡ (get_csrf_token generated).csrf_token)
      (nonempty : is_empty generated ≡ false) where
    sends-validate :
        (config sent : RequestConfig) {o : Option RequestConfig}
        → Sends reply (jar_of cookies) config o
        → o ≡ some sent
        → validate_csrf
            (wire_method sent.method)
            (lookup csrf_cookie (cookies_after config))
            sent.csrf_header
          ≡ true
    unfolding cookies_after
    sends-validate config sent (unchanged r) e =
        validate-safe (wire_method sent.method) _ sent.csrf_header (
          ap (λ (c : RequestConfig). is_safe (wire_method c.method)) (sym (some_config _ _ e))
          ∙ reading-is_safe config r)
    sends-validate config sent (echoed x token n c) e =
        let after =
          echoed-left config x token c (intercept-Sends (λ q. none) (jar_of cookies) 0 config) in
        ap (λ l. validate_csrf (wire_method sent.method) (lookup csrf_cookie l) sent.csrf_header)
          after
        ∙ validated config sent (x ∷ token) _
            (sym (read_cookie-jar_of (codes "rag_csrf") cookies (omega arith) proper) ∙ c) refl e
    sends-validate config sent (asked token n c r) e =
        let after = asked-left config n c (intercept-Sends (λ q. none) (jar_of cookies) 0 config) in
        ap (λ l. validate_csrf (wire_method sent.method) (lookup csrf_cookie l) sent.csrf_header)
          after
        ∙ validated config sent token _
            (ap (λ p. lookup csrf_cookie (store p cookies)) cookie_pair
              ∙ stored.kept csrf_cookie generated cookies
              ∙ ap some (sym (given token r ∙ token_generated)))
            (ap is_empty (given token r ∙ token_generated) ∙ nonempty) e
    sends-validate config sent (Sends.refused n c r) e = cc

    -- Every request that the interceptor lets out passes the server's check, by the cookies that the
    -- browser then has: it only reads, or its header echoes the cookie `rag_csrf`. The browser's
    -- cookies are taken to hold no semicolon, and no equality sign in their names, and to have the
    -- value of a cookie once it has been set; the interceptor's own call, if it is answered, gets the
    -- answer of `get_csrf_token`, whose token is not empty.
    pub intercept-validate :
        (depth : ℕ) (config sent : RequestConfig)
        → intercept reply (jar_of cookies) (suc (suc depth)) config ≡ some sent
        → validate_csrf
            (wire_method sent.method)
            (lookup csrf_cookie (cookies_after config))
            sent.csrf_header
          ≡ true
    intercept-validate depth config sent h =
        sends-validate config sent (intercept-Sends reply (jar_of cookies) depth config) h

-- ===== src/Admin/Session/Guards.antt =====
-- Who gets through the guards of the admin service.
use octo_speech.Prelude.{
  ◌≡◌, refl, ◌≢◌, ◌↔◌, Bool, true, false, Option, some, none, List, [], ◌∷◌, Text, text_eq,
  text_eq_iff, arith, Bool-cases, inl, inr, String, str_eq, Option-cases,
}
use octo_speech.Prelude.Http.{reply, pass, >>=-eq-pass}
use octo_speech.Prelude.Int.{ℤ}
use octo_speech.Admin.Settings.{AdminConfig}
use octo_speech.Admin.Session.{
  Cookie, Credentials, Answer, Request, login, set_auth_cookies, jwt_middleware, csrf_middleware,
  protected,
}

csrf_middleware-pass :
    (r : Request) (cookie : Text)
    → r.csrf_token ≡ some cookie
    → cookie ≢ []
    → r.x_csrf_token ≡ cookie
    → csrf_middleware r ≡ pass tt
unfolding csrf_middleware
csrf_middleware-pass r cookie e ne same = ground (arith, text_eq_iff r.x_csrf_token cookie)

csrf_middleware_inv :
    (r : Request)
    → csrf_middleware r ≡ pass tt
    → (cookie : Text) × (r.csrf_token ≡ some cookie) × (cookie ≢ []) × (r.x_csrf_token ≡ cookie)
unfolding csrf_middleware
csrf_middleware_inv r h = elim (Option-cases r.csrf_token) [
  | inl missing ↦ absurd (ground arith)
  | inr (cookie, e) ↦ (cookie, e, ground arith, ground (arith, text_eq_iff r.x_csrf_token cookie))
]

module _ (verify : Text → Text → Option Text) (secret : Text) (r : Request) where
  jwt_middleware_inv :
      (username : Text)
      → jwt_middleware verify secret r ≡ pass username
      → (token : Text) × (r.token ≡ some token)
        × (token ≢ [])
        × (verify token secret ≡ some username)
  unfolding jwt_middleware
  jwt_middleware_inv username h = elim (Option-cases r.token) [
    | inl missing ↦ absurd (ground arith)
    | inr (token, e) ↦ (token, e, ground arith, ground arith)
  ]

  jwt_middleware-pass :
      (token username : Text)
      → r.token ≡ some token
      → token ≢ []
      → verify token secret ≡ some username
      → jwt_middleware verify secret r ≡ pass username
  unfolding jwt_middleware
  jwt_middleware-pass token username e ne v = ground arith

  protected_parts :
      (username : Text)
      → protected verify secret r ≡ pass username
      → (jwt_middleware verify secret r ≡ pass username) × (csrf_middleware r ≡ pass tt)
  unfolding protected
  protected_parts username h =
      let (u, jwt, rest) = >>=-eq-pass (jwt_middleware verify secret r) _ h in
      let (_, csrf, done) = >>=-eq-pass (csrf_middleware r) _ rest in (ground arith, csrf)

  -- A request reaches a handler that changes applications exactly when its session token is not
  -- empty and verifies for the username that the handler sees, and its CSRF cookie is not empty
  -- and is repeated in the header.
  pub protected-pass_iff :
      (username : Text)
      → (protected verify secret r ≡ pass username) ↔ (
          (token cookie : Text) × (r.token ≡ some token)
          × (token ≢ [])
          × (verify token secret ≡ some username)
          × (r.csrf_token ≡ some cookie)
          × (cookie ≢ [])
          × (r.x_csrf_token ≡ cookie))
  unfolding protected
  protected-pass_iff username = (
    λ h.
        let (jwt, csrf) = protected_parts username h in
        let (token, e, ne, v) = jwt_middleware_inv username jwt in
        let (cookie, f, full, same) = csrf_middleware_inv r csrf in
        (token, cookie, e, ne, v, f, full, same),
    λ (token, cookie, e, ne, v, f, full, same).
        rw (jwt_middleware-pass token username e ne v, csrf_middleware-pass r cookie f full same),
  )

-- The browser's next request after an answer: the cookies that the answer set, by name, and the
-- CSRF token copied to the header by the page's script.
unfoldable pub cookie_value : String → List Cookie → Option Text
cookie_value name [] = none
cookie_value name (c ∷ cs) = elim (str_eq c.name name) [
  | true ↦ some c.value
  | false ↦ cookie_value name cs
]

unfoldable pub next_request : Answer → Text → Request
next_request a header = record {
  token = cookie_value "token" a.cookies;
  csrf_token = cookie_value "csrf_token" a.cookies;
  x_csrf_token = header;
}

-- A login with the configured username and a password that bcrypt accepts, for which a token is
-- signed, answers 200 and opens a session: a request with the cookies that it set and the CSRF
-- token in the header passes the guards under that username, as long as the token verifies.
pub login-protected :
    (matches : Text → Text → Bool) (sign : Text → Text → ℤ → Option Text)
    (verify : Text → Text → Option Text) (cfg : AdminConfig) (password token csrf : Text)
    → matches cfg.password_hash password ≡ true
    → sign cfg.username cfg.jwt_secret cfg.token_expire ≡ some token
    → verify token cfg.jwt_secret ≡ some cfg.username
    → token ≢ []
    → csrf ≢ []
    → (answer : Answer) × (login matches sign csrf cfg
          (some (record { username = cfg.username; password = password }))
        ≡ answer)
      × (answer.body.status ≡ 200)
      × (protected verify cfg.jwt_secret (next_request answer csrf) ≡ pass cfg.username)
unfolding login set_auth_cookies next_request cookie_value
login-protected matches sign verify cfg password token csrf right signed verified some_token
      some_csrf =
    let answer : Answer = record {
      body = reply 200 "ok";
      cookies = set_auth_cookies cfg token csrf;
    } in
    (
      answer,
      ground (arith, text_eq_iff cfg.username cfg.username),
      refl,
      (protected-pass_iff verify cfg.jwt_secret (next_request answer csrf) cfg.username).1
          (token, csrf, refl, some_token, verified, refl, some_csrf, refl),
    )

-- Only the configured username with a password that bcrypt accepts gets a cookie: any other login
-- answers with an error and sets none.
pub login-refused :
    (matches : Text → Text → Bool) (sign : Text → Text → ℤ → Option Text) (csrf : Text)
    (cfg : AdminConfig) (req : Credentials)
    → ¬ ((req.username ≡ cfg.username) × (matches cfg.password_hash req.password ≡ true))
    → ((login matches sign csrf cfg (some req)).body.status ≡ 401)
      × ((login matches sign csrf cfg (some req)).cookies ≡ [])
unfolding login
login-refused matches sign csrf cfg req wrong =
    elim (Bool-cases (text_eq req.username cfg.username)) [
      | inl same ↦ elim (Bool-cases (matches cfg.password_hash req.password)) [
        | inl right ↦ absurd (wrong ((text_eq_iff _ _).0 same, right))
        | inr bad ↦ rw (same, bad) (refl, refl)
      ]
      | inr other ↦ rw other (refl, refl)
    ]

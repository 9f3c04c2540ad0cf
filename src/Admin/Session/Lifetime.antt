-- ===== src/Admin/Session/Lifetime.antt =====
-- How long a session of the admin service lasts.
use octo_speech.Prelude.{
  ℕ, ◌*◌, ◌<◌, ◌≡◌, refl, ap, ◌∙◌, ◌≢◌, ◌↔◌, Bool, true, Option, some, none, [], Text, text_eq,
  text_eq_iff, arith, Bool-cases, Option-cases, some-injective, inl, inr,
}
use octo_speech.Prelude.Http.{reply, pass}
use octo_speech.Prelude.Int.{ℤ, scale}
use octo_speech.Admin.Settings.{AdminConfig}
use octo_speech.Admin.Session.{Credentials, Answer, login, set_auth_cookies, protected}
use octo_speech.Admin.Session.Guards.{protected-pass_iff, next_request, cookie_value}
use octo_speech.Admin.Session.Tokens.{
  Claims, Jwt, IsJwt, sign_jwt, verify_jwt, claims, second, hour, add_duration, numeric_date,
  fits_duration, hours-scale,
}

-- What a login with an answer of success was.
pub login_inv :
    (matches : Text → Text → Bool) (sign : Text → Text → ℤ → Option Text) (csrf : Text)
    (cfg : AdminConfig) (req : Credentials)
    → (login matches sign csrf cfg (some req)).body.status ≡ 200
    → (token : Text) × (req.username ≡ cfg.username)
      × (matches cfg.password_hash req.password ≡ true)
      × (sign cfg.username cfg.jwt_secret cfg.token_expire ≡ some token)
      × (login matches sign csrf cfg (some req)
          ≡ record { body = reply 200 "ok"; cookies = set_auth_cookies cfg token csrf })
unfolding login
login_inv matches sign csrf cfg req h = elim (Bool-cases (text_eq req.username cfg.username)) [
  | inr other ↦ absurd (ground arith)
  | inl same ↦ elim (Bool-cases (matches cfg.password_hash req.password)) [
    | inr wrong ↦ absurd (ground arith)
    | inl right ↦ elim (Option-cases (sign req.username cfg.jwt_secret cfg.token_expire)) [
      | inl failed ↦ absurd (ground arith)
      | inr (token, signed) ↦
          let name = (text_eq_iff req.username cfg.username).0 same in
          (token, name, right, rw (← name) signed, rw (same, right, signed) refl)
    ]
  ]
]

-- A login that sets a session token is one with an answer of success.
pub login_token :
    (matches : Text → Text → Bool) (sign : Text → Text → ℤ → Option Text) (csrf : Text)
    (cfg : AdminConfig) (body : Option Credentials) (token : Text)
    → cookie_value "token" (login matches sign csrf cfg body).cookies ≡ some token
    → (req : Credentials) × (body ≡ some req)
      × (req.username ≡ cfg.username)
      × (matches cfg.password_hash req.password ≡ true)
      × (sign cfg.username cfg.jwt_secret cfg.token_expire ≡ some token)
unfolding login cookie_value set_auth_cookies
login_token matches sign csrf cfg none token h = absurd (cc)
login_token matches sign csrf cfg (some req) token h =
    elim (Bool-cases (text_eq req.username cfg.username)) [
      | inr other ↦ absurd (ground arith)
      | inl same ↦ elim (Bool-cases (matches cfg.password_hash req.password)) [
        | inr wrong ↦ absurd (ground arith)
        | inl right ↦ elim (Option-cases (sign req.username cfg.jwt_secret cfg.token_expire)) [
          | inl failed ↦ absurd (ground arith)
          | inr (t, signed) ↦
              let name = (text_eq_iff req.username cfg.username).0 same in
              let e : t ≡ token = ground arith in
              (req, refl, name, right, rw (← name) (signed ∙ ap some e))
        ]
      ]
    ]

-- The moment at which a session that was opened at `now` ends: the full second before its hours,
-- taken as they stand, are over.
abbrev pub session_end : AdminConfig → ℕ → ℕ
session_end cfg now = numeric_date (add_duration now (scale hour cfg.token_expire)) * second

-- Where the hours fit into a duration, the claims end with the session.
claims_end :
    (now issued : ℕ) (username : Text) (cfg : AdminConfig)
    → fits_duration cfg.token_expire ≡ true
    → (claims now issued username cfg.token_expire).expires_at * second ≡ session_end cfg now
unfolding claims
claims_end now issued username cfg fits = rw (hours-scale cfg.token_expire fits) refl

module _ (jwt : Jwt) (laws : IsJwt jwt) where
  -- A signed token verifies exactly until it expires.
  pub verify-sign_iff :
      (now issued later : ℕ) (cfg : AdminConfig) (token : Text)
      → fits_duration cfg.token_expire ≡ true
      → sign_jwt jwt now issued cfg.username cfg.jwt_secret cfg.token_expire ≡ some token
      → (verify_jwt jwt later token cfg.jwt_secret ≡ some cfg.username)
        ↔ (later < session_end cfg now)
  unfolding sign_jwt verify_jwt
  verify-sign_iff now issued later cfg token fits signed =
      let c = claims now issued cfg.username cfg.token_expire in
      let end = claims_end now issued cfg.username cfg fits in
      (
        λ h. elim (Option-cases (jwt.parsed later token cfg.jwt_secret)) [
          | inl refused ↦ absurd (ground arith)
          | inr (c', read) ↦
              rw end at ((laws.parsed_signed c c' cfg.jwt_secret token later signed read).1)
        ],
        λ early.
            let read = laws.signed_parsed c cfg.jwt_secret token later signed (rw end early) in
            unfold claims in rw (verify_jwt, read) refl,
      )

  -- A token verifies only before it expires, whatever the username is taken for.
  pub verify_in_time :
      (now issued later : ℕ) (cfg : AdminConfig) (token username : Text)
      → fits_duration cfg.token_expire ≡ true
      → sign_jwt jwt now issued cfg.username cfg.jwt_secret cfg.token_expire ≡ some token
      → verify_jwt jwt later token cfg.jwt_secret ≡ some username
      → (username ≡ cfg.username) × (later < session_end cfg now)
  unfolding sign_jwt verify_jwt
  verify_in_time now issued later cfg token username fits signed h =
      elim (Option-cases (jwt.parsed later token cfg.jwt_secret)) [
        | inl refused ↦ absurd (ground arith)
        | inr (c', read) ↦
            let c = claims now issued cfg.username cfg.token_expire in
            let (same, early) = laws.parsed_signed c c' cfg.jwt_secret token later signed read in
            let name : c.username ≡ cfg.username = unfold claims in refl in
            (
              ground (arith, ap Claims.username same, name),
              rw (claims_end now issued cfg.username cfg fits) at early,
            )
      ]

  pub sign_jwt_full :
      (now issued : ℕ) (cfg : AdminConfig) (token : Text)
      → sign_jwt jwt now issued cfg.username cfg.jwt_secret cfg.token_expire ≡ some token
      → token ≢ []
  unfolding sign_jwt
  sign_jwt_full now issued cfg token signed =
      laws.signed_full (claims now issued cfg.username cfg.token_expire) cfg.jwt_secret token signed

  -- A login that is answered with 200 opens a session that ends with its hours: a request with the
  -- cookies that it set and the CSRF token in the header passes the guards as the operator exactly
  -- until the full second before TokenExpire hours have gone by, if the hours fit into a duration
  -- and the JWT library keeps its promises.
  pub login-protected_iff :
      (matches : Text → Text → Bool) (csrf : Text) (cfg : AdminConfig) (req : Credentials)
      (now issued later : ℕ)
      → fits_duration cfg.token_expire ≡ true
      → csrf ≢ []
      → (login matches (sign_jwt jwt now issued) csrf cfg (some req)).body.status ≡ 200
      → (protected
            (verify_jwt jwt later)
            cfg.jwt_secret
            (next_request (login matches (sign_jwt jwt now issued) csrf cfg (some req)) csrf)
          ≡ pass cfg.username)
        ↔ (later < session_end cfg now)
  unfolding next_request cookie_value set_auth_cookies
  login-protected_iff matches csrf cfg req now issued later fits some_csrf h =
      let (token, name, right, signed, e) =
        login_inv matches (sign_jwt jwt now issued) csrf cfg req h in
      let in_time = verify-sign_iff now issued later cfg token fits signed in
      let answer : Answer = record {
        body = reply 200 "ok";
        cookies = set_auth_cookies cfg token csrf;
      } in
      let passes =
        protected-pass_iff (verify_jwt jwt later) cfg.jwt_secret (next_request answer csrf)
          cfg.username in
      rw e (
        λ p.
            let (t, cookie, has, _, verified, _, _, _) = passes.0 p in
            in_time.0 (rw (some-injective has) verified),
        λ early. passes.1 (
          token,
          csrf,
          refl,
          sign_jwt_full now issued cfg token signed,
          in_time.1 early,
          refl,
          some_csrf,
          refl,
        ),
      )

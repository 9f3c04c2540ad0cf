-- ===== src/Admin/Site/Boot.antt =====
-- How cmd/admin/main.go starts, up to the routes. A message is what the process ends with.
mod Tests
use octo_speech.Prelude.{
  ℕ, ◌*◌, ◌≡◌, refl, sym, ap, ◌∙◌, subst, ◌⊎◌, inl, inr, Bool, true, false, Option, some, none,
  List, [], ◌∷◌, Text, String, if◌then◌else◌, arith, Option-cases, keep,
}
use octo_speech.Prelude.Http.{reply}
use octo_speech.Prelude.Hex.{hex_encode}
use octo_speech.Prelude.Int.{ℤ}
use octo_speech.Config.Load.{Env}
use octo_speech.Admin.Settings.{
  AdminConfig, Libraries, load_from_env, missing_setting, password_hash_of,
}
use octo_speech.Admin.Settings.Startup.{started-login}
use octo_speech.Admin.RateLimit.{
  new_login_rate_limiter, is_allowed, middleware, valid, attempts_of, store, client_ip,
}
use octo_speech.Admin.RateLimit as RateLimit
use octo_speech.Admin.Session.{Credentials, set_auth_cookies}
use octo_speech.Admin.Session.Tokens.{Jwt, sign_jwt, second}
use octo_speech.Store.Registry.{Database}
use octo_speech.Admin.Site.{
  Visit, Answer, with_cookies, post_login, Setup, Site, new_site, login_or_refuse, route, serve,
}

-- What `main` meets: the environment and the libraries of the settings, sql.Open, Ping and
-- migration.Run, none for an error.
pub record Host : Type 0 where
  pub env : Env
  pub lib : Libraries
  pub open_db : Text → Bool
  pub ping : Bool
  pub migrate : Option ℕ

unfoldable pub connect : Host → AdminConfig → Option String
connect h cfg =
    if h.open_db cfg.db_dsn
    then (if h.ping
        then elim h.migrate [ none ↦ some "failed to run migrations" | some n ↦ none ]
        else some "failed to ping database")
    else some "failed to connect to database"

unfoldable pub boot_with : Host → AdminConfig → String ⊎ AdminConfig
boot_with h cfg = elim (missing_setting cfg) [
  | some message ↦ inl message
  | none ↦ elim (connect h cfg) [ some message ↦ inl message | none ↦ inr cfg ]
]

-- The message with which LoadFromEnv ends the process.
unfoldable pub load_failure : Host → String
load_failure h = elim (password_hash_of h.lib (h.env "ADMIN_PASSWORD")) [
  | none ↦ "failed to hash admin password"
  | some hash ↦ "CSPRNG failure"
]

-- `main` up to the routes, with the settings that it goes on with.
unfoldable pub boot : Host → String ⊎ AdminConfig
boot h = elim (load_from_env h.lib h.env) [
  | none ↦ inl (load_failure h)
  | some cfg ↦ boot_with h cfg
]

boot_inv :
    (h : Host) (cfg : AdminConfig)
    → boot h ≡ inr cfg
    → (load_from_env h.lib h.env ≡ some cfg) × (missing_setting cfg ≡ none)
unfolding boot boot_with
boot_inv h cfg e = elim (Option-cases (load_from_env h.lib h.env)) [
  | inl failed ↦ absurd (ground arith)
  | inr (c, loaded) ↦ elim (Option-cases (missing_setting c)) [
    | inr (message, missing) ↦ absurd (ground arith)
    | inl complete ↦ elim (Option-cases (connect h c)) [
      | inr (message, failed) ↦ absurd (ground arith)
      | inl up ↦
          let same : c ≡ cfg = ground arith in
          (loaded ∙ ap some same, subst (λ c. missing_setting c ≡ none) same complete)
    ]
  ]
]

-- A new limiter lets the first attempt through.
middleware_first :
    (window : ℕ) (proxies : List Text) (now : ℕ) (r : RateLimit.Request)
    → (middleware (new_login_rate_limiter 5 window proxies) now r).1 ≡ none
unfolding middleware is_allowed new_login_rate_limiter valid attempts_of store keep
middleware_first window proxies now r = refl

-- An admin service that starts can be entered: a first login with the operator's name and the
-- password of the environment passes the limiter, is answered with 200 and gets the cookies of a
-- session, provided that bcrypt accepts a password for the hash that it made of it, and that the
-- token is signed.
pub boot-login :
    (h : Host) (cfg : AdminConfig) (d : Database) (setup : Setup d) (db : d.State) (v : Visit)
    (token : Text)
    → boot h ≡ inr cfg
    → setup.cfg ≡ cfg
    → ((hash password : Text)
        → h.lib.bcrypt password ≡ some hash
        → setup.matches hash password ≡ true)
    → v.route
      ≡ post_login
          (some (record { username = h.env "ADMIN_USERNAME"; password = h.env "ADMIN_PASSWORD" }))
    → sign_jwt setup.jwt v.signed_at v.issued_at
        (h.env "ADMIN_USERNAME")
        cfg.jwt_secret
        cfg.token_expire
      ≡ some token
    → (serve d setup (new_site d setup db) v).1
      ≡ with_cookies (record {
        body = reply 200 "ok";
        cookies = set_auth_cookies cfg token (hex_encode v.csrf_bytes);
      })
unfolding serve route new_site login_or_refuse
boot-login h cfg d setup db v token started same bcrypt_lem is signed =
    let (loaded, complete) = boot_inv h cfg started in
    let (name, password, dsn, opened) =
      started-login h.lib h.env cfg setup.matches (sign_jwt setup.jwt v.signed_at v.issued_at) token
        (hex_encode v.csrf_bytes) loaded complete bcrypt_lem signed in
    rw (is, middleware_first (60 * second) setup.cfg.trusted_proxies v.now v.remote, same)
      (ap with_cookies opened)

-- ===== src/Admin/Settings/Startup.antt =====
-- What the environment gives the admin service that has started.
use octo_speech.Prelude.{
  ◌≡◌, refl, sym, ◌∙◌, ap, Bool, true, false, Option, some, none, [], Text, is_empty, arith,
  Bool-cases, Option-cases, inl, inr, text_eq_refl,
}
use octo_speech.Prelude.Int.{ℤ}
use octo_speech.Prelude.Http.{reply}
use octo_speech.Config.Load.{Env}
use octo_speech.Admin.Settings.{
  AdminConfig, Libraries, load_from_env, missing_setting, config_with, password_hash_of,
  jwt_secret_of,
}
use octo_speech.Admin.Session.{login, set_auth_cookies}

load_from_env_inv :
    (lib : Libraries) (env : Env) (cfg : AdminConfig)
    → load_from_env lib env ≡ some cfg
    → (h secret : Text) × (password_hash_of lib (env "ADMIN_PASSWORD") ≡ some h)
      × (jwt_secret_of lib (env "ADMIN_JWT_SECRET") ≡ some secret)
      × (config_with lib env h secret ≡ cfg)
unfolding load_from_env
load_from_env_inv lib env cfg e =
    elim (Option-cases (password_hash_of lib (env "ADMIN_PASSWORD"))) [
      | inl failed ↦ absurd (ground arith)
      | inr (h, hashed) ↦ elim (Option-cases (jwt_secret_of lib (env "ADMIN_JWT_SECRET"))) [
        | inl failed ↦ absurd (ground arith)
        | inr (secret, given) ↦ (h, secret, hashed, given, ground arith)
      ]
    ]

missing_setting-none :
    (cfg : AdminConfig)
    → missing_setting cfg ≡ none
    → (is_empty cfg.db_dsn ≡ false)
      × (is_empty cfg.username ≡ false)
      × (is_empty cfg.password_hash ≡ false)
unfolding missing_setting
missing_setting-none cfg h = ground arith

-- A hash that is not empty is bcrypt's of a password that is not.
hashed_password :
    (lib : Libraries) (password h : Text)
    → password_hash_of lib password ≡ some h
    → is_empty h ≡ false
    → (is_empty password ≡ false) × (lib.bcrypt password ≡ some h)
unfolding password_hash_of
hashed_password lib password h e full = elim (Bool-cases (is_empty password)) [
  | inl missing ↦
      let same : ◌≡◌ {A = Text} [] h = ground arith in
      absurd (ground (arith, ap (is_empty {A = _}) same))
  | inr given ↦ (given, ground arith)
]

config_with_parts :
    (lib : Libraries) (env : Env) (h secret : Text)
    → ((config_with lib env h secret).username ≡ env "ADMIN_USERNAME")
      × ((config_with lib env h secret).password_hash ≡ h)
unfolding config_with
config_with_parts lib env h secret = (refl, refl)

login_lem :
    (matches : Text → Text → Bool) (sign : Text → Text → ℤ → Option Text) (cfg : AdminConfig)
    (username password token csrf : Text)
    → cfg.username ≡ username
    → matches cfg.password_hash password ≡ true
    → sign username cfg.jwt_secret cfg.token_expire ≡ some token
    → login matches sign csrf cfg (some (record { username = username; password = password }))
      ≡ record { body = reply 200 "ok"; cookies = set_auth_cookies cfg token csrf }
unfolding login set_auth_cookies
login_lem matches sign cfg username password token csrf same accepted signed =
    rw (same, text_eq_refl username, accepted, signed) refl

-- If the admin service starts, the operator's name, the password and the data source name of its
-- environment are not empty, and a login with that name and password succeeds, provided that bcrypt
-- accepts a password for the hash that it made of it, and that a token is signed.
pub started-login :
    (lib : Libraries) (env : Env) (cfg : AdminConfig) (matches : Text → Text → Bool)
    (sign : Text → Text → ℤ → Option Text) (token csrf : Text)
    → load_from_env lib env ≡ some cfg
    → missing_setting cfg ≡ none
    → ((h password : Text) → lib.bcrypt password ≡ some h → matches h password ≡ true)
    → sign (env "ADMIN_USERNAME") cfg.jwt_secret cfg.token_expire ≡ some token
    → (is_empty (env "ADMIN_USERNAME") ≡ false)
      × (is_empty (env "ADMIN_PASSWORD") ≡ false)
      × (is_empty cfg.db_dsn ≡ false)
      × (login matches sign csrf cfg
            (some (record { username = env "ADMIN_USERNAME"; password = env "ADMIN_PASSWORD" }))
          ≡ record { body = reply 200 "ok"; cookies = set_auth_cookies cfg token csrf })
started-login lib env cfg matches sign token csrf loaded complete bcrypt_lem signed =
    let (h, secret, hashed, given, same) = load_from_env_inv lib env cfg loaded in
    let (dsn, name, full) = missing_setting-none cfg complete in
    let username = sym (ap AdminConfig.username same) ∙ (config_with_parts lib env h secret).0 in
    let hash = sym (ap AdminConfig.password_hash same) ∙ (config_with_parts lib env h secret).1 in
    let (password, made) = hashed_password lib (env "ADMIN_PASSWORD") h hashed (rw hash at full) in
    (
      rw username at name,
      password,
      dsn,
      login_lem matches sign cfg (env "ADMIN_USERNAME") (env "ADMIN_PASSWORD") token csrf username
          (rw hash (bcrypt_lem h (env "ADMIN_PASSWORD") made)) signed,
    )

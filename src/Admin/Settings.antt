-- ===== src/Admin/Settings.antt =====
-- internal/adminconfig/config.go, and the checks with which cmd/admin/main.go starts. bcrypt, the
-- random secret, time.ParseDuration and the normalisation of the data source name are arguments;
-- durations are in nanoseconds.
pub mod Startup
pub mod Tests
use octo_speech.Prelude.{
  Bool, true, false, ◌||◌, Option, some, none, List, [], Text, codes, text_eq, is_empty, String,
  if◌then◌else◌,
}
use octo_speech.Prelude.Int.{ℤ, pos}
use octo_speech.Prelude.Parse.{atoi}
use octo_speech.Config.Load.{Env, split_models, duration_or, seconds}

pub record AdminConfig : Type 0 where
  pub port : ℤ
  pub username : Text
  pub password_hash : Text
  pub jwt_secret : Text
  pub token_expire : ℤ
  pub secure_cookie : Bool
  pub trusted_proxies : List Text
  pub db_dsn : Text
  pub read_timeout : ℤ
  pub write_timeout : ℤ
  pub idle_timeout : ℤ

-- `if v != "" { if n, err := strconv.Atoi(v); err == nil { field = n } }`; Atoi has no value for "".
unfoldable pub int_or : ℤ → Text → ℤ
int_or default v = elim (atoi v) [ none ↦ default | some n ↦ n ]

-- What `LoadFromEnv` uses of the libraries: `bcrypt` is GenerateFromPassword, `secret` is
-- `generateRandomSecret(32)`, none where it ends the process.
pub record Libraries : Type 0 where
  pub bcrypt : Text → Option Text
  pub secret : Option Text
  pub ensure_dsn_time_params : Text → Text
  pub parse_duration : Text → Option ℤ

unfoldable pub password_hash_of : Libraries → Text → Option Text
password_hash_of lib password = if is_empty password then some [] else lib.bcrypt password

unfoldable pub jwt_secret_of : Libraries → Text → Option Text
jwt_secret_of lib v = if is_empty v then lib.secret else some v

unfoldable pub secure_cookie_of : Text → Bool
secure_cookie_of v = if text_eq v (codes "false") || text_eq v (codes "0") then false else true

-- ADMIN_TRUSTED_PROXIES is cut into names in the way of `splitModels`.
unfoldable pub trusted_proxies_of : Text → List Text
trusted_proxies_of v = if is_empty v then [] else split_models v

-- `LoadFromEnv` from the hash and the secret on.
unfoldable pub config_with : Libraries → Env → Text → Text → AdminConfig
config_with lib env password_hash jwt_secret = record {
  port = int_or (pos 8781) (env "ADMIN_PORT");
  username = env "ADMIN_USERNAME";
  password_hash = password_hash;
  jwt_secret = jwt_secret;
  token_expire = int_or (pos 24) (env "ADMIN_TOKEN_EXPIRE");
  secure_cookie = secure_cookie_of (env "ADMIN_SECURE_COOKIE");
  trusted_proxies = trusted_proxies_of (env "ADMIN_TRUSTED_PROXIES");
  db_dsn = lib.ensure_dsn_time_params (env "SPEECH_DB_DSN");
  read_timeout = duration_or lib.parse_duration (seconds 30) (env "ADMIN_READ_TIMEOUT");
  write_timeout = duration_or lib.parse_duration (seconds 60) (env "ADMIN_WRITE_TIMEOUT");
  idle_timeout = duration_or lib.parse_duration (seconds 120) (env "ADMIN_IDLE_TIMEOUT");
}

-- `LoadFromEnv`; none where it ends the process.
unfoldable pub load_from_env : Libraries → Env → Option AdminConfig
load_from_env lib env = elim (password_hash_of lib (env "ADMIN_PASSWORD")) [
  | none ↦ none
  | some password_hash ↦ elim (jwt_secret_of lib (env "ADMIN_JWT_SECRET")) [
    | none ↦ none
    | some jwt_secret ↦ some (config_with lib env password_hash jwt_secret)
  ]
]

-- What `main` ends the process with, once the settings are loaded.
unfoldable pub missing_setting : AdminConfig → Option String
missing_setting cfg =
    if is_empty cfg.db_dsn
    then some "SPEECH_DB_DSN is required"
    else (if is_empty cfg.username
        then some "ADMIN_USERNAME is required"
        else (if is_empty cfg.password_hash then some "ADMIN_PASSWORD is required" else none))

-- ===== src/Admin/Settings/Tests.antt =====
-- The admin service started from an environment.
use octo_speech.Prelude.{
  ◌≡◌, refl, Bool, true, some, none, [], ◌∷◌, Text, codes, str_eq, text_eq, text_eq_refl,
  some-injective, if◌then◌else◌,
}
use octo_speech.Config.Load.{Env}
use octo_speech.Admin.Settings.{
  AdminConfig, Libraries, load_from_env, missing_setting, config_with, password_hash_of,
  jwt_secret_of,
}

abbrev pub environment : Env
environment key =
    if str_eq key "SPEECH_DB_DSN"
    then codes "dsn"
    else (if str_eq key "ADMIN_USERNAME"
        then codes "admin"
        else (if str_eq key "ADMIN_PASSWORD" then codes "pw" else []))

-- A hash is the password behind a sign.
abbrev pub libraries : Libraries
libraries = record {
  bcrypt = λ password. some (b'$' ∷ password);
  secret = some (codes "random");
  ensure_dsn_time_params = λ dsn. dsn;
  parse_duration = λ v. none;
}

abbrev pub matches : Text → Text → Bool
matches hash password = text_eq hash (b'$' ∷ password)

abbrev pub started : AdminConfig
started = config_with libraries environment (codes "$pw") (codes "random")

pub loads : load_from_env libraries environment ≡ some started
unfolding load_from_env password_hash_of jwt_secret_of
loads = refl

pub complete : missing_setting started ≡ none
unfolding missing_setting config_with
complete = refl

pub accepted : (h password : Text) → libraries.bcrypt password ≡ some h → matches h password ≡ true
accepted h password made = rw (← some-injective made) (text_eq_refl (b'$' ∷ password))

-- ===== src/Config/Load/Tests.antt =====
-- A configuration from an environment.
use octo_speech.Prelude.{
  ◌≡◌, ◌≢◌, ◌↔◌, refl, false, [], ◌∷◌, Text, codes, Option, some, none, str_eq, if◌then◌else◌,
  trim_space, trim_left, trim_right, is_space,
}
use octo_speech.Prelude.Int.{ℤ, le_ℤ}
use octo_speech.Config.{Config}
use octo_speech.Config.Load.{
  Env, config_of, load_from_env, validate, split_models, split_commas, trimmed_pieces,
  allow_feedback_of,
}
use octo_speech.Config.Load.Valid.{IsReachable, validate-load_from_env_iff}

abbrev pub environment : Env
environment key =
    if str_eq key "SPEECH_DB_DSN"
    then codes "dsn"
    else (if str_eq key "VOICE_LITELLM_URL" then codes "http://llm" else [])

abbrev pub same_dsn : Text → Text
same_dsn dsn = dsn

abbrev pub no_duration : Text → Option ℤ
no_duration v = none

abbrev pub loaded : Config
loaded = config_of same_dsn no_duration environment false

splits : split_models (codes " a, ,b ,") ≡ codes "a" ∷ codes "b" ∷ []
unfolding split_models split_commas trimmed_pieces trim_space trim_left trim_right is_space
splits = refl

pub loads : load_from_env same_dsn no_duration environment ≡ some loaded
unfolding load_from_env allow_feedback_of
loads = refl

validate-load_from_env_iff_example : (validate loaded ≡ none) ↔ (
    (loaded.db_dsn ≢ [])
    × (le_ℤ loaded.max_upload_size loaded.max_file_size ≡ false)
    × IsReachable loaded)
validate-load_from_env_iff_example =
    validate-load_from_env_iff same_dsn no_duration environment loads

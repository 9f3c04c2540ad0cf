-- ===== src/Speech/Boot/Tests.antt =====
-- A speech service that starts.
use octo_speech.Prelude.{
  ◌≡◌, inr, refl, true, false, some, none, [], codes, text_eq, str_eq, if◌then◌else◌,
}
use octo_speech.Config.{Config}
use octo_speech.Config.Load.{
  Env, load_from_env, validate, validate_gateway, config_of, allow_feedback_of, pos_or, models_or,
  engine_of,
}
use octo_speech.Prelude.Parse.{atoi}
use octo_speech.Speech.Boot.{Host, IsReady, boot, boot_with, connect, running_with, boot-IsReady}

abbrev environment : Env
environment key =
    if str_eq key "SPEECH_DB_DSN"
    then codes "dsn"
    else (if str_eq key "VOICE_LITELLM_URL"
        then codes "http://llm"
        else (if str_eq key "VOICE_LITELLM_KEY"
            then codes "key"
            else (if str_eq key "ASR_LOG_DIR" then codes "/log" else [])))

abbrev host : Host
host = record {
  env = environment;
  ensure_dsn_time_params = λ dsn. dsn;
  parse_duration = λ v. none;
  open_db = λ dsn. true;
  ping = true;
  migrate = some 6;
  read_prompts = λ path. none;
  make_dir = λ dir. true;
}

abbrev settings : Config
settings = config_of (λ dsn. dsn) (λ v. none) environment false

started : boot host ≡ inr (running_with host settings)
unfolding boot boot_with connect load_from_env validate validate_gateway allow_feedback_of config_of
    text_eq pos_or atoi engine_of models_or
started = refl

boot-IsReady_example : IsReady host (running_with host settings)
boot-IsReady_example = boot-IsReady host (running_with host settings) started

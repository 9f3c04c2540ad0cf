-- ===== src/Config/Load.antt =====
-- `LoadFromEnv`, `getEnvInt`, `splitModels` and `Validate` of internal/config/config.go. An
-- environment gives each variable its text, "" if it is unset. `time.ParseDuration` and the
-- normalisation of the data source name are arguments of `load_from_env`; durations are in
-- nanoseconds.
pub mod Valid
mod Tests
use octo_speech.Prelude.{
  ℕ, ◌*◌, ◌^◌, Bool, true, false, List, [], ◌∷◌, map, Text, codes, text_eq, trim_space, is_empty,
  ◌==◌, if◌then◌else◌, ◌||◌, ◌&&◌, Option, some, none, String, not,
}
use octo_speech.Prelude.Int.{ℤ, pos, negsuc, is_pos, le_ℤ}
use octo_speech.Prelude.Parse.{atoi, parse_bool}
use mathlib.Core.Option
use octo_speech.Config.{Config}
use octo_speech.Config.Engine.{engine_gemini, engine_gpt, engine_qwen}

abbrev pub Env : Type 0
Env = String → Text

abbrev pub default_models : List Text
default_models =
    codes "gemini-3.1-pro-preview" ∷ codes "gemini-3-flash-preview" ∷ codes "gemini-2.5-pro" ∷ []

abbrev pub default_gpt_models : List Text
default_gpt_models = codes "gpt-4o-mini-transcribe" ∷ []

abbrev pub default_qwen_models : List Text
default_qwen_models = codes "qwen3.5-omni-plus" ∷ []

-- `if v != "" { if n, err := strconv.Atoi(v); err == nil && n > 0 { field = n } }`, and the same
-- with ParseInt. Atoi has no value for "".
unfoldable pub pos_or : ℤ → Text → ℤ
pos_or default v = elim (atoi v) [ none ↦ default | some n ↦ if is_pos n then n else default ]

unfoldable pub get_env_int : Env → String → ℤ → ℤ
get_env_int env key default =
    if is_empty (env key)
    then default
    else elim (atoi (env key)) [ none ↦ default | some n ↦ if is_pos n then n else default ]

-- strings.Split(v, ",")
unfoldable pub split_commas : Text → List Text
split_commas [] = [] ∷ []
split_commas (c ∷ s) = elim (split_commas s) [
  | [] ↦ []
  | piece ∷ pieces ↦ if c == b',' then [] ∷ piece ∷ pieces else (c ∷ piece) ∷ pieces
]

-- The loop of `splitModels`.
unfoldable pub trimmed_pieces : List Text → List Text
trimmed_pieces [] = []
trimmed_pieces (m ∷ ms) =
    if is_empty (trim_space m) then trimmed_pieces ms else trim_space m ∷ trimmed_pieces ms

unfoldable pub split_models : Text → List Text
split_models v = trimmed_pieces (split_commas v)

-- `if v != "" { if parsed := splitModels(v); len(parsed) > 0 { field = parsed } }`
unfoldable pub models_or : List Text → Text → List Text
models_or default v =
    if is_empty v then default else (if is_empty (split_models v) then default else split_models v)

-- `if v != "" { field = v }`
unfoldable pub text_or : Text → Text → Text
text_or default v = if is_empty v then default else v

unfoldable pub engine_of : Text → Text
engine_of v =
    if text_eq v engine_gpt || text_eq v engine_gemini || text_eq v engine_qwen
    then v
    else engine_gemini

-- VOICE_EDIT_MODE, and the step that forces "append" for the GPT engine.
unfoldable pub edit_mode_of : Text → Text → Text
edit_mode_of engine v =
    let mode =
      if text_eq v (codes "edit") || text_eq v (codes "append")
      then v
      else (if text_eq engine engine_gpt then codes "append" else codes "edit") in
    if text_eq engine engine_gpt && text_eq mode (codes "edit") then codes "append" else mode

-- VOICE_LOCAL_TIMEOUT_MS, capped at a minute.
unfoldable pub local_timeout_of : Text → ℤ
local_timeout_of v = elim (atoi v) [
  | none ↦ pos 10000
  | some n ↦ if is_pos n then (if le_ℤ n (pos 60000) then n else pos 60000) else pos 10000
]

-- `if v != "" { if b, err := strconv.ParseBool(v); err == nil { field = b } }`
unfoldable pub bool_or : Bool → Text → Bool
bool_or default v = elim (parse_bool v) [ none ↦ default | some b ↦ b ]

-- VOICE_ALLOW_FEEDBACK; `none` is the error of a value that is set and is no Boolean.
unfoldable pub allow_feedback_of : Text → Option Bool
allow_feedback_of v = if is_empty v then some false else parse_bool v

-- `if v != "" { if d, err := time.ParseDuration(v); err == nil && d > 0 { field = d } }`
unfoldable pub duration_or : (Text → Option ℤ) → ℤ → Text → ℤ
duration_or parse_duration default v =
    if is_empty v
    then default
    else elim (parse_duration v) [ none ↦ default | some d ↦ if is_pos d then d else default ]

abbrev pub seconds : ℕ → ℤ
seconds n = pos (n * 1_000_000_000)

-- The settings that `LoadFromEnv` returns, with the value of VOICE_ALLOW_FEEDBACK.
unfoldable pub config_of : (Text → Text) → (Text → Option ℤ) → Env → Bool → Config
config_of ensure_dsn_time_params parse_duration env allow_feedback_log =
    let engine = engine_of (env "VOICE_ENGINE") in
    record {
      port = pos_or (pos 8780) (env "SPEECH_SERVICE_PORT");
      db_dsn = ensure_dsn_time_params (env "SPEECH_DB_DSN");
      cache_ttl = pos_or (pos 60) (env "SPEECH_APP_CACHE_TTL");
      litellm_url = env "VOICE_LITELLM_URL";
      litellm_key = env "VOICE_LITELLM_KEY";
      timeout = pos_or (pos 30) (env "VOICE_LITELLM_TIMEOUT");
      total_timeout = pos_or (pos 45) (env "VOICE_TOTAL_TIMEOUT");
      models = models_or default_models (env "VOICE_MODELS");
      max_duration = pos_or (pos 60) (env "VOICE_MAX_DURATION");
      max_upload_size = pos_or (pos (5 * 1024 * 1024)) (env "VOICE_MAX_UPLOAD_SIZE");
      max_file_size = pos_or (pos (3 * 1024 * 1024)) (env "VOICE_MAX_FILE_SIZE");
      engine = engine;
      gpt_models = models_or default_gpt_models (env "VOICE_GPT_MODELS");
      language = text_or [] (env "VOICE_LANGUAGE");
      edit_mode = edit_mode_of engine (env "VOICE_EDIT_MODE");
      qwen_models = models_or default_qwen_models (env "VOICE_QWEN_MODELS");
      qwen_url = text_or [] (env "VOICE_QWEN_URL");
      qwen_key = text_or [] (env "VOICE_QWEN_KEY");
      qwen_timeout = pos_or (pos 0) (env "VOICE_QWEN_TIMEOUT");
      prompt_file = text_or [] (env "VOICE_PROMPT_FILE");
      emotion_emoji = not (
          text_eq (env "VOICE_EMOTION_EMOJI") (codes "false")
          || text_eq (env "VOICE_EMOTION_EMOJI") (codes "0"));
      local_enabled = bool_or false (env "VOICE_LOCAL_ENABLED");
      local_timeout_ms = local_timeout_of (env "VOICE_LOCAL_TIMEOUT_MS");
      local_probe_url = text_or (codes "http://localhost:8787/") (env "VOICE_LOCAL_PROBE_URL");
      local_transcribe_url =
          text_or (codes "http://localhost:8787/v1/voice/transcribe")
            (env "VOICE_LOCAL_TRANSCRIBE_URL");
      max_voice_context_length = get_env_int env "VOICE_MAX_VOICE_CONTEXT_LENGTH" (pos 10000);
      max_context_text_length = get_env_int env "VOICE_MAX_CONTEXT_TEXT_LENGTH" (pos 5000);
      max_chat_context_length = get_env_int env "VOICE_MAX_CHAT_CONTEXT_LENGTH" (pos 20000);
      max_member_context_length = get_env_int env "VOICE_MAX_MEMBER_CONTEXT_LENGTH" (pos 5000);
      asr_log_dir = env "ASR_LOG_DIR";
      asr_log_buffer_size = pos_or (pos 256) (env "ASR_LOG_BUFFER_SIZE");
      asr_log_retention_days = pos_or (pos 7) (env "ASR_LOG_RETENTION_DAYS");
      hostname = text_or (codes "local") (env "HOSTNAME");
      feedback_url = env "VOICE_FEEDBACK_URL";
      allow_feedback_log = allow_feedback_log;
      read_timeout = duration_or parse_duration (seconds 30) (env "SPEECH_READ_TIMEOUT");
      write_timeout = duration_or parse_duration (seconds 60) (env "SPEECH_WRITE_TIMEOUT");
      idle_timeout = duration_or parse_duration (seconds 120) (env "SPEECH_IDLE_TIMEOUT");
    }

-- `LoadFromEnv`; `none` is its error.
unfoldable pub load_from_env : (Text → Text) → (Text → Option ℤ) → Env → Option Config
load_from_env ensure_dsn_time_params parse_duration env =
    Option.map (config_of ensure_dsn_time_params parse_duration env)
      (allow_feedback_of (env "VOICE_ALLOW_FEEDBACK"))

-- What `Validate` finds wrong with the model gateway, once the sizes are right.
unfoldable pub validate_gateway : Config → Option String
validate_gateway c =
    if text_eq c.engine engine_qwen
    then (if is_empty (if is_empty c.qwen_url then c.litellm_url else c.qwen_url)
        then some "VOICE_QWEN_URL or VOICE_LITELLM_URL is required for qwen engine"
        else (if is_empty (if is_empty c.qwen_key then c.litellm_key else c.qwen_key)
            then some "VOICE_QWEN_KEY or VOICE_LITELLM_KEY is required for qwen engine"
            else (if is_empty c.qwen_models
                then some "VOICE_QWEN_MODELS is required for qwen engine"
                else none)))
    else (if is_empty c.litellm_url
        then some "VOICE_LITELLM_URL is required"
        else (if is_empty c.litellm_key
            then some "VOICE_LITELLM_KEY is required"
            else (if text_eq c.engine engine_gpt
                then (if is_empty c.gpt_models
                    then some "VOICE_GPT_MODELS is required for GPT engine"
                    else none)
                else (if is_empty c.models then some "VOICE_MODELS is required" else none))))

-- `Validate`: its error, or `none`.
unfoldable pub validate : Config → Option String
validate c =
    if is_empty c.db_dsn
    then some "SPEECH_DB_DSN is required"
    else (if le_ℤ c.max_upload_size (pos 0)
        then some "VOICE_MAX_UPLOAD_SIZE must be positive"
        else (if le_ℤ c.max_upload_size c.max_file_size
            then some "VOICE_MAX_FILE_SIZE must be smaller than VOICE_MAX_UPLOAD_SIZE"
            else validate_gateway c))

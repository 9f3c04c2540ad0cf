-- ===== src/Config.antt =====
-- internal/config/config.go: the settings of the speech service. A Go string is the list of its
-- code points, "" if it is unset.
pub mod Engine
pub mod Truncate
pub mod Dsn
pub mod Load
use octo_speech.Prelude.{Bool, List, Text}
use octo_speech.Prelude.Int.{ℤ}

pub record Config : Type 0 where
  pub port : ℤ
  pub db_dsn : Text
  pub cache_ttl : ℤ
  pub litellm_url : Text
  pub litellm_key : Text
  pub timeout : ℤ
  pub total_timeout : ℤ
  pub models : List Text
  pub max_duration : ℤ
  pub max_upload_size : ℤ
  pub max_file_size : ℤ
  pub engine : Text
  pub gpt_models : List Text
  pub language : Text
  pub edit_mode : Text
  pub qwen_models : List Text
  pub qwen_url : Text
  pub qwen_key : Text
  pub qwen_timeout : ℤ
  pub prompt_file : Text
  pub emotion_emoji : Bool
  pub local_enabled : Bool
  pub local_timeout_ms : ℤ
  pub local_probe_url : Text
  pub local_transcribe_url : Text
  pub max_voice_context_length : ℤ
  pub max_context_text_length : ℤ
  pub max_chat_context_length : ℤ
  pub max_member_context_length : ℤ
  pub asr_log_dir : Text
  pub asr_log_buffer_size : ℤ
  pub asr_log_retention_days : ℤ
  pub hostname : Text
  pub feedback_url : Text
  pub allow_feedback_log : Bool
  pub read_timeout : ℤ
  pub write_timeout : ℤ
  pub idle_timeout : ℤ

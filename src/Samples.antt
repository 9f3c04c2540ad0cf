-- ===== src/Samples.antt =====
-- Sample settings, prompts and a sample gateway for the tests.
use octo_speech.Prelude.{ℕ, zero, suc, Bool, true, false, [], ◌∷◌, Text, codes, some, none}
use octo_speech.Prelude.Int.{pos}
use octo_speech.Config.{Config}
use octo_speech.AsrLog.{AsrEntry}
use octo_speech.Service.Prompt.{PromptConfig, FixedSections}
use octo_speech.Service.Models.{Gateway, Response, answered}

abbrev pub settings : Config
settings = record {
  port = pos 8780;
  db_dsn = codes "dsn";
  cache_ttl = pos 60;
  litellm_url = codes "http://llm/";
  litellm_key = codes "key";
  timeout = pos 30;
  total_timeout = pos 45;
  models = codes "bad" ∷ codes "good" ∷ [];
  max_duration = pos 60;
  max_upload_size = pos 5000;
  max_file_size = pos 3000;
  engine = codes "gemini";
  gpt_models = codes "g" ∷ [];
  language = [];
  edit_mode = codes "edit";
  qwen_models = codes "q" ∷ [];
  qwen_url = [];
  qwen_key = [];
  qwen_timeout = pos 0;
  prompt_file = [];
  emotion_emoji = true;
  local_enabled = false;
  local_timeout_ms = pos 10000;
  local_probe_url = [];
  local_transcribe_url = [];
  max_voice_context_length = pos 10;
  max_context_text_length = pos 10;
  max_chat_context_length = pos 10;
  max_member_context_length = pos 10;
  asr_log_dir = [];
  asr_log_buffer_size = pos 256;
  asr_log_retention_days = pos 7;
  hostname = codes "local";
  feedback_url = [];
  allow_feedback_log = false;
  read_timeout = pos 30;
  write_timeout = pos 60;
  idle_timeout = pos 120;
}

abbrev pub sample_prompts : PromptConfig
sample_prompts = record {
  system = codes "S {{RULE5_TITLE}} {{EDIT_SECTION}}";
  system_append_only = codes "A {{EMOTION_SECTION}}";
  system_edit_only = codes "E";
  system_overridden = false;
  append_only_overridden = false;
  edit_only_overridden = false;
  vocabulary_reference = codes "<v>%s</v>";
  append_input_buffer = codes "<b>%s</b>";
  append_input_buffer_no_vocab = codes "<b>%s</b>";
  edit_input_buffer = codes "<e>%s</e>";
  task_transcribe = codes "transcribe";
  task_transcribe_with_vocab = codes "transcribe with words";
  task_append = codes "append";
  task_append_no_emotion = codes "append plainly";
  task_edit = codes "edit";
  task_edit_only = codes "only edit";
  task_edit_no_emotion = codes "edit plainly";
  task_edit_only_no_emotion = codes "only edit plainly";
  mention_section = codes "mention";
  emotion_section = codes "emoji";
  emotion_examples = codes "examples";
  rule5_title_with_emotion = codes "with";
  rule5_title_no_emotion = codes "without";
}

abbrev pub sample_fixed : FixedSections
sample_fixed = record {
  edit_only_emotion_examples_section = codes "x";
  edit_only_emotion_section = codes "y";
  edit_section = codes "how to edit";
}

-- Another verb than %s, as fmt.Sprintf marks it.
abbrev pub other_verb : Text → Text → Text
other_verb format arg = codes "%!"

-- The first attempt meets a busy server, each later one an answer.
abbrev busy_then_answer : ℕ → Response
busy_then_answer zero = answered 503 (codes "busy")
busy_then_answer (suc i) = answered 200 (codes "two")

abbrev pub sample_gateway : Gateway
sample_gateway = record {
  base64 = λ audio. codes "b64";
  accepts_url = λ url. true;
  chat = λ i url key timeout request. busy_then_answer i;
  transcribe = λ i url key timeout form. answered 200 (codes "two");
  choices = λ body. some (body ∷ []);
  text_of = λ body. some body;
}

abbrev pub never : ℕ → Bool
never i = false

-- An entry of the log, with a request's identifier.
abbrev pub an_entry : Text → AsrEntry
an_entry id = record {
  request_id = id;
  timestamp = [];
  source = codes "api";
  app_id = [];
  engine = [];
  model_requested = [];
  model_used = [];
  input = record {
    mode = [];
    audio_file = [];
    mime_type = [];
    audio_size = 0;
    context_text = [];
    chat_context = [];
    personal_context = [];
    member_context = [];
    model = [];
    language = [];
    channel_type = [];
  };
  prompt = none;
  raw_result_text = [];
  result_text = [];
  result_length = 0;
  is_no_speech = false;
  error = [];
  duration_ms = 0;
  pod_id = codes "pod";
  audio_data = [];
}

-- The same with audio.
abbrev pub logged_entry : AsrEntry
logged_entry = record (an_entry (codes "r1")) { audio_data = 1 ∷ 2 ∷ []; engine = codes "gemini" }

-- ===== src/Service/Transcribe.antt =====
-- `Transcribe` of internal/service/transcribe.go.
pub mod Merging
mod Tests
use octo_speech.Prelude.{
  ℕ, Bool, true, false, List, [], ◌∷◌, Text, codes, text_eq, is_empty, if◌then◌else◌, ◌&&◌, ◌||◌,
  Option, some, none, not, ◌++◌,
}
use mathlib.Core.Option
use octo_speech.Config.{Config}
use octo_speech.Config.Engine.{engine_gpt}
use octo_speech.Service.Merge.{
  is_no_speech, no_speech_sentinel, join_context_and_text, restore_trailing_whitespace,
}
use octo_speech.Service.Prompt.{
  PromptConfig, FixedSections, append_mode, edit_mode, edit_only_mode, build_system_message,
  build_user_message,
}
use octo_speech.Service.Models.{
  Err, gpt_edit_not_supported, Gateway, ChatRequest, GptBody, Fallback, models_for_engine,
  call_chat_completion_with_fallback, call_gpt_with_model_fallback,
}

pub record TranscribeOptions : Type 0 where
  pub mode : Text
  pub model : Text
  pub skip_mention : Bool
  pub engine : Text
  pub emotion_emoji : Option Bool

pub data RequestBody : Type 0 where
  chat : ChatRequest → RequestBody
  gpt : GptBody → RequestBody

pub record TranscribeResult : Type 0 where
  pub text : Text
  pub raw_text : Text
  pub model : Text
  pub engine : Text
  pub prompt_text : Text
  pub system_prompt : Text
  pub prompt_type : Text
  pub request_body : Option RequestBody

-- The pair that `Transcribe` returns; a nil pointer is `none`.
pub record Answer : Type 0 where
  pub result : Option TranscribeResult
  pub error : Option Err

unfoldable pub engine_for : Config → TranscribeOptions → Text
engine_for cfg opts = if is_empty opts.engine then cfg.engine else opts.engine

-- The mode, with "edit" turned into "append" for the GPT engine.
unfoldable pub mode_for : Config → TranscribeOptions → Text
mode_for cfg opts =
    let mode = if is_empty opts.mode then cfg.edit_mode else opts.mode in
    if text_eq (engine_for cfg opts) engine_gpt && text_eq mode edit_mode then append_mode else mode

unfoldable pub emotion_for : Config → TranscribeOptions → Bool
emotion_for cfg opts = elim opts.emotion_emoji [ none ↦ cfg.emotion_emoji | some e ↦ e ]

unfoldable pub models_for : Config → TranscribeOptions → List Text
models_for cfg opts =
    let models = models_for_engine cfg (engine_for cfg opts) in
    if is_empty opts.model then models else opts.model ∷ models

-- The mode of the system prompt: "" where the user message falls back to a transcription.
unfoldable pub system_mode : Text → Text → Text
system_mode mode context_text =
    if (text_eq mode edit_mode || text_eq mode edit_only_mode) && is_empty context_text
    then []
    else mode

-- The last switch: the text of the result from that of the model.
unfoldable pub merged_text : Text → Text → Text → Text
merged_text mode context_text raw_text =
    if text_eq mode append_mode
    then (if is_no_speech raw_text
        then context_text
        else (if is_empty context_text
            then raw_text
            else join_context_and_text context_text raw_text))
    else (if text_eq raw_text no_speech_sentinel
        then context_text
        else (if is_empty context_text
            then raw_text
            else restore_trailing_whitespace context_text raw_text))

-- The answer from what a fallback returned.
unfoldable pub answer_of : Text → Text → Text → Text → Text → Text → Fallback RequestBody → Answer
answer_of mode context_text engine user_msg system_msg prompt_type f = elim f.error [
  | some e ↦ record {
    result = some (record {
      text = [];
      raw_text = [];
      model = [];
      engine = engine;
      prompt_text = user_msg;
      system_prompt = system_msg;
      prompt_type = prompt_type;
      request_body = f.body;
    });
    error = some e;
  }
  | none ↦ record {
    result = some (record {
      text = merged_text mode context_text f.text;
      raw_text = f.text;
      model = f.model;
      engine = engine;
      prompt_text = user_msg;
      system_prompt = system_msg;
      prompt_type = prompt_type;
      request_body = f.body;
    });
    error = none;
  }
]

abbrev with_body {ℓ} : {B : Type ℓ} → (B → RequestBody) → Fallback B → Fallback RequestBody
with_body wrap f = record {
  text = f.text;
  model = f.model;
  body = Option.map wrap f.body;
  error = f.error;
}

module _ (expired : ℕ → Bool) (g : Gateway) (other : Text → Text → Text) (prompts : PromptConfig)
    (fixed : FixedSections) (cfg : Config) where
  unfoldable pub transcribe : List ℕ → Text → Text → Text → TranscribeOptions → Answer
  transcribe audio_data mime_type context_text chat_context opts =
      let engine = engine_for cfg opts in
      let mode = mode_for cfg opts in
      let user_msg =
        build_user_message other prompts mode context_text chat_context (emotion_for cfg opts) in
      let system_msg =
        build_system_message prompts fixed (emotion_for cfg opts) opts.skip_mention
          (system_mode mode context_text) in
      let models = models_for cfg opts in
      if text_eq engine engine_gpt && text_eq mode edit_only_mode
      then record { result = none; error = some gpt_edit_not_supported }
      else (if text_eq engine engine_gpt
          then answer_of mode context_text engine user_msg [] (codes "audio_transcription") (
              with_body gpt
                (call_gpt_with_model_fallback expired g cfg audio_data mime_type user_msg models))
          else answer_of mode context_text engine user_msg system_msg (codes "chat_completion") (
              with_body chat (
                call_chat_completion_with_fallback expired g cfg audio_data mime_type system_msg
                  user_msg models engine)))

-- ===== src/Service/Transcribe/Tests.antt =====
-- Transcriptions with the sample gateway, which answers "two".
use octo_speech.Prelude.{
  true, ◌∷◌, trim_space, trim_left, trim_right, is_space, ◌≡◌, refl, false, [], ◌++◌, Text, codes,
  some, none, text_eq,
}
use octo_speech.Service.Merge.{no_speech_sentinel}
use octo_speech.Service.Prompt.{build_user_message, build_system_message, append_mode}
use octo_speech.Service.Models.{
  Gateway, answered, chat_request, models_for_engine, call_chat_completion,
  call_chat_completion_with_fallback, fallback, give_up, read_response, decode_chat,
  is_non_retryable_error, find_api_error,
}
use octo_speech.Service.Transcribe.{
  chat, emotion_for, system_mode, merged_text, TranscribeOptions, TranscribeResult, Answer,
  transcribe, answer_of, engine_for, mode_for, models_for,
}
use octo_speech.Service.Merge.{no_speech_sentinel}
use octo_speech.Service.Transcribe.Merging.{transcribe-append_keeps}
use octo_speech.Samples.{settings, sample_prompts, sample_fixed, sample_gateway, other_verb, never}

abbrev options : Text → Text → TranscribeOptions
options mode engine = record {
  mode = mode;
  model = [];
  skip_mention = false;
  engine = engine;
  emotion_emoji = none;
}

-- The answer for the context "one".
abbrev run : TranscribeOptions → Answer
run opts =
    transcribe never sample_gateway other_verb sample_prompts sample_fixed settings []
      (codes "audio/wav") (codes "one") [] opts

append_succeeds : (run (options append_mode [])).error ≡ none
unfolding transcribe answer_of engine_for mode_for models_for models_for_engine
    call_chat_completion_with_fallback fallback give_up call_chat_completion read_response
    decode_chat is_non_retryable_error find_api_error text_eq
append_succeeds = refl

appends_mode : mode_for settings (options append_mode []) ≡ append_mode
unfolding mode_for engine_for text_eq
appends_mode = refl

transcribe-append_keeps_example :
    (r : TranscribeResult) × (rest : Text) × ((run (options append_mode [])).result ≡ some r)
    × (r.text ≡ codes "one" ++ rest)
transcribe-append_keeps_example =
    transcribe-append_keeps never sample_gateway other_verb sample_prompts sample_fixed settings []
      (codes "audio/wav") (codes "one") [] (options append_mode []) appends_mode append_succeeds

-- A gateway that hears nothing.
abbrev silent_gateway : Gateway
silent_gateway = record sample_gateway {
  chat = λ i url key timeout request. answered 200 [];
  choices = λ body. some (no_speech_sentinel ∷ []);
}

abbrev silent : Answer
silent =
    transcribe never silent_gateway other_verb sample_prompts sample_fixed settings []
      (codes "audio/wav") (codes "one") [] (options append_mode [])

abbrev silent_result : TranscribeResult
silent_result =
    let user_msg = build_user_message other_verb sample_prompts append_mode (codes "one") [] true in
    let system_msg =
      build_system_message sample_prompts sample_fixed true false
        (system_mode append_mode (codes "one")) in
    record {
      text = merged_text append_mode (codes "one") no_speech_sentinel;
      raw_text = no_speech_sentinel;
      model = codes "bad";
      engine = codes "gemini";
      prompt_text = user_msg;
      system_prompt = system_msg;
      prompt_type = codes "chat_completion";
      request_body = some (
          chat (
            chat_request silent_gateway (codes "bad") [] (codes "audio/wav") system_msg user_msg
              (codes "gemini")));
    }

silent_answer : silent ≡ record { result = some silent_result; error = none }
unfolding merged_text transcribe answer_of engine_for mode_for emotion_for models_for
    models_for_engine call_chat_completion_with_fallback fallback give_up call_chat_completion
    read_response decode_chat is_non_retryable_error find_api_error text_eq trim_space trim_left
    trim_right is_space
silent_answer = refl

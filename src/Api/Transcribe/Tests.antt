-- ===== src/Api/Transcribe/Tests.antt =====
-- A request to append to the text "one".
use octo_speech.Prelude.{
  List, ℕ, ◌≡◌, refl, true, false, [], ◌∷◌, ◌++◌, Text, codes, some, none, text_eq, contains,
  has_prefix, to_lower, trim_right, trim_left, trim_space, is_space,
}
use octo_speech.Prelude.Http.{pass}
use octo_speech.Prelude.Int.{pos}
use octo_speech.Prelude.Parse.{parse_bool}
use octo_speech.Config.Truncate.{truncate_runes_tail}
use octo_speech.Config.Engine.{normalize_engine, engine_to_short, shorten_model_name, find_text}
use octo_speech.Service.Merge.{
  is_no_speech, join_context_and_text, last_rune, is_cjk, is_punctuation, contains_rune,
}
use octo_speech.Service.Models.{
  models_for_engine, call_chat_completion, call_chat_completion_with_fallback, fallback, give_up,
  read_response, decode_chat, is_non_retryable_error, find_api_error,
}
use octo_speech.Service.Prompt.{build_vocabulary_reference}
use octo_speech.Service.Transcribe.{
  transcribe, answer_of, engine_for, mode_for, models_for, merged_text,
}
use octo_speech.Api.Transcribe.{
  file, Form, Checked, Transcript, check_request, handle, respond, read_upload, channel_ok,
  or_panic, mode_option, engine_option, model_option, emotion_option, log_option, answer_engine,
  listed, is_valid_model,
}
use octo_speech.Api.Transcribe.Checks.{IsChecked, check_request-IsChecked, handle-append_only_keeps}
use octo_speech.Service.Models.{Err, Gateway, answered}
use octo_speech.Service.Transcribe.{TranscribeOptions, Answer}
use octo_speech.AsrLog.{AsrEntry}
use octo_speech.Prelude.Http.{abort, reply}
use octo_speech.Api.Transcribe.{classify_transcribe_error, is_deadline, net_timeout}
use octo_speech.Api.Transcribe.Log.{Meta, asr_entry, answer_and_log, handle_logged}
use octo_speech.Api.Transcribe.Log.Entries.{Fits, handle_logged-Fits}
use octo_speech.Samples.{settings, sample_prompts, sample_fixed, sample_gateway, other_verb, never}

abbrev form : Form
form = record {
  upload = file (pos 4) [] (some (1 ∷ 2 ∷ []));
  context_text = codes "one";
  chat_context = [];
  personal_context = [];
  member_context = [];
  channel_type = codes "dm";
  mode = codes "append_only";
  engine = codes "GM";
  model = codes "good";
  emotion_emoji = codes "maybe";
  allow_feedback = [];
}

abbrev request : Checked
request = record {
  audio_data = 1 ∷ 2 ∷ [];
  mime_type = codes "audio/wav";
  context_text = codes "one";
  chat_context = [];
  personal_context = [];
  member_context = [];
  vocab_ref = [];
  opts = record {
    mode = codes "append";
    model = codes "good";
    skip_mention = true;
    engine = codes "gemini";
    emotion_emoji = none;
  };
  should_log = false;
}

accepted : check_request settings form ≡ pass request
unfolding check_request read_upload channel_ok or_panic mode_option engine_option model_option
    emotion_option log_option parse_bool listed is_valid_model truncate_runes_tail normalize_engine
    to_lower build_vocabulary_reference text_eq
accepted = refl

check_request-IsChecked_example : IsChecked settings form request
check_request-IsChecked_example = check_request-IsChecked settings form accepted

abbrev transcript : Transcript
transcript = record { text = codes "one two"; m = codes "bad"; engine = codes "gm" }

handled :
    handle
      (transcribe never sample_gateway other_verb sample_prompts sample_fixed settings)
      settings
      form
    ≡ pass transcript
unfolding handle respond answer_engine engine_to_short shorten_model_name find_text check_request
    read_upload channel_ok or_panic mode_option engine_option model_option emotion_option log_option
    parse_bool listed is_valid_model truncate_runes_tail normalize_engine to_lower
    build_vocabulary_reference text_eq transcribe answer_of engine_for mode_for models_for
    models_for_engine merged_text call_chat_completion_with_fallback fallback give_up
    call_chat_completion read_response decode_chat is_non_retryable_error find_api_error
    is_no_speech join_context_and_text last_rune is_cjk is_punctuation contains_rune is_space
    contains has_prefix trim_space trim_left trim_right
handled = refl

handle-append_only_keeps_example :
    (typed rest : Text) × (truncate_runes_tail (codes "one") (pos 10) ≡ some typed)
    × (codes "one two" ≡ typed ++ rest)
handle-append_only_keeps_example =
    handle-append_only_keeps never sample_gateway other_verb sample_prompts sample_fixed settings
      form refl handled

abbrev logged_form : Form
logged_form = record form { allow_feedback = codes "true" }

abbrev logged_request : Checked
logged_request = record request { should_log = true }

abbrev meta : Meta
meta = record {
  request_id = codes "r1";
  timestamp = codes "2026-01-01T00:00:00Z";
  app_id = codes "app_1";
  duration_ms = 7;
}

abbrev error_text : Err → Text
error_text e = codes "error"

abbrev service : Gateway → List ℕ → Text → Text → Text → TranscribeOptions → Answer
service g = transcribe never g other_verb sample_prompts sample_fixed settings

abbrev broken_gateway : Gateway
broken_gateway = record sample_gateway {
  chat = λ i url key timeout request. answered 500 (codes "boom");
}

abbrev entry_for : Gateway → AsrEntry
entry_for g =
    asr_entry error_text settings meta logged_form logged_request
      (service g (1 ∷ 2 ∷ []) (codes "audio/wav") (codes "one") [] logged_request.opts)

entry_made :
    (handle_logged error_text (service sample_gateway) true settings meta logged_form).1
    ≡ some (entry_for sample_gateway)
unfolding handle_logged answer_and_log check_request read_upload channel_ok or_panic mode_option
    engine_option model_option emotion_option log_option parse_bool listed is_valid_model
    truncate_runes_tail normalize_engine to_lower build_vocabulary_reference text_eq
entry_made = refl

broken_entry_made :
    (handle_logged error_text (service broken_gateway) true settings meta logged_form).1
    ≡ some (entry_for broken_gateway)
unfolding handle_logged answer_and_log check_request read_upload channel_ok or_panic mode_option
    engine_option model_option emotion_option log_option parse_bool listed is_valid_model
    truncate_runes_tail normalize_engine to_lower build_vocabulary_reference text_eq
broken_entry_made = refl

answered_well :
    (handle_logged error_text (service sample_gateway) true settings meta logged_form).0
    ≡ pass transcript
unfolding handle_logged answer_and_log respond answer_engine engine_to_short shorten_model_name
    find_text check_request read_upload channel_ok or_panic mode_option engine_option model_option
    emotion_option log_option parse_bool listed is_valid_model truncate_runes_tail normalize_engine
    to_lower build_vocabulary_reference text_eq transcribe answer_of engine_for mode_for models_for
    models_for_engine merged_text call_chat_completion_with_fallback fallback give_up
    call_chat_completion read_response decode_chat is_non_retryable_error find_api_error
    is_no_speech join_context_and_text last_rune is_cjk is_punctuation contains_rune is_space
    contains has_prefix trim_space trim_left trim_right
answered_well = refl

answered_badly :
    (handle_logged error_text (service broken_gateway) true settings meta logged_form).0
    ≡ abort (reply 500 "transcription failed")
unfolding handle_logged answer_and_log respond answer_engine engine_to_short shorten_model_name
    find_text check_request read_upload channel_ok or_panic mode_option engine_option model_option
    emotion_option log_option parse_bool listed is_valid_model truncate_runes_tail normalize_engine
    to_lower build_vocabulary_reference text_eq transcribe answer_of engine_for mode_for models_for
    models_for_engine merged_text call_chat_completion_with_fallback fallback give_up
    call_chat_completion read_response decode_chat is_non_retryable_error find_api_error
    is_no_speech join_context_and_text last_rune is_cjk is_punctuation contains_rune is_space
    contains has_prefix trim_space trim_left trim_right classify_transcribe_error is_deadline
    net_timeout
answered_badly = refl

handle_logged-Fits_example : Fits (entry_for sample_gateway) transcript
handle_logged-Fits_example =
    handle_logged-Fits error_text (service sample_gateway) true settings meta logged_form
      answered_well entry_made

-- ===== src/Api/Transcribe/Log.antt =====
-- `Handle` of internal/api/transcribe.go with the entry that it gives to the log. The request's
-- identifier, the formatted time, the duration and `err.Error()` are arguments.
pub mod Entries
use octo_speech.Prelude.{
  ℕ, Bool, true, false, List, [], ◌∷◌, Text, codes, length, if◌then◌else◌, ◌&&◌, Option, some, none,
}
use octo_speech.Prelude.Http.{Outcome, abort, pass}
use octo_speech.Config.{Config}
use octo_speech.Service.Merge.{is_no_speech}
use octo_speech.Service.Models.{Err}
use octo_speech.Service.Transcribe.{TranscribeOptions, TranscribeResult, Answer}
use octo_speech.AsrLog.{AsrEntry, AsrInput, AsrPrompt}
use octo_speech.Api.Transcribe.{Form, Checked, Transcript, check_request, answer_engine, respond}

-- What the handler knows of a request beside its form.
pub record Meta : Type 0 where
  pub request_id : Text
  pub timestamp : Text
  pub app_id : Text
  pub duration_ms : ℕ

unfoldable pub asr_input : Config → Form → Checked → AsrInput
asr_input cfg form c = record {
  mode = form.mode;
  audio_file = [];
  mime_type = c.mime_type;
  audio_size = length c.audio_data;
  context_text = c.context_text;
  chat_context = c.chat_context;
  personal_context = c.personal_context;
  member_context = c.member_context;
  model = form.model;
  language = cfg.language;
  channel_type = form.channel_type;
}

-- The entry before `if result != nil`.
unfoldable pub base_entry : Config → Meta → Form → Checked → AsrEntry
base_entry cfg meta form c = record {
  request_id = meta.request_id;
  timestamp = meta.timestamp;
  source = codes "api";
  app_id = meta.app_id;
  engine = answer_engine cfg c.opts;
  model_requested = form.model;
  model_used = [];
  input = asr_input cfg form c;
  prompt = none;
  raw_result_text = [];
  result_text = [];
  result_length = 0;
  is_no_speech = false;
  error = [];
  duration_ms = meta.duration_ms;
  pod_id = [];
  audio_data = c.audio_data;
}

-- `if result != nil`
unfoldable pub with_result : Option TranscribeResult → AsrEntry → AsrEntry
with_result none entry = entry
with_result (some r) entry = record entry {
  model_used = r.model;
  raw_result_text = r.raw_text;
  result_text = r.text;
  result_length = length r.text;
  is_no_speech = is_no_speech r.raw_text;
  prompt =
      some (record { type = r.prompt_type; text = r.prompt_text; request_body = r.request_body });
}

-- `if err != nil`
unfoldable pub with_error : (Err → Text) → Option Err → AsrEntry → AsrEntry
with_error error_text none entry = entry
with_error error_text (some e) entry = record entry { error = error_text e }

unfoldable pub asr_entry : (Err → Text) → Config → Meta → Form → Checked → Answer → AsrEntry
asr_entry error_text cfg meta form c a =
    with_error error_text a.error (with_result a.result (base_entry cfg meta form c))

module _ (error_text : Err → Text)
    (service : List ℕ → Text → Text → Text → TranscribeOptions → Answer) (has_log : Bool)
    (cfg : Config) (meta : Meta) (form : Form) where
  -- The handler behind its checks; `has_log` is `h.asrLogger != nil`.
  unfoldable pub answer_and_log : Outcome Checked → Outcome Transcript × Option AsrEntry
  answer_and_log (abort r) = (abort r, none)
  answer_and_log (pass c) =
      let a = service c.audio_data c.mime_type c.context_text c.vocab_ref c.opts in
      (
        respond cfg c.opts a,
        if has_log && c.should_log then some (asr_entry error_text cfg meta form c a) else none,
      )

  -- The answer of the whole handler, and the entry that it gives to the log.
  unfoldable pub handle_logged : Outcome Transcript × Option AsrEntry
  handle_logged = answer_and_log (check_request cfg form)

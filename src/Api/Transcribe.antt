-- ===== src/Api/Transcribe.antt =====
-- internal/api/transcribe.go: the handler of POST /v1/speech/transcribe. Multipart parsing and the
-- service's network are arguments.
pub mod Checks
pub mod Log
mod Tests
use octo_speech.Prelude.{
  ℕ, Bool, true, false, List, [], ◌∷◌, ◌++◌, Text, String, codes, text_eq, is_empty, if◌then◌else◌,
  ◌&&◌, ◌||◌, not, Option, some, none, length,
}
use octo_speech.Prelude.Http.{Reply, reply, Outcome, abort, pass, ◌>>=◌, ◌>>◌, guard}
use octo_speech.Prelude.Int.{ℤ, le_ℤ}
use octo_speech.Prelude.Parse.{parse_bool}
use octo_speech.Config.{Config}
use octo_speech.Config.Engine.{normalize_engine, engine_to_short, shorten_model_name}
use octo_speech.Config.Truncate.{truncate_runes_tail}
use octo_speech.Service.Merge.{is_no_speech}
use octo_speech.Service.Prompt.{build_vocabulary_reference, append_mode, edit_only_mode}
use octo_speech.Service.Models.{Err, api_error, transport, message, wrapped, gpt_edit_not_supported}
use octo_speech.Service.Transcribe.{TranscribeOptions, TranscribeResult, RequestBody, Answer}

-- `c.Request.FormFile("audio")` and `io.ReadAll`: the size that the header gives, its content type,
-- and the bytes, `none` if they cannot be read.
pub data Upload : Type 0 where
  too_large missing : Upload
  file : ℤ → Text → Option (List ℕ) → Upload

-- The fields of the form, "" if absent.
pub record Form : Type 0 where
  pub upload : Upload
  pub context_text : Text
  pub chat_context : Text
  pub personal_context : Text
  pub member_context : Text
  pub channel_type : Text
  pub mode : Text
  pub engine : Text
  pub model : Text
  pub emotion_emoji : Text
  pub allow_feedback : Text

-- What the handler passes to the service, and whether it logs the request.
pub record Checked : Type 0 where
  pub audio_data : List ℕ
  pub mime_type : Text
  pub context_text : Text
  pub chat_context : Text
  pub personal_context : Text
  pub member_context : Text
  pub vocab_ref : Text
  pub opts : TranscribeOptions
  pub should_log : Bool

abbrev pub any_eq : Text → List Text → Bool
any_eq s [] = false
any_eq s (t ∷ ts) = text_eq s t || any_eq s ts

unfoldable pub listed : Text → List Text → Bool
listed model [] = false
listed model (m ∷ ms) = text_eq m model || listed model ms

unfoldable pub is_valid_model : Config → Text → Bool
is_valid_model cfg model =
    listed model cfg.models || listed model cfg.gpt_models || listed model cfg.qwen_models

-- The audio of the upload and its MIME type.
unfoldable pub read_upload : Config → Upload → Outcome (List ℕ × Text)
read_upload cfg too_large = abort (reply 413 "request body too large")
read_upload cfg missing = abort (reply 400 "audio file is required")
read_upload cfg (file size content_type content) =
    if not (le_ℤ size cfg.max_file_size)
    then abort (reply 400 "file size exceeds limit")
    else elim content [
      | none ↦ abort (reply 400 "failed to read audio file")
      | some audio ↦ pass (audio, if is_empty content_type then codes "audio/wav" else content_type)
    ]

unfoldable pub channel_ok : Text → Bool
channel_ok channel_type =
    is_empty channel_type
    || any_eq channel_type
        (codes "dm" ∷ codes "group" ∷ codes "thread" ∷ codes "1" ∷ codes "2" ∷ codes "5" ∷ [])

-- gin.Recovery answers a panic with 500.
unfoldable pub or_panic : Option Text → Outcome Text
or_panic none = abort (reply 500 "")
or_panic (some s) = pass s

-- The mode of the options for the parameter `mode`; "" leaves the default.
unfoldable pub mode_option : Text → Outcome Text
mode_option mode =
    if is_empty mode || text_eq mode (codes "smart")
    then pass []
    else (if text_eq mode (codes "append_only")
        then pass append_mode
        else (if text_eq mode (codes "edit_only")
            then pass edit_only_mode
            else abort (reply 400 "invalid mode, expected: smart, append_only, edit_only")))

unfoldable pub engine_option : Text → Outcome Text
engine_option engine =
    if is_empty engine
    then pass []
    else (if is_empty (normalize_engine engine)
        then abort (reply 400 "invalid engine, expected: gm/gemini, gp/gpt, qw/qwen")
        else pass (normalize_engine engine))

unfoldable pub model_option : Config → Text → Outcome Text
model_option cfg model =
    if is_empty model
    then pass []
    else (if is_valid_model cfg model then pass model else abort (reply 400 "unsupported model"))

-- A value that is no Boolean is ignored.
unfoldable pub emotion_option : Text → Option Bool
emotion_option emotion = if is_empty emotion then none else parse_bool emotion

unfoldable pub log_option : Config → Text → Outcome Bool
log_option cfg allow_feedback =
    if is_empty allow_feedback
    then pass cfg.allow_feedback_log
    else elim (parse_bool allow_feedback) [
      | none ↦ abort (reply 400 "invalid allow_feedback value, expected: true or false")
      | some b ↦ pass b
    ]

-- `Handle` up to the call of the service.
unfoldable pub check_request : Config → Form → Outcome Checked
check_request cfg form = do
  (audio_data, mime_type) ← read_upload cfg form.upload
  guard (channel_ok form.channel_type)
      (reply 400 "invalid channel_type, expected: dm, group, thread, 1, 2, 5")
  context_text ← or_panic (truncate_runes_tail form.context_text cfg.max_context_text_length)
  chat_context ← or_panic (truncate_runes_tail form.chat_context cfg.max_chat_context_length)
  personal_context ←
      or_panic (truncate_runes_tail form.personal_context cfg.max_voice_context_length)
  member_context ← or_panic (truncate_runes_tail form.member_context cfg.max_member_context_length)
  mode ← mode_option form.mode
  guard (not (text_eq mode edit_only_mode && is_empty context_text))
      (reply 400 "edit_only mode requires context_text")
  engine ← engine_option form.engine
  model ← model_option cfg form.model
  should_log ← log_option cfg form.allow_feedback
  pass (record {
    audio_data = audio_data;
    mime_type = mime_type;
    context_text = context_text;
    chat_context = chat_context;
    personal_context = personal_context;
    member_context = member_context;
    vocab_ref = build_vocabulary_reference personal_context member_context chat_context;
    opts = record {
      mode = mode;
      model = model;
      skip_mention =
          text_eq form.channel_type (codes "dm") || text_eq form.channel_type (codes "1");
      engine = engine;
      emotion_emoji = emotion_option form.emotion_emoji;
    };
    should_log = should_log;
  })

-- `errors.Is(err, context.DeadlineExceeded)`
unfoldable pub is_deadline : Err → Bool
is_deadline (transport deadline timeout) = deadline
is_deadline (wrapped prefix e) = is_deadline e
is_deadline (api_error status body) = false
is_deadline (message text) = false
is_deadline gpt_edit_not_supported = false

-- `errors.As(err, &netErr)` with `netErr.Timeout()`
unfoldable pub net_timeout : Err → Option Bool
net_timeout (transport deadline timeout) = timeout
net_timeout (wrapped prefix e) = net_timeout e
net_timeout (api_error status body) = none
net_timeout (message text) = none
net_timeout gpt_edit_not_supported = none

unfoldable pub classify_transcribe_error : Err → String
classify_transcribe_error e =
    if is_deadline e then "transcription failed: timeout" else elim (net_timeout e) [
      | none ↦ "transcription failed"
      | some timeout ↦
          if timeout
          then "transcription failed: timeout"
          else "transcription failed: service unavailable"
    ]

-- The body of an answer with status 200.
pub record Transcript : Type 0 where
  pub text : Text
  pub m : Text
  pub engine : Text

-- The engine of the answer and of the log.
unfoldable pub answer_engine : Config → TranscribeOptions → Text
answer_engine cfg opts = if is_empty opts.engine then cfg.engine else opts.engine

abbrev is_gpt_edit : Err → Bool
is_gpt_edit gpt_edit_not_supported = true
is_gpt_edit (api_error status body) = false
is_gpt_edit (transport deadline timeout) = false
is_gpt_edit (message text) = false
is_gpt_edit (wrapped prefix e) = false

-- `Handle` behind the call of the service. A nil result without an error, which the service never
-- returns, would panic.
unfoldable pub respond : Config → TranscribeOptions → Answer → Outcome Transcript
respond cfg opts a = elim a.error [
  | some e ↦
      if is_gpt_edit e
      then abort (reply 400 "edit mode is not supported with GPT engine")
      else abort (reply 500 (classify_transcribe_error e))
  | none ↦ elim a.result [
    | none ↦ abort (reply 500 "")
    | some r ↦ pass (record {
      text = r.text;
      m = shorten_model_name r.model;
      engine = engine_to_short (answer_engine cfg opts);
    })
  ]
]

-- `Handle`: `service` is the call of `Transcribe`; `pass` is the answer with status 200.
unfoldable pub handle :
    (List ℕ → Text → Text → Text → TranscribeOptions → Answer) → Config → Form → Outcome Transcript
handle service cfg form = do
  c ← check_request cfg form
  respond cfg c.opts (service c.audio_data c.mime_type c.context_text c.vocab_ref c.opts)

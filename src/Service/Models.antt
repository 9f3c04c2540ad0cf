-- ===== src/Service/Models.antt =====
-- The calls of the models in internal/service/transcribe.go: the settings of an engine, one request
-- to a model, and the loop that falls back to the next one. The gateway behind the network, the
-- JSON decoder and the clock of the total timeout are arguments.
pub mod Order
mod Tests
use octo_speech.Prelude.{
  ℕ, suc, Bool, true, false, List, [], ◌∷◌, ◌++◌, Text, codes, String, text_eq, contains,
  trim_right, trim_space, is_empty, ◌==◌, leb, ltb, if◌then◌else◌, ◌&&◌, Option, some, none, not,
}
use octo_speech.Prelude.Int.{ℤ, is_pos}
use octo_speech.Config.{Config}
use octo_speech.Config.Engine.{engine_gemini, engine_gpt, engine_qwen}
use octo_speech.Service.Merge.{mime_type_to_format}

-- An error, as far as the program looks into it. `transport deadline timeout` is an error of the
-- HTTP client: whether it is context.DeadlineExceeded, and, if it is a net.Error, its Timeout().
pub data Err : Type 0 where
  api_error : ℕ → Text → Err
  transport : Bool → Option Bool → Err
  message : String → Err
  wrapped : String → Err → Err
  gpt_edit_not_supported : Err

pub data Result : Type 0 where
  ok : Text → Result
  err : Err → Result

-- `errors.As(err, &ae)`: the status of the APIError in the chain.
unfoldable pub find_api_error : Err → Option ℕ
find_api_error (api_error status body) = some status
find_api_error (wrapped prefix e) = find_api_error e
find_api_error (transport deadline timeout) = none
find_api_error (message text) = none
find_api_error gpt_edit_not_supported = none

unfoldable pub is_non_retryable_error : Err → Bool
is_non_retryable_error e = elim (find_api_error e) [
  | none ↦ false
  | some status ↦ leb 400 status && ltb status 500 && not (status == 429)
]

unfoldable pub models_for_engine : Config → Text → List Text
models_for_engine cfg engine =
    if text_eq engine engine_gpt
    then cfg.gpt_models
    else (if text_eq engine engine_qwen then cfg.qwen_models else cfg.models)

unfoldable pub effective_url : Config → Text → Text
effective_url cfg engine =
    if text_eq engine engine_qwen && not (is_empty cfg.qwen_url)
    then cfg.qwen_url
    else cfg.litellm_url

unfoldable pub effective_key : Config → Text → Text
effective_key cfg engine =
    if text_eq engine engine_qwen && not (is_empty cfg.qwen_key)
    then cfg.qwen_key
    else cfg.litellm_key

unfoldable pub effective_timeout : Config → Text → ℤ
effective_timeout cfg engine =
    if text_eq engine engine_qwen && is_pos cfg.qwen_timeout then cfg.qwen_timeout else cfg.timeout

-- chatMessage: the role "system" with a text, or "user" with a text and an audio.
pub data ChatMessage : Type 0 where
  system : Text → ChatMessage
  user : Text → (audio : Text) → (format : String) → ChatMessage

-- chatCompletionRequest; an empty reasoning effort is left out of the JSON.
pub record ChatRequest : Type 0 where
  pub model : Text
  pub messages : List ChatMessage
  pub reasoning_effort : Text

-- The form of an audio transcription; an empty language or prompt is left out.
pub record AudioForm : Type 0 where
  pub model : Text
  pub language : Text
  pub prompt : Text
  pub file_name : Text
  pub audio : List ℕ

pub data Response : Type 0 where
  failed : Bool → Option Bool → Response
  unread : Bool → Option Bool → Response
  answered : ℕ → Text → Response

-- What stands outside: base64, URLs that net/http accepts, the responses to the requests of the
-- attempts in their order, and the decoders of a body, `none` for a body that does not parse.
pub record Gateway : Type 0 where
  pub base64 : List ℕ → Text
  pub accepts_url : Text → Bool
  pub chat : ℕ → (url key : Text) → ℤ → ChatRequest → Response
  pub transcribe : ℕ → (url key : Text) → ℤ → AudioForm → Response
  pub choices : Text → Option (List Text)
  pub text_of : Text → Option Text

-- `strings.TrimRight(url, "/")`
unfoldable pub trim_slashes : Text → Text
trim_slashes = trim_right (λ c. c == b'/')

-- From the response to the text: `decode` reads the body of a 200.
unfoldable pub read_response : (Text → Result) → Response → Result
read_response decode (failed deadline timeout) =
    err (wrapped "request failed" (transport deadline timeout))
read_response decode (unread deadline timeout) =
    err (wrapped "read response" (transport deadline timeout))
read_response decode (answered status body) =
    if status == 200 then decode body else err (api_error status body)

unfoldable pub decode_chat : Gateway → Text → Result
decode_chat g body = elim (g.choices body) [
  | none ↦ err (wrapped "parse response" (message "json"))
  | some [] ↦ err (message "empty response from model")
  | some (content ∷ _) ↦ ok (trim_space content)
]

unfoldable pub decode_transcription : Gateway → Text → Result
decode_transcription g body = elim (g.text_of body) [
  | none ↦ err (wrapped "parse response" (message "json"))
  | some text ↦ ok (trim_space text)
]

-- The request that `callChatCompletion` builds.
unfoldable pub chat_request : Gateway → Text → List ℕ → Text → Text → Text → Text → ChatRequest
chat_request g model audio_data mime_type system_msg user_msg engine =
    let b64 = g.base64 audio_data in
    record {
      model = model;
      messages =
          (if is_empty system_msg then [] else system system_msg ∷ [])
          ++ user user_msg
              (if text_eq engine engine_qwen then codes "data:;base64," ++ b64 else b64)
              (mime_type_to_format mime_type)
            ∷ [];
      reasoning_effort =
          if text_eq engine engine_gemini && contains model (codes "3.1-pro")
          then codes "low"
          else [];
    }

unfoldable pub call_chat_completion :
    Gateway → Config → List ℕ → Text → Text → Text → Text → ℕ → Text → Result
call_chat_completion g cfg audio_data mime_type system_msg user_msg engine attempt model =
    let url = trim_slashes (effective_url cfg engine) ++ codes "/chat/completions" in
    if g.accepts_url url
    then read_response (decode_chat g) (
        g.chat attempt url (effective_key cfg engine) (effective_timeout cfg engine)
          (chat_request g model audio_data mime_type system_msg user_msg engine))
    else err (wrapped "create request" (message "url"))

unfoldable pub call_audio_transcriptions :
    Gateway → Config → List ℕ → Text → Text → ℕ → Text → Result
call_audio_transcriptions g cfg audio_data mime_type prompt attempt model =
    let url = trim_slashes cfg.litellm_url ++ codes "/audio/transcriptions" in
    if g.accepts_url url
    then read_response (decode_transcription g) (
        g.transcribe attempt url cfg.litellm_key cfg.timeout (record {
          model = model;
          language = cfg.language;
          prompt = prompt;
          file_name = codes "audio." ++ codes (mime_type_to_format mime_type);
          audio = audio_data;
        }))
    else err (wrapped "create request" (message "url"))

-- What a fallback returns: the text, the model, the body of the last request and the error.
pub record Fallback {ℓ} (B : Type ℓ) : Type ℓ where
  pub text : Text
  pub model : Text
  pub body : Option B
  pub error : Option Err

-- The loop of both fallbacks from the attempt `i` on. `expired i` tells whether the total timeout
-- has passed before that attempt, `call i model` is its result and `body model` its request.
module _ {ℓ} {B : Type ℓ} (expired : ℕ → Bool) (call : ℕ → Text → Result) (body : Text → B)
    (none_configured all_failed : String) where
  unfoldable pub give_up : Option Err → Option B → Fallback B
  give_up last_err last_body = record {
    text = [];
    model = [];
    body = last_body;
    error =
        some (wrapped all_failed (elim last_err [ none ↦ message none_configured | some e ↦ e ]));
  }

  unfoldable pub fallback : ℕ → Option Err → Option B → List Text → Fallback B
  fallback i last_err last_body [] = give_up last_err last_body
  fallback i last_err last_body (model ∷ models) =
      if expired i then give_up last_err last_body else elim (call i model) [
        | ok text ↦ record { text = text; model = model; body = some (body model); error = none }
        | err e ↦
            if is_non_retryable_error e
            then record { text = []; model = model; body = some (body model); error = some e }
            else fallback (suc i) (some e) (some (body model)) models
      ]

unfoldable pub call_chat_completion_with_fallback :
    (ℕ → Bool)
    → Gateway
    → Config
    → List ℕ
    → Text
    → Text
    → Text
    → List Text
    → Text
    → Fallback ChatRequest
call_chat_completion_with_fallback expired g cfg audio_data mime_type system_msg user_msg models
      engine =
    fallback expired (call_chat_completion g cfg audio_data mime_type system_msg user_msg engine)
      (λ model. chat_request g model audio_data mime_type system_msg user_msg engine)
      "no models configured" "all models failed" 0 none none models

-- The map that `callGPTWithModelFallback` logs as the request body.
pub record GptBody : Type 0 where
  pub model : Text
  pub language : Text
  pub prompt : Text
  pub audio_base64 : Text

unfoldable pub call_gpt_with_model_fallback :
    (ℕ → Bool) → Gateway → Config → List ℕ → Text → Text → List Text → Fallback GptBody
call_gpt_with_model_fallback expired g cfg audio_data mime_type prompt models =
    fallback expired (call_audio_transcriptions g cfg audio_data mime_type prompt)
      (λ model. record {
        model = model;
        language = cfg.language;
        prompt = prompt;
        audio_base64 = g.base64 audio_data;
      })
      "no GPT models configured" "all GPT models failed" 0 none none models

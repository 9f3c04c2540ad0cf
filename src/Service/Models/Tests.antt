-- ===== src/Service/Models/Tests.antt =====
-- A run of the fallback over two models, the first of which is busy.
use octo_speech.Prelude.{
  ◌≡◌, ◌↔◌, refl, [], codes, some, none, trim_right, trim_left, trim_space, is_space,
}
use octo_speech.Service.Models.{
  call_chat_completion, call_chat_completion_with_fallback, chat_request, fallback, give_up,
  read_response, decode_chat, is_non_retryable_error, find_api_error,
}
use octo_speech.Service.Models.Order.{Answers, call_chat_completion_with_fallback_iff}
use octo_speech.Samples.{settings, sample_gateway, never}

falls_back :
    (call_chat_completion_with_fallback never sample_gateway settings []
      (codes "audio/wav")
      []
      (codes "task")
      settings.models
      (codes "gemini")).text
    ≡ codes "two"
unfolding call_chat_completion_with_fallback fallback give_up call_chat_completion read_response
    decode_chat is_non_retryable_error find_api_error trim_space trim_left trim_right is_space
falls_back = refl

call_chat_completion_with_fallback_iff_example :
    (call_chat_completion_with_fallback never sample_gateway settings []
        (codes "audio/wav")
        []
        (codes "task")
        settings.models
        (codes "gemini")
      ≡ record {
        text = codes "two";
        model = codes "good";
        body = some (
            chat_request sample_gateway
              (codes "good")
              []
              (codes "audio/wav")
              []
              (codes "task")
              (codes "gemini"));
        error = none;
      })
    ↔ Answers never
        (call_chat_completion sample_gateway settings []
          (codes "audio/wav")
          []
          (codes "task")
          (codes "gemini"))
        (codes "good")
        (codes "two")
        0
        settings.models
call_chat_completion_with_fallback_iff_example =
    call_chat_completion_with_fallback_iff never sample_gateway settings [] (codes "audio/wav") []
      (codes "task") (codes "gemini") settings.models (codes "good") (codes "two")

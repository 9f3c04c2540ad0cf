-- ===== src/Service/Prompt/Whole/Statement.antt =====
-- What a whole system message of internal/service/prompt.go is.
use octo_speech.Prelude.{Bool, false, not, Text, codes, ◌++◌, contains, ◌≡◌, ◌||◌}
use octo_speech.Service.Merge.{no_speech_sentinel}
use octo_speech.Service.Prompt.Defaults.Emotion.{
  emotion_annotation_section, edit_only_emotion_section,
}
use octo_speech.Service.Prompt.Defaults.Mention.{mention_recognition_section}

-- "You must output" and "it is forbidden to output", in front of the sentinel.
abbrev pub demand : Text
demand = codes "你必须输出 "

abbrev pub ban : Text
ban = codes "禁止输出 "

-- No placeholder is left; the sections on mentions and on emotions are there exactly when they are
-- asked for. The message demands the sentinel that `IsNoSpeech` looks for, for audio without any voice,
-- and does not forbid it; in the mode that only edits, it forbids the sentinel and does not demand it.
pub record IsWhole (message : Text) (emotion_emoji skip_mention edit_only : Bool) : Type 0 where
  pub no_placeholder : contains message (codes "{{") ≡ false
  pub mention : contains message mention_recognition_section ≡ not skip_mention
  pub emotion :
      (contains message emotion_annotation_section || contains message edit_only_emotion_section)
      ≡ emotion_emoji
  pub demanded : contains message (demand ++ no_speech_sentinel) ≡ not edit_only
  pub forbidden : contains message (ban ++ no_speech_sentinel) ≡ edit_only

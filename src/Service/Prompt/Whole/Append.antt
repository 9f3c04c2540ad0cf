-- ===== src/Service/Prompt/Whole/Append.antt =====
-- The default system message for appending, of internal/service/prompt.go.
use octo_speech.Prelude.{Bool, true, false, contains, refl, text_eq, lines, has_prefix, join}
use octo_speech.Service.Replacer.{replace_from, held, find_key}
use octo_speech.Service.Prompt.{
  build_system_message, append_mode, system_template, prompt_placeholders, edit_placeholder,
}
use octo_speech.Service.Prompt.Defaults.{default_prompts, default_fixed}
use octo_speech.Service.Prompt.Defaults.AppendOnly.{system_prompt_append_only_head}
use octo_speech.Service.Prompt.Defaults.AppendOnlyEnd.{
  system_prompt_append_only, system_prompt_append_only_tail,
}
use octo_speech.Service.Prompt.Defaults.Emotion.{
  emotion_annotation_section, rule5_title_with_emotion, rule5_title_no_emotion,
  emotion_examples_section, edit_only_emotion_examples_section, edit_only_emotion_section,
}
use octo_speech.Service.Prompt.Defaults.Mention.{mention_recognition_section, edit_section}
use octo_speech.Service.Prompt.Whole.Statement.{IsWhole}

pub append_message-IsWhole :
    (e s : Bool)
    → IsWhole (build_system_message default_prompts default_fixed e s append_mode) e s false
unfolding contains lines join has_prefix build_system_message system_template held replace_from
    find_key prompt_placeholders edit_placeholder default_prompts default_fixed text_eq
    emotion_annotation_section rule5_title_with_emotion rule5_title_no_emotion
    emotion_examples_section edit_only_emotion_examples_section edit_only_emotion_section
    mention_recognition_section edit_section system_prompt_append_only
    system_prompt_append_only_head system_prompt_append_only_tail
append_message-IsWhole true true = record {
  no_placeholder = refl;
  mention = refl;
  emotion = refl;
  demanded = refl;
  forbidden = refl;
}
append_message-IsWhole true false = record {
  no_placeholder = refl;
  mention = refl;
  emotion = refl;
  demanded = refl;
  forbidden = refl;
}
append_message-IsWhole false true = record {
  no_placeholder = refl;
  mention = refl;
  emotion = refl;
  demanded = refl;
  forbidden = refl;
}
append_message-IsWhole false false = record {
  no_placeholder = refl;
  mention = refl;
  emotion = refl;
  demanded = refl;
  forbidden = refl;
}

-- ===== src/Service/Prompt/Whole/Edit.antt =====
-- The default system message for editing, of internal/service/prompt.go.
use octo_speech.Prelude.{Bool, true, false, contains, refl, text_eq, lines, has_prefix, join}
use octo_speech.Service.Replacer.{replace_from, held, find_key}
use octo_speech.Service.Prompt.{
  build_system_message, edit_mode, system_template, prompt_placeholders, edit_placeholder,
}
use octo_speech.Service.Prompt.Defaults.{default_prompts, default_fixed}
use octo_speech.Service.Prompt.Defaults.System.{system_prompt_template_head}
use octo_speech.Service.Prompt.Defaults.SystemEnd.{
  system_prompt_template, system_prompt_template_tail,
}
use octo_speech.Service.Prompt.Defaults.Emotion.{
  emotion_annotation_section, rule5_title_with_emotion, rule5_title_no_emotion,
  emotion_examples_section, edit_only_emotion_examples_section, edit_only_emotion_section,
}
use octo_speech.Service.Prompt.Defaults.Mention.{mention_recognition_section, edit_section}
use octo_speech.Service.Prompt.Whole.Statement.{IsWhole}

pub edit_message-IsWhole :
    (e s : Bool)
    → IsWhole (build_system_message default_prompts default_fixed e s edit_mode) e s false
unfolding contains lines join has_prefix build_system_message system_template held replace_from
    find_key prompt_placeholders edit_placeholder default_prompts default_fixed text_eq
    emotion_annotation_section rule5_title_with_emotion rule5_title_no_emotion
    emotion_examples_section edit_only_emotion_examples_section edit_only_emotion_section
    mention_recognition_section edit_section system_prompt_template system_prompt_template_head
    system_prompt_template_tail
edit_message-IsWhole true true = record {
  no_placeholder = refl;
  mention = refl;
  emotion = refl;
  demanded = refl;
  forbidden = refl;
}
edit_message-IsWhole true false = record {
  no_placeholder = refl;
  mention = refl;
  emotion = refl;
  demanded = refl;
  forbidden = refl;
}
edit_message-IsWhole false true = record {
  no_placeholder = refl;
  mention = refl;
  emotion = refl;
  demanded = refl;
  forbidden = refl;
}
edit_message-IsWhole false false = record {
  no_placeholder = refl;
  mention = refl;
  emotion = refl;
  demanded = refl;
  forbidden = refl;
}

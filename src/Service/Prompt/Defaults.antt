-- ===== src/Service/Prompt/Defaults.antt =====
-- The default prompts: the constants of internal/service/prompt.go, line by line, and
-- `ResetPromptsToDefaults` of internal/service/prompt_config.go.
pub mod Emotion
pub mod Mention
pub mod Tasks
pub mod AppendOnly
pub mod AppendOnlyEnd
pub mod EditOnly
pub mod EditOnlyEnd
pub mod System
pub mod SystemEnd
use octo_speech.Service.Prompt.{PromptConfig, FixedSections}
use octo_speech.Service.Prompt.Defaults.Emotion.{
  emotion_annotation_section, rule5_title_with_emotion, rule5_title_no_emotion,
  emotion_examples_section, edit_only_emotion_examples_section, edit_only_emotion_section,
}
use octo_speech.Service.Prompt.Defaults.Mention.{mention_recognition_section, edit_section}
use octo_speech.Service.Prompt.Defaults.Tasks.{
  vocabulary_reference_template, append_input_buffer_template,
  append_input_buffer_no_vocab_template, edit_input_buffer_template, task_transcribe,
  task_transcribe_with_vocab, task_append, task_append_no_emotion, task_edit, task_edit_only,
  task_edit_no_emotion, task_edit_only_no_emotion,
}
use octo_speech.Service.Prompt.Defaults.AppendOnlyEnd.{system_prompt_append_only}
use octo_speech.Service.Prompt.Defaults.EditOnlyEnd.{system_prompt_edit_only}
use octo_speech.Service.Prompt.Defaults.SystemEnd.{system_prompt_template}
use octo_speech.Prelude.{false}

-- `ResetPromptsToDefaults`: nothing is overridden, and the settings it leaves out are empty.
unfoldable pub default_prompts : PromptConfig
default_prompts = record {
  system = system_prompt_template;
  system_append_only = system_prompt_append_only;
  system_edit_only = system_prompt_edit_only;
  system_overridden = false;
  append_only_overridden = false;
  edit_only_overridden = false;
  vocabulary_reference = vocabulary_reference_template;
  append_input_buffer = append_input_buffer_template;
  append_input_buffer_no_vocab = append_input_buffer_no_vocab_template;
  edit_input_buffer = edit_input_buffer_template;
  task_transcribe = task_transcribe;
  task_transcribe_with_vocab = task_transcribe_with_vocab;
  task_append = task_append;
  task_append_no_emotion = task_append_no_emotion;
  task_edit = task_edit;
  task_edit_only = task_edit_only;
  task_edit_no_emotion = task_edit_no_emotion;
  task_edit_only_no_emotion = task_edit_only_no_emotion;
  mention_section = mention_recognition_section;
  emotion_section = emotion_annotation_section;
  emotion_examples = emotion_examples_section;
  rule5_title_with_emotion = rule5_title_with_emotion;
  rule5_title_no_emotion = rule5_title_no_emotion;
}

-- The sections that the code takes from its constants whatever the settings say.
unfoldable pub default_fixed : FixedSections
default_fixed = record {
  edit_only_emotion_examples_section = edit_only_emotion_examples_section;
  edit_only_emotion_section = edit_only_emotion_section;
  edit_section = edit_section;
}

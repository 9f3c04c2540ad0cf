-- ===== src/Service/Prompt/Load.antt =====
-- `LoadPrompts` of internal/service/prompt_config.go. Log lines are left out.
use octo_speech.Prelude.{
  ℕ, suc, Bool, true, false, [], ◌∷◌, Text, codes, has_prefix, is_empty, trim_space, trim_right,
  ◌==◌, zero, if◌then◌else◌, ◌||◌, Option, some, none,
}
use octo_speech.Service.Prompt.{PromptConfig}

-- strings.TrimRight(s, "\r\n")
unfoldable pub trim_newlines : Text → Text
trim_newlines = trim_right (λ c. (c == 13) || (c == 10))

-- strings.Count(s, "%s"); `skip` is 1 behind the `%` of an occurrence.
unfoldable pub count_verbs : ℕ → Text → ℕ
count_verbs skip [] = 0
count_verbs (suc skip) (c ∷ s) = count_verbs skip s
count_verbs zero (c ∷ s) =
    let here = suc (count_verbs 1 s) in
    let none_here = count_verbs zero s in
    if has_prefix (c ∷ s) (codes "%s") then here else none_here

-- An override from the file, for a field that has no format.
unfoldable pub field_or : Text → Text → Text
field_or default value = if is_empty (trim_space value) then default else trim_newlines value

-- An override for one of the four templates, which must hold %s exactly once.
unfoldable pub template_or : Text → Text → Text
template_or default value =
    if is_empty (trim_space value)
    then default
    else (if count_verbs 0 (trim_newlines value) == 1 then trim_newlines value else default)

abbrev is_set : Text → Bool
is_set value = if is_empty (trim_space value) then false else true

-- What `LoadPrompts` assigns to `activePrompts`. `file` is the parsed YAML, `none` for an empty
-- path, a file that cannot be read and one that does not parse; the flags of `file` are not read.
unfoldable pub load_prompts : PromptConfig → Option PromptConfig → PromptConfig
load_prompts defaults none = defaults
load_prompts defaults (some cfg) = record {
  system = field_or defaults.system cfg.system;
  system_append_only = field_or defaults.system_append_only cfg.system_append_only;
  system_edit_only = field_or defaults.system_edit_only cfg.system_edit_only;
  system_overridden = is_set cfg.system;
  append_only_overridden = is_set cfg.system_append_only;
  edit_only_overridden = is_set cfg.system_edit_only;
  vocabulary_reference = template_or defaults.vocabulary_reference cfg.vocabulary_reference;
  append_input_buffer = template_or defaults.append_input_buffer cfg.append_input_buffer;
  append_input_buffer_no_vocab =
      template_or defaults.append_input_buffer_no_vocab cfg.append_input_buffer_no_vocab;
  edit_input_buffer = template_or defaults.edit_input_buffer cfg.edit_input_buffer;
  task_transcribe = field_or defaults.task_transcribe cfg.task_transcribe;
  task_transcribe_with_vocab =
      field_or defaults.task_transcribe_with_vocab cfg.task_transcribe_with_vocab;
  task_append = field_or defaults.task_append cfg.task_append;
  task_append_no_emotion = field_or defaults.task_append_no_emotion cfg.task_append_no_emotion;
  task_edit = field_or defaults.task_edit cfg.task_edit;
  task_edit_only = field_or defaults.task_edit_only cfg.task_edit_only;
  task_edit_no_emotion = field_or defaults.task_edit_no_emotion cfg.task_edit_no_emotion;
  task_edit_only_no_emotion =
      field_or defaults.task_edit_only_no_emotion cfg.task_edit_only_no_emotion;
  mention_section = field_or defaults.mention_section cfg.mention_section;
  emotion_section = field_or defaults.emotion_section cfg.emotion_section;
  emotion_examples = field_or defaults.emotion_examples cfg.emotion_examples;
  rule5_title_with_emotion =
      field_or defaults.rule5_title_with_emotion cfg.rule5_title_with_emotion;
  rule5_title_no_emotion = field_or defaults.rule5_title_no_emotion cfg.rule5_title_no_emotion;
}

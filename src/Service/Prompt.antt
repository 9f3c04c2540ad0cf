-- ===== src/Service/Prompt.antt =====
-- internal/service/prompt_config.go and the functions of internal/service/prompt.go. The default
-- prompts, the constants of prompt.go, stand in Defaults. `activePrompts` is an argument of what
-- reads it.
pub mod Load
pub mod Sections
pub mod Contexts
pub mod Defaults
pub mod Whole
pub mod Formats
mod Tests
use octo_speech.Prelude.{
  ℕ, Bool, true, false, List, [], ◌∷◌, ◌++◌, Text, codes, text_eq, contains, has_prefix, drop,
  is_empty, join, if◌then◌else◌, ◌||◌, Option, some, none, ◌==◌, not, ◌&&◌,
}
use octo_speech.Service.Replacer.{replace_from, held}

pub record PromptConfig : Type 0 where
  pub system : Text
  pub system_append_only : Text
  pub system_edit_only : Text
  pub system_overridden : Bool
  pub append_only_overridden : Bool
  pub edit_only_overridden : Bool
  pub vocabulary_reference : Text
  pub append_input_buffer : Text
  pub append_input_buffer_no_vocab : Text
  pub edit_input_buffer : Text
  pub task_transcribe : Text
  pub task_transcribe_with_vocab : Text
  pub task_append : Text
  pub task_append_no_emotion : Text
  pub task_edit : Text
  pub task_edit_only : Text
  pub task_edit_no_emotion : Text
  pub task_edit_only_no_emotion : Text
  pub mention_section : Text
  pub emotion_section : Text
  pub emotion_examples : Text
  pub rule5_title_with_emotion : Text
  pub rule5_title_no_emotion : Text

-- The sections of prompt.go that no file can override.
pub record FixedSections : Type 0 where
  pub edit_only_emotion_examples_section : Text
  pub edit_only_emotion_section : Text
  pub edit_section : Text

abbrev pub append_mode : Text
append_mode = codes "append"

abbrev pub edit_mode : Text
edit_mode = codes "edit"

abbrev pub edit_only_mode : Text
edit_only_mode = codes "edit_only"

-- var promptPlaceholders, each with its resolved text.
unfoldable pub prompt_placeholders : PromptConfig → FixedSections → Bool → Bool → List (Text × Text)
prompt_placeholders p fixed emotion_emoji skip_mention =
    (
      codes "{{RULE5_TITLE}}",
      if emotion_emoji then p.rule5_title_with_emotion else p.rule5_title_no_emotion,
    )
    ∷ (codes "{{EMOTION_SECTION}}", if emotion_emoji then p.emotion_section else [])
    ∷ (codes "{{EMOTION_EXAMPLES}}", if emotion_emoji then p.emotion_examples else [])
    ∷ (
      codes "{{EDIT_ONLY_EMOTION_EXAMPLES}}",
      if emotion_emoji then fixed.edit_only_emotion_examples_section else [],
    )
    ∷ (
      codes "{{EDIT_ONLY_EMOTION_SECTION}}",
      if emotion_emoji then fixed.edit_only_emotion_section else [],
    )
    ∷ (codes "{{MENTION_SECTION}}", if skip_mention then [] else p.mention_section)
    ∷ []

-- The template that `BuildSystemMessage` selects.
unfoldable pub system_template : PromptConfig → Text → Text
system_template p m =
    if text_eq m append_mode
    then (if p.append_only_overridden
        then p.system_append_only
        else (if p.system_overridden then p.system else p.system_append_only))
    else (if text_eq m edit_only_mode
        then (if p.edit_only_overridden
            then p.system_edit_only
            else (if p.system_overridden then p.system else p.system_edit_only))
        else p.system)

-- The pair for {{EDIT_SECTION}}.
unfoldable pub edit_placeholder : FixedSections → Text → List (Text × Text)
edit_placeholder fixed m =
    (
      codes "{{EDIT_SECTION}}",
      if text_eq m edit_mode || text_eq m edit_only_mode then fixed.edit_section else [],
    )
    ∷ []

-- `BuildSystemMessage`; without a mode argument `m` is "".
unfoldable pub build_system_message : PromptConfig → FixedSections → Bool → Bool → Text → Text
build_system_message p fixed emotion_emoji skip_mention m =
    let tmpl = system_template p m in
    let pairs =
      held tmpl (prompt_placeholders p fixed emotion_emoji skip_mention)
      ++ held tmpl (edit_placeholder fixed m) in
    if is_empty pairs then tmpl else replace_from pairs 0 tmpl

-- A section of `BuildVocabularyReference`, left out for an empty context.
abbrev tagged : Text → Text → Text → List Text
tagged before ctx after = if is_empty ctx then [] else (before ++ (ctx ++ after)) ∷ []

unfoldable pub build_vocabulary_reference : Text → Text → Text → Text
build_vocabulary_reference personal_ctx member_ctx chat_ctx =
    if is_empty personal_ctx && is_empty member_ctx
    then chat_ctx
    else join (codes "\n") (
        tagged (codes "用户个人设置的纠错上下文:\n<personal_vocabulary>\n") personal_ctx
          (codes "\n</personal_vocabulary>")
        ++ (tagged (codes "聊天成员上下文:\n<member_vocabulary>\n") member_ctx
              (codes "\n</member_vocabulary>")
            ++ tagged (codes "最近的聊天消息内容:\n<latest_chat_context>\n") chat_ctx
                (codes "\n</latest_chat_context>")))

-- The text before and after the only `%` of a format, if that is the verb %s.
unfoldable pub split_verb : Text → Option (Text × Text)
split_verb [] = none
split_verb (c ∷ s) =
    let rest = split_verb s in
    if c == b'%'
    then (if has_prefix s (codes "s") && not (contains s (codes "%"))
        then some ([], drop 1 s)
        else none)
    else elim rest [ none ↦ none | some (before, after) ↦ some (c ∷ before, after) ]

-- `fmt.Sprintf(format, arg)` for a text `arg`. A format with other verbs is left to `other`.
unfoldable pub sprintf : (Text → Text → Text) → Text → Text → Text
sprintf other format arg = elim (split_verb format) [
  | none ↦ other format arg
  | some (before, after) ↦ before ++ (arg ++ after)
]

-- The task of `BuildUserMessage` where there is no input buffer to work on.
abbrev transcribe_task : PromptConfig → Bool → List Text
transcribe_task p has_vocab =
    (if has_vocab then p.task_transcribe_with_vocab else p.task_transcribe) ∷ []

unfoldable pub user_message_task :
    (Text → Text → Text) → PromptConfig → Text → Text → Bool → Bool → List Text
user_message_task other p mode context_text has_vocab emotion_emoji =
    if text_eq mode append_mode && not (is_empty context_text)
    then sprintf other (if has_vocab then p.append_input_buffer else p.append_input_buffer_no_vocab)
        context_text
      ∷ (if emotion_emoji then p.task_append else p.task_append_no_emotion)
      ∷ []
    else (if text_eq mode edit_mode && not (is_empty context_text)
        then sprintf other p.edit_input_buffer context_text
          ∷ (if emotion_emoji then p.task_edit else p.task_edit_no_emotion)
          ∷ []
        else (if text_eq mode edit_only_mode && not (is_empty context_text)
            then sprintf other p.edit_input_buffer context_text
              ∷ (if emotion_emoji then p.task_edit_only else p.task_edit_only_no_emotion)
              ∷ []
            else transcribe_task p has_vocab))

unfoldable pub build_user_message :
    (Text → Text → Text) → PromptConfig → Text → Text → Text → Bool → Text
build_user_message other p mode context_text chat_context emotion_emoji =
    let has_vocab = not (is_empty chat_context) in
    join (codes "\n\n") (
      (if has_vocab then sprintf other p.vocabulary_reference chat_context ∷ [] else [])
      ++ user_message_task other p mode context_text has_vocab emotion_emoji)

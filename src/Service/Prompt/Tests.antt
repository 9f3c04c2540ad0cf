-- ===== src/Service/Prompt/Tests.antt =====
-- Prompts from the sample templates.
use octo_speech.Prelude.{
  ◌≡◌, refl, inl, true, false, [], codes, arith, text_eq, join, contains, has_prefix,
}
use octo_speech.Service.Prompt.{
  build_system_message, build_user_message, append_mode, edit_mode, system_template,
  prompt_placeholders, edit_placeholder, user_message_task, sprintf, split_verb,
}
use octo_speech.Service.Prompt.Sections.{Holds}
use octo_speech.Service.Replacer.{replace_from, held, find_key}
use octo_speech.Service.Prompt.Defaults.{default_prompts}
use octo_speech.Service.Prompt.Load.{load_prompts}
use octo_speech.Service.Prompt.Formats.{FewPercents, percents, load_prompts-Holds_context}
use octo_speech.Prelude.{some}
use octo_speech.Samples.{sample_prompts, sample_fixed, other_verb}

system_run :
    build_system_message sample_prompts sample_fixed true false edit_mode
    ≡ codes "S with how to edit"
unfolding build_system_message system_template prompt_placeholders edit_placeholder replace_from
    held find_key text_eq contains has_prefix
system_run = refl

user_run :
    build_user_message other_verb sample_prompts append_mode (codes "hi") [] true
    ≡ codes "<b>hi</b>\n\nappend"
unfolding build_user_message user_message_task sprintf split_verb join text_eq has_prefix contains
user_run = refl

sample_few : FewPercents sample_prompts
unfolding percents
sample_few = record {
  vocabulary = omega (arith);
  append_buffer = omega (arith);
  append_buffer_no_vocab = omega (arith);
  edit_buffer = omega (arith);
}

load_prompts-Holds_context_example :
    Holds
      (build_user_message other_verb
        (load_prompts default_prompts (some sample_prompts))
        append_mode
        (codes "hi")
        (codes "words")
        true)
      (codes "hi")
load_prompts-Holds_context_example =
    load_prompts-Holds_context other_verb sample_prompts append_mode (codes "hi") (codes "words")
      true sample_few (inl refl) (ground arith)

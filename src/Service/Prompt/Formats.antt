-- ===== src/Service/Prompt/Formats.antt =====
-- What the formats of the user message are behind `LoadPrompts`.
use octo_speech.Prelude.{
  ℕ, zero, suc, ◌≤◌, ◌≡◌, ◌≢◌, refl, Bool, true, false, [], ◌∷◌, Text, codes, has_prefix, contains,
  is_empty, trim_space, trim_right, lines, join, some, ◌==◌, if◌then◌else◌, arith, Bool-cases, inl,
  inr, ◌||◌, Option-cases,
}
use octo_speech.Service.Prompt.{PromptConfig, split_verb, build_user_message}
use octo_speech.Service.Prompt.Defaults.{default_prompts}
use octo_speech.Service.Prompt.Defaults.Tasks.{
  vocabulary_reference_template, append_input_buffer_template,
  append_input_buffer_no_vocab_template, edit_input_buffer_template,
}
use octo_speech.Service.Prompt.Load.{count_verbs, trim_newlines, template_or, load_prompts}
use octo_speech.Service.Prompt.Sections.{IsFormat, Holds}
use octo_speech.Service.Prompt.Contexts.{HasFormats, KnownMode, build_user_message-Holds_context}

-- How often a text has the character `%`.
unfoldable pub percents : Text → ℕ
percents [] = 0
percents (c ∷ s) = if c == b'%' then suc (percents s) else percents s

contains-percents : (s : Text) → percents s ≡ 0 → contains s (codes "%") ≡ false
unfolding percents contains has_prefix
contains-percents [] h = refl
contains-percents (c ∷ s) h = ground (arith, contains-percents s)

count_verbs-le : (k : ℕ) (s : Text) → count_verbs k s ≤ percents s
unfolding count_verbs percents has_prefix
count_verbs-le k [] = ground arith
count_verbs-le (suc k) (c ∷ s) = ground (arith, count_verbs-le k s)
count_verbs-le zero (c ∷ s) = ground (arith, count_verbs-le 1 s, count_verbs-le zero s)

IsFormat-percents : (s : Text) → count_verbs 0 s ≡ 1 → percents s ≡ 1 → IsFormat s
unfolding count_verbs percents has_prefix split_verb
IsFormat-percents [] one h = absurd (ground arith)
IsFormat-percents (c ∷ s) one h = elim (Bool-cases (c == b'%')) [
  | inl verb ↦ λ e. ground (arith, contains-percents s, count_verbs-le 0 s)
  | inr plain ↦
      let one' : count_verbs 0 s ≡ 1 = ground (arith, plain) in
      let h' : percents s ≡ 1 = ground (arith, plain) in
      elim (Option-cases (split_verb s)) [
        | inl missing ↦ absurd (IsFormat-percents s one' h' missing)
        | inr ((before, after), found) ↦ λ e. ground (arith, plain, found)
      ]
]

percents-trim_right : (p : ℕ → Bool) (s : Text) → percents (trim_right p s) ≤ percents s
unfolding percents trim_right
percents-trim_right p [] = ground arith
percents-trim_right p (c ∷ s) = ground (arith, percents-trim_right p s)

is_one : (n : ℕ) → (n == 1) ≡ true → n ≡ 1
is_one n h = ground arith

template_or-IsFormat :
    (default value : Text)
    → IsFormat default
    → percents value ≤ 1
    → IsFormat (template_or default value)
unfolding template_or trim_newlines
template_or-IsFormat default value good few = elim (Bool-cases (is_empty (trim_space value))) [
  | inl blank ↦ rw blank good
  | inr given ↦ elim (Bool-cases (count_verbs 0 (trim_newlines value) == 1)) [
    | inl one ↦
        rw (given, one)
          (let exact = is_one (count_verbs 0 (trim_newlines value)) one in
            IsFormat-percents (trim_newlines value) exact (
              omega (
                arith,
                exact,
                few,
                count_verbs-le 0 (trim_newlines value),
                percents-trim_right (λ c. (c == 13) || (c == 10)) value,
              )))
    | inr other ↦ rw (given, other) good
  ]
]

-- Every format that a file gives has at most one `%`.
pub record FewPercents (file : PromptConfig) : Type 0 where
  pub vocabulary : percents file.vocabulary_reference ≤ 1
  pub append_buffer : percents file.append_input_buffer ≤ 1
  pub append_buffer_no_vocab : percents file.append_input_buffer_no_vocab ≤ 1
  pub edit_buffer : percents file.edit_input_buffer ≤ 1

default_prompts-HasFormats : HasFormats default_prompts
unfolding split_verb has_prefix contains default_prompts lines join vocabulary_reference_template
    append_input_buffer_template append_input_buffer_no_vocab_template edit_input_buffer_template
default_prompts-HasFormats = record {
  vocabulary = λ e. cc;
  append_buffer = λ e. cc;
  append_buffer_no_vocab = λ e. cc;
  edit_buffer = λ e. cc;
}

load_prompts-HasFormats :
    (defaults file : PromptConfig)
    → HasFormats defaults
    → FewPercents file
    → HasFormats (load_prompts defaults (some file))
unfolding load_prompts
load_prompts-HasFormats defaults file good few = record {
  vocabulary = template_or-IsFormat _ _ good.vocabulary few.vocabulary;
  append_buffer = template_or-IsFormat _ _ good.append_buffer few.append_buffer;
  append_buffer_no_vocab =
      template_or-IsFormat _ _ good.append_buffer_no_vocab few.append_buffer_no_vocab;
  edit_buffer = template_or-IsFormat _ _ good.edit_buffer few.edit_buffer;
}

-- From the prompt file to the request: behind LoadPrompts over the default prompts, the user message
-- of a mode that works on a buffer holds the whole text of the buffer, unchanged, whatever the file
-- gives, if each of its four formats has at most one `%`.
pub load_prompts-Holds_context :
    (other : Text → Text → Text) (file : PromptConfig) (mode context_text chat_context : Text)
    (emotion_emoji : Bool)
    → FewPercents file
    → KnownMode mode
    → context_text ≢ []
    → Holds
        (build_user_message other
          (load_prompts default_prompts (some file))
          mode
          context_text
          chat_context
          emotion_emoji)
        context_text
load_prompts-Holds_context other file mode context_text chat_context emotion_emoji few =
    build_user_message-Holds_context other (load_prompts default_prompts (some file))
      (load_prompts-HasFormats default_prompts file default_prompts-HasFormats few) mode
      context_text chat_context emotion_emoji

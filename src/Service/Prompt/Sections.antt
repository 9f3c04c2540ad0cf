-- ===== src/Service/Prompt/Sections.antt =====
-- What the messages to a model hold.
use octo_speech.Prelude.{
  ◌≡◌, refl, sym, ap, ◌∙◌, ◌≢◌, inl, inr, Bool, List, [], ◌∷◌, ◌++◌, Text, is_empty, none, arith,
  Option-cases, if◌then◌else◌,
}
use octo_speech.Service.Replacer.{replace_from, held, replace-held, find_key}
use octo_speech.Service.Prompt.{
  PromptConfig, FixedSections, prompt_placeholders, system_template, edit_placeholder,
  build_system_message, split_verb, sprintf,
}

held-append :
    (tmpl : Text) (xs ys : List (Text × Text)) → held tmpl (xs ++ ys) ≡ held tmpl xs ++ held tmpl ys
unfolding held
held-append tmpl [] ys = refl
held-append tmpl (x ∷ xs) ys = ground (arith, held-append tmpl xs ys)

replace_from-nil : (s : Text) → replace_from [] 0 s ≡ s
unfolding replace_from find_key
replace_from-nil [] = refl
replace_from-nil (c ∷ s) = ap (◌∷◌ c) (replace_from-nil s)

no_pairs :
    (pairs : List (Text × Text)) (tmpl : Text)
    → (if is_empty pairs then tmpl else replace_from pairs 0 tmpl) ≡ replace_from pairs 0 tmpl
no_pairs [] tmpl = sym (replace_from-nil tmpl)
no_pairs (x ∷ xs) tmpl = refl

-- The reference for `BuildSystemMessage`: all seven placeholders are replaced at once.
abbrev pub all_placeholders : PromptConfig → FixedSections → Bool → Bool → Text → List (Text × Text)
all_placeholders p fixed emotion_emoji skip_mention m =
    prompt_placeholders p fixed emotion_emoji skip_mention ++ edit_placeholder fixed m

build-replace_held :
    (p : PromptConfig) (fixed : FixedSections) (emotion_emoji skip_mention : Bool) (m : Text)
    → build_system_message p fixed emotion_emoji skip_mention m
      ≡ replace_from
          (held (system_template p m) (all_placeholders p fixed emotion_emoji skip_mention m))
          0
          (system_template p m)
unfolding build_system_message
build-replace_held p fixed e s m =
    let tmpl = system_template p m in
    let parts = held-append tmpl (prompt_placeholders p fixed e s) (edit_placeholder fixed m) in
    let pairs =
      held tmpl (prompt_placeholders p fixed e s) ++ held tmpl (edit_placeholder fixed m) in
    rw parts (no_pairs pairs tmpl)

-- The system message is the selected template with every placeholder replaced in one pass: to look
-- first which placeholders the template holds, and to skip the pass where it holds none, changes
-- nothing.
pub build_system_message-replace :
    (p : PromptConfig) (fixed : FixedSections) (emotion_emoji skip_mention : Bool) (m : Text)
    → build_system_message p fixed emotion_emoji skip_mention m
      ≡ replace_from (all_placeholders p fixed emotion_emoji skip_mention m) 0 (system_template p m)
build_system_message-replace p fixed e s m =
    build-replace_held p fixed e s m
    ∙ replace-held (system_template p m) (all_placeholders p fixed e s m)

-- A format whose only `%` is one verb %s.
abbrev pub IsFormat : Text → Type 0
IsFormat format = split_verb format ≢ none

-- The text stands in the other as a whole.
abbrev pub Holds : Text → Text → Type 0
Holds whole part = (before after : Text) × (whole ≡ before ++ (part ++ after))

pub sprintf-Holds :
    (other : Text → Text → Text) (format arg : Text)
    → IsFormat format
    → Holds (sprintf other format arg) arg
unfolding sprintf
sprintf-Holds other format arg f = elim (Option-cases (split_verb format)) [
  | inl bad ↦ absurd (f bad)
  | inr ((before, after), e) ↦ (before, after, rw (e, sprintf))
]

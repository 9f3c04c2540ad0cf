-- ===== src/Service/Transcribe/Merging.antt =====
-- What a transcription keeps, and when it fails.
use octo_speech.Prelude.{
  some-injective, ℕ, ◌≡◌, refl, ap, ◌≢◌, ◌↔◌, ◌∙◌, sym, ◌&&◌, inl, inr, contains, has_prefix,
  trim_space, trim_left, trim_right, is_space, Bool, true, false, List, [], ◌++◌, Text, text_eq,
  text_eq_iff, is_empty, some, none, arith, Bool-cases, append-nil, Option-cases,
}
use octo_speech.Config.{Config}
use octo_speech.Config.Engine.{engine_gpt}
use octo_speech.Service.Merge.{is_no_speech, no_speech_sentinel, join_context_and_text}
use octo_speech.Service.Merge.Ink.{join_context_and_text_parts}
use octo_speech.Service.Prompt.{PromptConfig, FixedSections, append_mode, edit_only_mode}
use octo_speech.Service.Models.{Err, gpt_edit_not_supported, Gateway, Fallback}
use octo_speech.Service.Transcribe.{
  TranscribeOptions, TranscribeResult, Answer, RequestBody, engine_for, mode_for, merged_text,
  answer_of, transcribe,
}

none≢some {ℓ} : {A : Type ℓ} {a : A} → ¬ (none ≡ some a)
none≢some h = cc

join-keeps :
    (context_text raw_text : Text)
    → (rest : Text) × (join_context_and_text context_text raw_text ≡ context_text ++ rest)
join-keeps context_text raw_text =
    let (gap, e, _) = join_context_and_text_parts context_text raw_text in (gap ++ raw_text, e)

merged_text-append :
    (context_text raw_text : Text)
    → (rest : Text) × (merged_text append_mode context_text raw_text ≡ context_text ++ rest)
unfolding merged_text text_eq
merged_text-append context_text raw_text = elim (Bool-cases (is_no_speech raw_text)) [
  | inl silent ↦ ([], rw silent (sym (append-nil context_text)))
  | inr speech ↦ elim (Bool-cases (is_empty context_text)) [
    | inl start ↦ (raw_text, ground arith)
    | inr more ↦ let (rest, e) = join-keeps context_text raw_text in (rest, rw (speech, more) e)
  ]
]

merged_text-no_speech :
    (mode context_text : Text) → merged_text mode context_text no_speech_sentinel ≡ context_text
unfolding merged_text text_eq is_no_speech contains has_prefix trim_space trim_left trim_right
    is_space
merged_text-no_speech mode context_text = ground arith

-- An answer that is read off what a fallback returned.
record Reads (mode context_text : Text) (a : Answer) : Type 0 where
  text_empty :
      (e : Err)
      → a.error ≡ some e
      → (r : TranscribeResult) × (a.result ≡ some r) × (r.raw_text ≡ [])
  has_result : a.result ≢ none
  text_eq_merged :
      a.error ≡ none
      → (r : TranscribeResult) × (a.result ≡ some r)
        × (r.text ≡ merged_text mode context_text r.raw_text)

answer_of-Reads :
    (mode context_text engine user_msg system_msg prompt_type : Text) (f : Fallback RequestBody)
    → Reads mode context_text (answer_of mode context_text engine user_msg system_msg prompt_type f)
unfolding answer_of
answer_of-Reads mode context_text engine user_msg system_msg prompt_type f = record {
  text_empty = λ e failed. elim (Option-cases f.error) [
    | inl good ↦ absurd (ground arith)
    | inr (e', bad) ↦ (
      record {
        text = [];
        raw_text = [];
        model = [];
        engine = engine;
        prompt_text = user_msg;
        system_prompt = system_msg;
        prompt_type = prompt_type;
        request_body = f.body;
      },
      ground arith,
      refl,
    )
  ];
  has_result = ground arith;
  text_eq_merged = λ h. elim (Option-cases f.error) [
    | inl good ↦ (
      record {
        text = merged_text mode context_text f.text;
        raw_text = f.text;
        model = f.model;
        engine = engine;
        prompt_text = user_msg;
        system_prompt = system_msg;
        prompt_type = prompt_type;
        request_body = f.body;
      },
      ground arith,
      refl,
    )
    | inr (e, bad) ↦ absurd (ground arith)
  ];
}

module _ (expired : ℕ → Bool) (g : Gateway) (other : Text → Text → Text) (prompts : PromptConfig)
    (fixed : FixedSections) (cfg : Config) (audio_data : List ℕ)
    (mime_type context_text chat_context : Text) (opts : TranscribeOptions) where
  abbrev answer : Answer
  answer =
      transcribe expired g other prompts fixed cfg audio_data mime_type context_text chat_context
        opts

  abbrev pub refused : Bool
  refused = text_eq (engine_for cfg opts) engine_gpt && text_eq (mode_for cfg opts) edit_only_mode

  pub transcribe-refused :
      refused ≡ true → answer ≡ record { result = none; error = some gpt_edit_not_supported }
  unfolding transcribe
  transcribe-refused h = rw h

  transcribe-Reads : refused ≡ false → Reads (mode_for cfg opts) context_text answer
  unfolding transcribe
  transcribe-Reads h = elim (Bool-cases (text_eq (engine_for cfg opts) engine_gpt)) [
    | inl gpt_engine ↦ rw (h, gpt_engine) (answer_of-Reads _ _ _ _ _ _ _)
    | inr other_engine ↦ rw (h, other_engine) (answer_of-Reads _ _ _ _ _ _ _)
  ]

  pub transcribe_text :
      answer.error ≡ none
      → (r : TranscribeResult) × (answer.result ≡ some r)
        × (r.text ≡ merged_text (mode_for cfg opts) context_text r.raw_text)
  transcribe_text h = elim (Bool-cases refused) [
    | inl bad ↦ absurd (none≢some (sym h ∙ ap Answer.error (transcribe-refused bad)))
    | inr good ↦ (transcribe-Reads good).text_eq_merged h
  ]

  -- A transcription that fails for another reason than the GPT engine's missing edit mode has a
  -- result with an empty raw text.
  pub transcribe-failed :
      (e : Err)
      → refused ≡ false
      → answer.error ≡ some e
      → (r : TranscribeResult) × (answer.result ≡ some r) × (r.raw_text ≡ [])
  transcribe-failed e good h = (transcribe-Reads good).text_empty e h

  -- A transcription without an error has a result, and in the mode "append" the text of that
  -- result begins with the whole context: nothing that was dictated before is lost.
  pub transcribe-append_keeps :
      mode_for cfg opts ≡ append_mode
      → answer.error ≡ none
      → (r : TranscribeResult) × (rest : Text) × (answer.result ≡ some r)
        × (r.text ≡ context_text ++ rest)
  transcribe-append_keeps mode h =
      let (r, found, text) = transcribe_text h in
      let (rest, e) = merged_text-append context_text r.raw_text in
      (r, rest, found, text ∙ rw mode e)

  -- Where the model reports that there was no speech, the result of a transcription without an error
  -- has the context as its text, whatever the mode.
  pub transcribe-no_speech :
      (r : TranscribeResult)
      → answer.error ≡ none
      → answer.result ≡ some r
      → r.raw_text ≡ no_speech_sentinel
      → r.text ≡ context_text
  transcribe-no_speech r h is silent =
      let (r', found, text) = transcribe_text h in
      let same : r' ≡ r = some-injective (sym found ∙ is) in
      (rw same at text)
      ∙ ap (merged_text (mode_for cfg opts) context_text) silent
      ∙ merged_text-no_speech (mode_for cfg opts) context_text

  -- There is no result at all exactly for the GPT engine in the mode "edit_only".
  pub transcribe-none_iff :
      (answer.result ≡ none)
      ↔ ((engine_for cfg opts ≡ engine_gpt) × (mode_for cfg opts ≡ edit_only_mode))
  transcribe-none_iff = (
    λ h. elim (Bool-cases refused) [
      | inl bad ↦ ground (
        arith,
        text_eq_iff (engine_for cfg opts) engine_gpt,
        text_eq_iff (mode_for cfg opts) edit_only_mode,
      )
      | inr good ↦ absurd ((transcribe-Reads good).has_result h)
    ],
    λ e. ap Answer.result (
        transcribe-refused (
          ground (
            arith,
            text_eq_iff (engine_for cfg opts) engine_gpt,
            text_eq_iff (mode_for cfg opts) edit_only_mode,
          ))),
  )

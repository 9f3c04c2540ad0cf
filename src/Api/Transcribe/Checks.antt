-- ===== src/Api/Transcribe/Checks.antt =====
-- What the handler has checked before it calls the service, and what it answers.
use octo_speech.Prelude.{
  some-injective, ℕ, ◌≡◌, refl, sym, ap, subst, ◌∙◌, ◌≢◌, ◌⊎◌, inl, inr, Bool, true, false, List,
  [], ◌∷◌, ◌++◌, Text, codes, text_eq, text_eq_iff, is_empty, Option, some, none, arith, Bool-cases,
  Option-cases, ◌&&◌, not, text_eq→eq, In, here, there, append-nil,
}
use octo_speech.Prelude.Http.{Reply, pass, guard, pass_parts}
use octo_speech.Prelude.Int.{ℤ, le_ℤ}
use octo_speech.Config.{Config}
use octo_speech.Config.Engine.{engine_to_short, normalize_engine}
use octo_speech.Config.Engine.Names.{IsEngine, normalize_engine-engine_to_short}
use octo_speech.Config.Truncate.{truncate_runes_tail}
use octo_speech.Config.Truncate.Tail.{IsCut, truncate_runes_tail-IsCut}
use octo_speech.Service.Prompt.{
  append_mode, edit_only_mode, build_vocabulary_reference, PromptConfig, FixedSections,
}
use octo_speech.Service.Models.{Gateway}
use octo_speech.Service.Transcribe.{
  TranscribeOptions, TranscribeResult, Answer, transcribe, mode_for,
}
use octo_speech.Service.Transcribe.Merging.{transcribe-append_keeps}
use octo_speech.Api.Transcribe.{
  answer_engine, Upload, file, too_large, missing, Form, Checked, Transcript, read_upload, or_panic,
  mode_option, engine_option, model_option, listed, is_valid_model, check_request, respond, handle,
  channel_ok, log_option,
}

guard_inv : (b : Bool) (r : Reply) {u : Unit {0}} → guard b r ≡ pass u → b ≡ true
guard_inv true r h = refl
guard_inv false r h = absurd (ground arith)

or_panic_inv : (o : Option Text) {t : Text} → or_panic o ≡ pass t → o ≡ some t
unfolding or_panic
or_panic_inv none h = absurd (ground arith)
or_panic_inv (some s) h = ground arith

read_upload_inv :
    (cfg : Config) (u : Upload) {audio : List ℕ} {mime : Text}
    → read_upload cfg u ≡ pass (audio, mime)
    → (size : ℤ) × (content_type : Text) × (u ≡ file size content_type (some audio))
      × (le_ℤ size cfg.max_file_size ≡ true)
unfolding read_upload
read_upload_inv cfg too_large h = absurd (ground arith)
read_upload_inv cfg missing h = absurd (ground arith)
read_upload_inv cfg (file size content_type none) h = absurd (ground arith)
read_upload_inv cfg (file size content_type (some bytes)) h =
    (size, content_type, ground arith, ground arith)

abbrev pub IsModeOption : Text → Type 0
IsModeOption m = (m ≡ []) ⊎ (m ≡ append_mode) ⊎ (m ≡ edit_only_mode)

mode_option_inv : (m : Text) {o : Text} → mode_option m ≡ pass o → IsModeOption o
unfolding mode_option
mode_option_inv m h = ground arith

engine_option_inv : (e : Text) {o : Text} → engine_option e ≡ pass o → (o ≡ []) ⊎ IsEngine o
unfolding engine_option
engine_option_inv e {o = o} h = elim (Bool-cases (is_empty e)) [
  | inl default ↦ inl (ground arith)
  | inr given ↦ elim (Bool-cases (is_empty (normalize_engine e))) [
    | inl unknown ↦ absurd (ground arith)
    | inr known ↦
        let same : normalize_engine e ≡ o = ground arith in
        inr (rw (← same) (normalize_engine-engine_to_short e (ground arith)).0)
  ]
]

listed-In : (m : Text) (ms rest : List Text) → listed m ms ≡ true → In m (ms ++ rest)
unfolding listed
listed-In m [] rest h = absurd (ground arith)
listed-In m (n ∷ ms) rest h = elim (Bool-cases (text_eq n m)) [
  | inl same ↦ subst (λ x. In m (x ∷ ms ++ rest)) (sym (text_eq→eq n m same)) here
  | inr other ↦ there (listed-In m ms rest (ground arith))
]

In-behind {ℓ} : {A : Type ℓ} {x : A} (front : List A) {xs : List A} → In x xs → In x (front ++ xs)
In-behind [] at = at
In-behind (y ∷ front) at = there (In-behind front at)

-- The models of the three lists.
abbrev models_of : Config → List Text
models_of cfg = cfg.models ++ (cfg.gpt_models ++ cfg.qwen_models)

is_valid_model-In : (cfg : Config) (m : Text) → is_valid_model cfg m ≡ true → In m (models_of cfg)
unfolding is_valid_model
is_valid_model-In cfg m h = elim (Bool-cases (listed m cfg.models)) [
  | inl a ↦ listed-In m cfg.models (cfg.gpt_models ++ cfg.qwen_models) a
  | inr a ↦ In-behind cfg.models (elim (Bool-cases (listed m cfg.gpt_models)) [
    | inl b ↦ listed-In m cfg.gpt_models cfg.qwen_models b
    | inr b ↦
        In-behind cfg.gpt_models (
          subst (In m) (append-nil cfg.qwen_models) (listed-In m cfg.qwen_models [] (ground arith)))
  ])
]

model_option_inv :
    (cfg : Config) (m : Text) {o : Text}
    → model_option cfg m ≡ pass o
    → (o ≡ []) ⊎ In o (models_of cfg)
unfolding model_option
model_option_inv cfg m {o} h =
    let known : (o ≡ []) ⊎ (is_valid_model cfg o ≡ true) = ground arith in
    elim known [ inl e ↦ inl e | inr e ↦ inr (is_valid_model-In cfg o e) ]

editable_inv :
    (mode context_text : Text) (r : Reply) {u : Unit {0}}
    → guard (not (text_eq mode edit_only_mode && is_empty context_text)) r ≡ pass u
    → (mode ≢ edit_only_mode) ⊎ (context_text ≢ [])
editable_inv mode context_text r h =
    let b = guard_inv (not (text_eq mode edit_only_mode && is_empty context_text)) r h in
    elim (Bool-cases (text_eq mode edit_only_mode)) [
      | inl same ↦ inr (ground arith)
      | inr other ↦ inl (ground (arith, text_eq_iff mode edit_only_mode))
    ]

pass-injective {ℓ} : {A : Type ℓ} {a b : A} → pass a ≡ pass b → a ≡ b
pass-injective h = cc

-- The channel types of the interface, in words and in numbers; none may be left out.
abbrev pub IsChannel : Text → Type 0
IsChannel t =
    (t ≡ [])
    ⊎ (t ≡ codes "dm")
    ⊎ (t ≡ codes "group")
    ⊎ (t ≡ codes "thread")
    ⊎ (t ≡ codes "1")
    ⊎ (t ≡ codes "2")
    ⊎ (t ≡ codes "5")

channel_ok_inv : (t : Text) → channel_ok t ≡ true → IsChannel t
unfolding channel_ok
channel_ok_inv [] h = inl refl
channel_ok_inv (c ∷ t) h = ground (
  arith,
  text_eq_iff (c ∷ t) (codes "dm"),
  text_eq_iff (c ∷ t) (codes "group"),
  text_eq_iff (c ∷ t) (codes "thread"),
  text_eq_iff (c ∷ t) (codes "1"),
  text_eq_iff (c ∷ t) (codes "2"),
  text_eq_iff (c ∷ t) (codes "5"),
)

-- What is left of a text is its end, as long as the limit allows.
abbrev pub Truncated : Text → ℤ → Text → Type 0
Truncated s limit cut = (truncate_runes_tail s limit ≡ some cut) × IsCut s limit cut

truncated :
    (s : Text) (limit : ℤ) {cut : Text}
    → or_panic (truncate_runes_tail s limit) ≡ pass cut
    → Truncated s limit cut
truncated s limit h =
    let e = or_panic_inv (truncate_runes_tail s limit) h in (e, truncate_runes_tail-IsCut s limit e)

-- A request that reaches the service.
pub record IsChecked (cfg : Config) (form : Form) (c : Checked) : Type 0 where
  pub uploaded :
      (size : ℤ) × (content_type : Text) × (form.upload
        ≡ file size content_type (some c.audio_data))
      × (le_ℤ size cfg.max_file_size ≡ true)
  pub channel : IsChannel form.channel_type
  pub context : Truncated form.context_text cfg.max_context_text_length c.context_text
  pub chat : Truncated form.chat_context cfg.max_chat_context_length c.chat_context
  pub personal : Truncated form.personal_context cfg.max_voice_context_length c.personal_context
  pub member : Truncated form.member_context cfg.max_member_context_length c.member_context
  pub reference :
      c.vocab_ref ≡ build_vocabulary_reference c.personal_context c.member_context c.chat_context
  pub mode_given : mode_option form.mode ≡ pass c.opts.mode
  pub mode : IsModeOption c.opts.mode
  pub editable : (c.opts.mode ≢ edit_only_mode) ⊎ (c.context_text ≢ [])
  pub engine : (c.opts.engine ≡ []) ⊎ IsEngine c.opts.engine
  pub model :
      (c.opts.model ≡ []) ⊎ In c.opts.model (cfg.models ++ (cfg.gpt_models ++ cfg.qwen_models))

-- A request reaches the service only with a readable audio within the size limit, a known channel
-- type or none, its four contexts cut to their limits and three of them joined to the reference, a
-- mode, an engine and a model that are left to the default or known, and, to be edited only, a text
-- to edit.
pub check_request-IsChecked :
    (cfg : Config) (form : Form) {c : Checked}
    → check_request cfg form ≡ pass c
    → IsChecked cfg form c
unfolding check_request
check_request-IsChecked cfg form h = pass_parts (read_upload cfg form.upload) _ h λ up is_up h1.
    pass_parts (guard (channel_ok form.channel_type) _) _ h1 λ _ chan h2.
      pass_parts (or_panic _) _ h2 λ context_text ctx h3.
        pass_parts (or_panic _) _ h3 λ chat_context chat h4.
          pass_parts (or_panic _) _ h4 λ _ pers h5. pass_parts (or_panic _) _ h5 λ _ memb h6.
            pass_parts (mode_option form.mode) _ h6 λ mode m h7.
              pass_parts (guard _ _) _ h7 λ _ ed h8.
                pass_parts (engine_option form.engine) _ h8 λ engine e h9.
                  pass_parts (model_option cfg form.model) _ h9 λ model mo h10.
                    pass_parts (log_option cfg form.allow_feedback) _ h10 λ _ _ h11.
                      subst (IsChecked cfg form) (pass-injective h11) (record {
                        uploaded = read_upload_inv cfg form.upload is_up;
                        channel =
                            channel_ok_inv form.channel_type
                              (guard_inv (channel_ok form.channel_type) _ chan);
                        context = truncated _ _ ctx;
                        chat = truncated _ _ chat;
                        personal = truncated _ _ pers;
                        member = truncated _ _ memb;
                        reference = refl;
                        mode_given = m;
                        mode = mode_option_inv form.mode m;
                        editable = editable_inv mode context_text _ ed;
                        engine = engine_option_inv form.engine e;
                        model = model_option_inv cfg form.model mo;
                      })

pub respond_inv :
    (cfg : Config) (opts : TranscribeOptions) (a : Answer) {t : Transcript}
    → respond cfg opts a ≡ pass t
    → (r : TranscribeResult) × (a.error ≡ none)
      × (a.result ≡ some r)
      × (t.text ≡ r.text)
      × (t.engine ≡ engine_to_short (answer_engine cfg opts))
unfolding respond
respond_inv cfg opts a {t = t} h = elim (Option-cases a.error) [
  | inr (e, bad) ↦ absurd (ground arith)
  | inl good ↦ elim (Option-cases a.result) [
    | inl no_result ↦ absurd (ground arith)
    | inr (r, found) ↦ (r, good, found, ground arith, ground arith)
  ]
]

mode_for-append :
    (cfg : Config) (opts : TranscribeOptions)
    → opts.mode ≡ append_mode
    → mode_for cfg opts ≡ append_mode
unfolding mode_for text_eq
mode_for-append cfg opts h = ground arith

mode_option-append : {o : Text} → mode_option (codes "append_only") ≡ pass o → o ≡ append_mode
unfolding mode_option text_eq
mode_option-append h = ground arith

-- The handler in front of the service, from the form to the answer: in the mode "append_only" an
-- answer with status 200 begins with the end of the user's text that the limit leaves, so that
-- text typed before is never rewritten. The gateway and the prompts are arbitrary.
pub handle-append_only_keeps :
    (expired : ℕ → Bool) (g : Gateway) (other : Text → Text → Text) (prompts : PromptConfig)
    (fixed : FixedSections) (cfg : Config) (form : Form) {t : Transcript}
    → form.mode ≡ codes "append_only"
    → handle (transcribe expired g other prompts fixed cfg) cfg form ≡ pass t
    → (typed rest : Text) × (truncate_runes_tail form.context_text cfg.max_context_text_length
        ≡ some typed)
      × (t.text ≡ typed ++ rest)
unfolding handle
handle-append_only_keeps expired g other prompts fixed cfg form mode h =
    pass_parts (check_request cfg form) _ h λ c checked answered.
      let ok = check_request-IsChecked cfg form checked in
      let (r, good, found, text, _) = respond_inv cfg c.opts _ answered in
      let mode_is = mode_option-append (ap mode_option (sym mode) ∙ ok.mode_given) in
      let (r', rest, found', e) =
        transcribe-append_keeps expired g other prompts fixed cfg c.audio_data c.mime_type
          c.context_text c.vocab_ref c.opts (mode_for-append cfg c.opts mode_is) good in
      (
        c.context_text,
        rest,
        ok.context.0,
        text ∙ ap TranscribeResult.text (some-injective (sym found ∙ found')) ∙ e,
      )

-- ===== src/Api/Transcribe/Log/Entries.antt =====
-- What the entries of the log say of the answers.
use octo_speech.Prelude.{
  ℕ, ◌≡◌, refl, sym, subst, ap, ◌∙◌, Bool, true, List, [], Text, length, Option, some, arith,
  Bool-cases, Option-cases, inl, inr,
}
use octo_speech.Prelude.Http.{Reply, ◌>>=◌, Outcome, abort, pass}
use octo_speech.Config.{Config}
use octo_speech.Config.Engine.{engine_to_short}
use octo_speech.Service.Merge.{is_no_speech}
use octo_speech.Service.Models.{Err, Gateway}
use octo_speech.Service.Prompt.{PromptConfig, FixedSections}
use octo_speech.Service.Transcribe.Merging.{
  refused, transcribe-refused, transcribe-failed, transcribe_text,
}
use octo_speech.Service.Transcribe.{TranscribeOptions, TranscribeResult, Answer, transcribe}
use octo_speech.AsrLog.{AsrEntry}
use octo_speech.Api.Transcribe.{Form, Checked, Transcript, check_request, respond, handle}
use octo_speech.Api.Transcribe.Checks.{respond_inv}
use octo_speech.Api.Transcribe.Log.{
  Meta, base_entry, with_result, with_error, asr_entry, answer_and_log, handle_logged,
}

-- The entry tells what the answer tells.
pub record Fits (entry : AsrEntry) (t : Transcript) : Type 0 where
  pub text : entry.result_text ≡ t.text
  pub error : entry.error ≡ []
  pub result_length : entry.result_length ≡ length t.text
  pub no_speech : entry.is_no_speech ≡ is_no_speech entry.raw_result_text
  pub engine : engine_to_short entry.engine ≡ t.engine

module _ (error_text : Err → Text)
    (service : List ℕ → Text → Text → Text → TranscribeOptions → Answer) (has_log : Bool)
    (cfg : Config) (meta : Meta) (form : Form) where
  abbrev outcome : Outcome Checked → Outcome Transcript × Option AsrEntry
  outcome = answer_and_log error_text service has_log cfg meta form

  abbrev result : Outcome Transcript × Option AsrEntry
  result = handle_logged error_text service has_log cfg meta form

  answered :
      (m : Outcome Checked)
      → (outcome m).0 ≡ (
          m >>= λ c.
          respond cfg c.opts (service c.audio_data c.mime_type c.context_text c.vocab_ref c.opts))
  unfolding answer_and_log
  answered (abort r) = refl
  answered (pass c) = refl

  -- The log makes no difference to the answer.
  pub handle_logged-handle : result.0 ≡ handle service cfg form
  unfolding handle_logged handle
  handle_logged-handle = answered (check_request cfg form)

  -- A logged request has passed the checks.
  logged_inv :
      (m : Outcome Checked) {entry : AsrEntry}
      → (outcome m).1 ≡ some entry
      → (c : Checked) × (a : Answer) × (m ≡ pass c)
        × ((outcome m).0 ≡ respond cfg c.opts a)
        × (asr_entry error_text cfg meta form c a ≡ entry)
        × (has_log ≡ true)
        × (c.should_log ≡ true)
        × (a ≡ service c.audio_data c.mime_type c.context_text c.vocab_ref c.opts)
  unfolding answer_and_log
  logged_inv (abort r) h = absurd (ground arith)
  logged_inv (pass c) h = (c, _, refl, refl, ground arith, ground arith, ground arith, refl)

  asr_entry-answered :
      (c : Checked) (a : Answer) {t : Transcript}
      → respond cfg c.opts a ≡ pass t
      → Fits (asr_entry error_text cfg meta form c a) t
  unfolding asr_entry with_result with_error base_entry
  asr_entry-answered c a {t} h =
      let (r, good, found, text, engine) = respond_inv cfg c.opts a h in
      rw (good, found)
        (record {
          text = sym text;
          error = refl;
          result_length = ap length (sym text);
          no_speech = refl;
          engine = sym engine;
        })

  -- The entry of a failed call with a result.
  asr_entry-failed :
      (c : Checked) (a : Answer) (e : Err) (r : TranscribeResult)
      → a.error ≡ some e
      → a.result ≡ some r
      → r.raw_text ≡ []
      → (asr_entry error_text cfg meta form c a).is_no_speech ≡ true
  unfolding asr_entry with_result with_error base_entry is_no_speech
  asr_entry-failed c a e r bad found empty = rw (bad, found, empty) refl

  -- An answer with status 200 that is logged is logged as it was given.
  pub handle_logged-Fits :
      {t : Transcript} {entry : AsrEntry} → result.0 ≡ pass t → result.1 ≡ some entry → Fits entry t
  unfolding handle_logged
  handle_logged-Fits {t} h l =
      let (c, a, passed, given, made, _, _, _) = logged_inv (check_request cfg form) l in
      subst (λ e. Fits e t) made (asr_entry-answered c a (sym given ∙ h))

status_of : Outcome Transcript → ℕ
status_of (abort r) = r.status
status_of (pass t) = 200

module _ (expired : ℕ → Bool) (g : Gateway) (other : Text → Text → Text) (prompts : PromptConfig)
    (fixed : FixedSections) (cfg : Config) where
  abbrev served : Checked → Answer
  served c =
      transcribe expired g other prompts fixed cfg c.audio_data c.mime_type c.context_text
        c.vocab_ref c.opts

  failed_raw :
      (c : Checked) {r : Reply}
      → respond cfg c.opts (served c) ≡ abort r
      → r.status ≡ 500
      → (e : Err) × (res : TranscribeResult) × ((served c).error ≡ some e)
        × ((served c).result ≡ some res)
        × (res.raw_text ≡ [])
  unfolding respond status_of
  failed_raw c {r} h status =
      elim (Bool-cases (
        refused expired g other prompts fixed cfg c.audio_data c.mime_type c.context_text
          c.vocab_ref c.opts)) [
            | inl bad ↦
                let e =
                  sym h
                  ∙ ap (respond cfg c.opts) (
                      transcribe-refused expired g other prompts fixed cfg c.audio_data c.mime_type
                        c.context_text c.vocab_ref c.opts bad) in
                absurd (omega (arith, sym status ∙ ap status_of e))
            | inr good ↦ elim (Option-cases (served c).error) [
              | inl fine ↦
                  let (res, found, _) =
                    transcribe_text expired g other prompts fixed cfg c.audio_data c.mime_type
                      c.context_text c.vocab_ref c.opts fine in
                  absurd (ground arith)
              | inr (e, bad) ↦
                  let (res, found, empty) =
                    transcribe-failed expired g other prompts fixed cfg c.audio_data c.mime_type
                      c.context_text c.vocab_ref c.opts e good bad in
                  (e, res, bad, found, empty)
            ]
          ]

  -- A transcription that is answered with status 500 and logged is logged as one without speech.
  pub handle_logged-is_no_speech :
      (error_text : Err → Text) (has_log : Bool) (meta : Meta) (form : Form) {r : Reply}
      {entry : AsrEntry}
      → (handle_logged error_text
          (transcribe expired g other prompts fixed cfg)
          has_log
          cfg
          meta
          form).0
        ≡ abort r
      → r.status ≡ 500
      → (handle_logged error_text
          (transcribe expired g other prompts fixed cfg)
          has_log
          cfg
          meta
          form).1
        ≡ some entry
      → entry.is_no_speech ≡ true
  unfolding handle_logged
  handle_logged-is_no_speech error_text has_log meta form h status l =
      let service = transcribe expired g other prompts fixed cfg in
      let (c, a, passed, given, made, _, _, is_served) =
        logged_inv error_text service has_log cfg meta form (check_request cfg form) l in
      let (e, res, bad, found, empty) =
        failed_raw c (ap (respond cfg c.opts) (sym is_served) ∙ sym given ∙ h) status in
      ap AsrEntry.is_no_speech (sym made)
      ∙ asr_entry-failed error_text service has_log cfg meta form c a e res
          (ap Answer.error is_served ∙ bad) (ap Answer.result is_served ∙ found) empty

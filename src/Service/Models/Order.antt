-- ===== src/Service/Models/Order.antt =====
-- When the fallback answers, and with what.
use octo_speech.Prelude.{
  ℕ, suc, ◌≡◌, refl, ap, ◌⊎◌, ◌↔◌, inl, inr, Bool, false, List, [], ◌∷◌, Text, Option, some, none,
  arith, Bool-cases, String,
}
use octo_speech.Config.{Config}
use octo_speech.Service.Models.{
  Err, Result, ok, err, is_non_retryable_error, Fallback, give_up, fallback, Gateway, chat_request,
  call_chat_completion, call_chat_completion_with_fallback,
}

-- From the attempt `i` on, the first of the models that has an answer is `model`, and its answer is
-- `text`: it is called before the total timeout, and so is each model before it, which fails with
-- an error for which the next one is worth a try.
pub data Answers (expired : ℕ → Bool) (call : ℕ → Text → Result) (model text : Text)
    : ℕ → List Text → Type 0 where
  here :
      {i : ℕ} {models : List Text}
      → expired i ≡ false
      → call i model ≡ ok text
      → Answers expired call model text i (model ∷ models)
  over :
      {i : ℕ} {other : Text} {models : List Text} (e : Err)
      → expired i ≡ false
      → call i other ≡ err e
      → is_non_retryable_error e ≡ false
      → Answers expired call model text (suc i) models
      → Answers expired call model text i (other ∷ models)

Result-cases : (r : Result) → ((t : Text) × (r ≡ ok t)) ⊎ ((e : Err) × (r ≡ err e))
Result-cases (ok t) = inl (t, refl)
Result-cases (err e) = inr (e, refl)

module _ {ℓ} {B : Type ℓ} (expired : ℕ → Bool) (call : ℕ → Text → Result) (body : Text → B)
    (none_configured all_failed : String) where
  abbrev run : ℕ → Option Err → Option B → List Text → Fallback B
  run = fallback expired call body none_configured all_failed

  fallback-Answers :
      (i : ℕ) (last_err : Option Err) (last_body : Option B) (models : List Text)
      → (run i last_err last_body models).error ≡ none
      → Answers expired call
          (run i last_err last_body models).model
          (run i last_err last_body models).text
          i
          models
  unfolding fallback give_up
  fallback-Answers i last_err last_body [] h = absurd (ground arith)
  fallback-Answers i last_err last_body (model ∷ models) h = elim (Bool-cases (expired i)) [
    | inl late ↦ absurd (ground arith)
    | inr early ↦ elim (Result-cases (call i model)) [
      | inl (t, e) ↦ rw (early, e, fallback) (here early e)
      | inr (failure, e) ↦ elim (Bool-cases (is_non_retryable_error failure)) [
        | inl fatal ↦ absurd (ground arith)
        | inr again ↦
            rw (early, e, again, fallback)
              (over failure early e again
                (fallback-Answers (suc i) (some failure) (some (body model)) models (ground arith)))
      ]
    ]
  ]

  Answers-fallback :
      (model text : Text) (last_err : Option Err) (last_body : Option B) {i : ℕ}
      {models : List Text}
      → Answers expired call model text i models
      → run i last_err last_body models
        ≡ record { text = text; model = model; body = some (body model); error = none }
  unfolding fallback give_up
  Answers-fallback model text last_err last_body (here early e) = rw (early, e, fallback) refl
  Answers-fallback model text last_err last_body (over {other = m} failure early e again a) =
      rw (early, e, again, fallback) (Answers-fallback model text (some failure) (some (body m)) a)

  fallback_iff :
      (models : List Text) (model text : Text)
      → (run 0 none none models
          ≡ record { text = text; model = model; body = some (body model); error = none })
        ↔ Answers expired call model text 0 models
  fallback_iff models model text = (
    λ e.
        rw (ap Fallback.model e, ap Fallback.text e) at
          (fallback-Answers 0 none none models (ap Fallback.error e)),
    λ a. Answers-fallback model text none none a,
  )

-- A call of the chat models succeeds with a text, a model and that model's request exactly when
-- the model is the first of the list that answers, with that text, all before it having failed with
-- retryable errors, each in time.
pub call_chat_completion_with_fallback_iff :
    (expired : ℕ → Bool) (g : Gateway) (cfg : Config) (audio_data : List ℕ)
    (mime_type system_msg user_msg engine : Text) (models : List Text) (model text : Text)
    → (call_chat_completion_with_fallback expired g cfg audio_data mime_type system_msg user_msg
          models engine
        ≡ record {
          text = text;
          model = model;
          body = some (chat_request g model audio_data mime_type system_msg user_msg engine);
          error = none;
        })
      ↔ Answers expired
          (call_chat_completion g cfg audio_data mime_type system_msg user_msg engine)
          model
          text
          0
          models
unfolding call_chat_completion_with_fallback
call_chat_completion_with_fallback_iff expired g cfg audio_data mime_type system_msg user_msg
      engine =
    fallback_iff expired
      (call_chat_completion g cfg audio_data mime_type system_msg user_msg engine) _ _ _

-- ===== src/Service/Prompt/Contexts.antt =====
-- The contexts of a request in the user message.
use octo_speech.Prelude.{
  ◌≡◌, refl, ◌≢◌, ◌⊎◌, inl, inr, Bool, true, false, List, [], ◌∷◌, ◌++◌, Text, text_eq, join, arith,
  append_assoc,
}
use octo_speech.Service.Prompt.{
  PromptConfig, append_mode, edit_mode, edit_only_mode, user_message_task, build_user_message,
}
use octo_speech.Service.Prompt.Sections.{IsFormat, Holds, sprintf-Holds}

Holds-append_right : (s t part : Text) → Holds s part → Holds (s ++ t) part
Holds-append_right s t part (before, after, e) = (before, after ++ t, rw e (simp append_assoc))

Holds-append_left : (s t part : Text) → Holds t part → Holds (s ++ t) part
Holds-append_left s t part (before, after, e) = (s ++ before, after, rw e (simp append_assoc))

join-Holds_head :
    (sep x : Text) (xs : List Text) (part : Text) → Holds x part → Holds (join sep (x ∷ xs)) part
unfolding join
join-Holds_head sep x [] part h = h
join-Holds_head sep x (y ∷ ys) part h =
    Holds-append_right (x ++ sep) (join sep (y ∷ ys)) part (Holds-append_right x sep part h)

join-Holds_tail :
    (sep x y : Text) (ys : List Text) (part : Text)
    → Holds (join sep (y ∷ ys)) part
    → Holds (join sep (x ∷ y ∷ ys)) part
unfolding join
join-Holds_tail sep x y ys part h = Holds-append_left (x ++ sep) (join sep (y ∷ ys)) part h

-- Every format of the settings is one of `IsFormat`.
pub record HasFormats (p : PromptConfig) : Type 0 where
  pub vocabulary : IsFormat p.vocabulary_reference
  pub append_buffer : IsFormat p.append_input_buffer
  pub append_buffer_no_vocab : IsFormat p.append_input_buffer_no_vocab
  pub edit_buffer : IsFormat p.edit_input_buffer

abbrev pub KnownMode : Text → Type 0
KnownMode mode = (mode ≡ append_mode) ⊎ (mode ≡ edit_mode) ⊎ (mode ≡ edit_only_mode)

module _ (other : Text → Text → Text) (p : PromptConfig) (formats : HasFormats p) where
  user_message_task-Holds :
      (mode context_text : Text) (has_vocab emotion_emoji : Bool)
      → KnownMode mode
      → context_text ≢ []
      → (x y : Text) × (user_message_task other p mode context_text has_vocab emotion_emoji
          ≡ x ∷ y ∷ [])
        × Holds x context_text
  unfolding user_message_task text_eq
  user_message_task-Holds mode [] has_vocab e known some_text = absurd (some_text refl)
  user_message_task-Holds mode (c ∷ s) true e (inl m) some_text =
      rw m (_, _, refl, sprintf-Holds other p.append_input_buffer (c ∷ s) formats.append_buffer)
  user_message_task-Holds mode (c ∷ s) false e (inl m) some_text = rw m (
    _,
    _,
    refl,
    sprintf-Holds other p.append_input_buffer_no_vocab (c ∷ s) formats.append_buffer_no_vocab,
  )
  user_message_task-Holds mode (c ∷ s) has_vocab e (inr (inl m)) some_text =
      rw m (_, _, refl, sprintf-Holds other p.edit_input_buffer (c ∷ s) formats.edit_buffer)
  user_message_task-Holds mode (c ∷ s) has_vocab e (inr (inr m)) some_text =
      rw m (_, _, refl, sprintf-Holds other p.edit_input_buffer (c ∷ s) formats.edit_buffer)

  -- If each format of the settings has one verb %s and no other, the user message of a mode that
  -- works on a buffer holds the whole text of the buffer, unchanged.
  pub build_user_message-Holds_context :
      (mode context_text chat_context : Text) (emotion_emoji : Bool)
      → KnownMode mode
      → context_text ≢ []
      → Holds (build_user_message other p mode context_text chat_context emotion_emoji) context_text
  unfolding build_user_message
  build_user_message-Holds_context mode context_text [] emotion_emoji known some_text =
      let (x, y, e, h) =
        user_message_task-Holds mode context_text false emotion_emoji known some_text in
      rw e (join-Holds_head _ x (y ∷ []) context_text h)
  build_user_message-Holds_context mode context_text (c ∷ s) emotion_emoji known some_text =
      let (x, y, e, h) =
        user_message_task-Holds mode context_text true emotion_emoji known some_text in
      rw e
        (join-Holds_tail _ _ x (y ∷ []) context_text (join-Holds_head _ x (y ∷ []) context_text h))

  -- Under the same condition the message holds the whole of a chat context that is not empty, in
  -- every mode.
  pub build_user_message-Holds_chat :
      (mode context_text chat_context : Text) (emotion_emoji : Bool)
      → chat_context ≢ []
      → Holds (build_user_message other p mode context_text chat_context emotion_emoji) chat_context
  unfolding build_user_message
  build_user_message-Holds_chat mode context_text [] emotion_emoji some_chat =
      absurd (some_chat refl)
  build_user_message-Holds_chat mode context_text (c ∷ s) emotion_emoji some_chat =
      join-Holds_head _ _ (user_message_task other p mode context_text true emotion_emoji) (c ∷ s)
        (sprintf-Holds other p.vocabulary_reference (c ∷ s) formats.vocabulary)

-- With an empty buffer every mode and both emotion settings ask for the same plain transcription.
pub build_user_message-empty :
    (other : Text → Text → Text) (p : PromptConfig) (mode chat_context : Text)
    (emotion_emoji emotion_emoji' : Bool)
    → build_user_message other p mode [] chat_context emotion_emoji
      ≡ build_user_message other p [] [] chat_context emotion_emoji'
unfolding build_user_message user_message_task text_eq
build_user_message-empty other p mode chat_context e e' = ground arith

-- ===== src/Service/Merge/Ink.antt =====
-- What the merging of texts keeps: every character that is not white space, in order.
use octo_speech.Prelude.{
  ℕ, ◌≡◌, refl, sym, ap, ◌∙◌, Bool, true, ◌||◌, [], ◌∷◌, ◌++◌, keep, keep-append, is_empty, ◌==◌,
  length, drop, Text, codes, has_prefix, has_prefix→append, trim_left, trim_right, arith, ◌⊎◌, inl,
  inr, Bool-cases, not, append_assoc, append-nil, ◌≢◌, is_space,
}
use octo_speech.Service.Merge.{
  is_blank, is_tab_or_space, join_context_and_text, restore_trailing_whitespace, last_rune, is_cjk,
  is_punctuation,
}

-- A space, a tab, a line feed or a carriage return.
unfoldable pub is_white : ℕ → Bool
is_white c = c == 0x20 || c == 0x9 || c == 0xa || c == 0xd

-- The characters of a text that are none of these.
unfoldable pub ink : Text → Text
ink = keep (λ c. not (is_white c))

ink-append : (s t : Text) → ink (s ++ t) ≡ ink s ++ ink t
unfolding ink
ink-append s t = keep-append _ s t

ink-trim_right : (s : Text) → ink (trim_right is_blank s) ≡ ink s
unfolding ink keep trim_right is_white is_blank
ink-trim_right [] = refl
ink-trim_right (c ∷ s) = ground (arith, ink-trim_right s)

ink-trim_left : (s : Text) → ink (trim_left is_tab_or_space s) ≡ ink s
unfolding ink keep trim_left is_tab_or_space is_white
ink-trim_left [] = refl
ink-trim_left (c ∷ s) = ground (arith, ink-trim_left s)

trim_right-append :
    (p : ℕ → Bool) (s : Text) → trim_right p s ++ drop (length (trim_right p s)) s ≡ s
unfolding trim_right
trim_right-append p [] = refl
trim_right-append p (c ∷ s) = ground (arith, trim_right-append p s)

-- Appending a transcript loses and invents nothing: the result is the context, then nothing or one
-- space, then the new text.
pub join_context_and_text_parts :
    (context_text new_text : Text)
    → (gap : Text) × (join_context_and_text context_text new_text
        ≡ context_text ++ (gap ++ new_text))
      × ((gap ≡ []) ⊎ (gap ≡ codes " "))
unfolding join_context_and_text
join_context_and_text_parts [] t = ([], refl, inl refl)
join_context_and_text_parts (c ∷ s) [] = ([], refl, inl refl)
join_context_and_text_parts (c ∷ s) (first ∷ t) =
    elim (Bool-cases (is_space (last_rune c s) || is_punctuation (last_rune c s))) [
      | inl closed ↦ ([], rw closed, inl refl)
      | inr open_end ↦ elim (Bool-cases (is_cjk (last_rune c s) || is_cjk first)) [
        | inl cjk ↦ ([], rw (open_end, cjk), inl refl)
        | inr words ↦ (codes " ", rw (open_end, words), inr refl)
      ]
    ]

ink-trailing : (s : Text) → ink (drop (length (trim_right is_blank s)) s) ≡ []
unfolding ink keep trim_right is_white is_blank
ink-trailing [] = refl
ink-trailing (c ∷ s) = ground (arith, ink-trailing s)

ink-has_prefix :
    (text p : Text) → has_prefix text p ≡ true → ink p ++ ink (drop (length p) text) ≡ ink text
ink-has_prefix text p h =
    sym (ink-append p (drop (length p) text)) ∙ sym (ap ink (has_prefix→append text p h))

-- Restoring the trailing white space of the context changes only white space: the transcript keeps
-- each of its characters but spaces, tabs, line feeds and carriage returns, in order, whatever the context is.
pub ink-restore_trailing_whitespace :
    (context_text text : Text) → ink (restore_trailing_whitespace context_text text) ≡ ink text
unfolding restore_trailing_whitespace
ink-restore_trailing_whitespace context_text text =
    let trimmed = trim_right is_blank context_text in
    let trailing = drop (length trimmed) context_text in
    elim (Bool-cases (is_empty trailing || is_empty trimmed)) [
      | inl nothing ↦ rw nothing
      | inr some_space ↦ elim (Bool-cases (has_prefix text trimmed)) [
        | inl continues ↦
            rw (some_space, continues)
              (simp (ink-append, ink-trailing, ink-trim_left)
                (ink-has_prefix text trimmed continues))
        | inr rewritten ↦
            rw (some_space, rewritten) (simp (ink-append, ink-trailing, ink-trim_right, append-nil))
      ]
    ]

-- If the context ends in white space behind other text, the result ends in that white space, or,
-- where the transcript repeats the context's text, begins with the whole context.
pub restore_trailing_whitespace-keeps :
    (context_text text : Text)
    → trim_right is_blank context_text ≢ []
    → trim_right is_blank context_text ≢ context_text
    → ((rest : Text) × (restore_trailing_whitespace context_text text ≡ context_text ++ rest))
      ⊎ ((body : Text) × (restore_trailing_whitespace context_text text
            ≡ body ++ drop (length (trim_right is_blank context_text)) context_text))
unfolding restore_trailing_whitespace
restore_trailing_whitespace-keeps context_text text some_text some_space =
    let trimmed = trim_right is_blank context_text in
    let trailing = drop (length trimmed) context_text in
    let whole = trim_right-append is_blank context_text in
    elim (Bool-cases (is_empty trailing || is_empty trimmed)) [
      | inl nothing ↦ absurd (ground (arith, whole, append-nil trimmed))
      | inr some ↦ elim (Bool-cases (has_prefix text trimmed)) [
        | inl continues ↦ inl (
          trim_left is_tab_or_space (drop (length trimmed) text),
          rw (some, continues)
              (sym (append_assoc trimmed trailing _)
                ∙ ap (λ s. s ++ trim_left is_tab_or_space (drop (length trimmed) text)) whole),
        )
        | inr rewritten ↦ inr (trim_right is_blank text, rw (some, rewritten) refl)
      ]
    ]

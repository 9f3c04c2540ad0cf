-- ===== src/Config/Truncate/Tail.antt =====
-- What `TruncateRunesTail` keeps.
use octo_speech.Prelude.{
  ℕ, zero, suc, ◌-◌, ◌≡◌, refl, Text, [], ◌∷◌, ◌++◌, length, length-drop, drop, leb, some, arith,
  Bool-cases, inl, inr, min,
}
use octo_speech.Prelude.Int.{ℤ, pos, negsuc}
use octo_speech.Config.Truncate.{truncate_runes_tail}

take : ℕ → Text → Text
take zero s = []
take (suc n) [] = []
take (suc n) (c ∷ s) = c ∷ take n s

take-drop : (n : ℕ) (s : Text) → s ≡ take n s ++ drop n s
unfolding take
take-drop zero s = refl
take-drop (suc n) [] = refl
take-drop (suc n) (c ∷ s) = ground (arith, take-drop n s)

-- Under a limit that is not negative the result is the end of the text, as long as it can be: the
-- text is the result behind some front, and the result has the length of the text or of the limit,
-- whichever is less.
pub truncate_runes_tail_parts :
    (s : Text) (max : ℕ)
    → (front tail : Text) × (truncate_runes_tail s (pos max) ≡ some tail)
      × (s ≡ front ++ tail)
      × (length tail ≡ min (length s) max)
unfolding truncate_runes_tail
truncate_runes_tail_parts s max = elim (Bool-cases (leb (length s) max)) [
  | inl fits ↦ ([], s, rw fits, refl, ground arith)
  | inr long ↦ (
    take (length s - max) s,
    drop (length s - max) s,
    rw long,
    take-drop (length s - max) s,
    ground (arith, length-drop (length s - max) s),
  )
]

-- The end of a text, as long as the limit allows.
abbrev pub IsCut : Text → ℤ → Text → Type 0
IsCut s limit cut =
    (max : ℕ) × (front : Text) × (limit ≡ pos max)
    × (s ≡ front ++ cut)
    × (length cut ≡ min (length s) max)

-- What does not panic is the end of the text, as long as the limit allows.
pub truncate_runes_tail-IsCut :
    (s : Text) (limit : ℤ) {cut : Text} → truncate_runes_tail s limit ≡ some cut → IsCut s limit cut
unfolding truncate_runes_tail
truncate_runes_tail-IsCut s (pos max) {cut} h =
    let (front, tail, e, parts, size) = truncate_runes_tail_parts s max in
    let same : tail ≡ cut = cc in (max, front, refl, rw (← same) parts, rw (← same) size)
truncate_runes_tail-IsCut s (negsuc n) h = absurd (cc)

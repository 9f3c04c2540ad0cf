-- ===== src/Admin/KeyGen/Tests.antt =====
-- Runs of the generators of identifiers and keys.
use octo_speech.Prelude.{
  All, ℕ, ◌≡◌, ◌↔◌, refl, ◌++◌, true, false, Option, some, Text, codes, arith, length, ltb,
  if◌then◌else◌, Bool-cases, inl, inr, has_prefix,
}
use octo_speech.Admin.KeyGen.{
  generate_app_id, generate_api_key, is_valid_app_id, all_alnum, byte_length, rune_len, is_alnum,
  random_base62, char_of,
}
use octo_speech.Admin.KeyGen.Alphabet.{
  Draws, is_valid_app_id_iff, IsLetterOrDigit, generate_app_id-is_valid, generate_api_key-injective,
}

-- A source that always draws 1.
abbrev ones : ℕ → Option ℕ
ones _ = some 1

ones-Draws : Draws ones
ones-Draws i = (1, refl, omega arith)

-- A source that differs only behind the calls for a key.
abbrev later : ℕ → Option ℕ
later i = if ltb i 29 then some 1 else some 2

later-Draws : Draws later
later-Draws i = elim (Bool-cases (ltb i 29)) [
  | inl early ↦ (1, rw early refl, omega arith)
  | inr late ↦ (2, rw late refl, omega arith)
]

same_key : generate_api_key later ≡ generate_api_key ones
unfolding generate_api_key random_base62 char_of
same_key = refl

generate_app_id_run : generate_app_id ones ≡ some (codes "app_BBBBBBBBBBBBBBBB")
unfolding generate_app_id random_base62 char_of
generate_app_id_run = refl

is_valid_app_id_run : is_valid_app_id (codes "app_1234567890abcdé") ≡ false
unfolding is_valid_app_id byte_length rune_len is_alnum all_alnum has_prefix
is_valid_app_id_run = refl

is_valid_app_id_iff_example : (is_valid_app_id (codes "app_short") ≡ true) ↔ (
    (s : Text) × (codes "app_short" ≡ codes "app_" ++ s) × (length s ≡ 16) × All IsLetterOrDigit s)
is_valid_app_id_iff_example = is_valid_app_id_iff (codes "app_short")

generate_app_id-is_valid_example :
    (id : Text) × (generate_app_id ones ≡ some id) × (is_valid_app_id id ≡ true)
generate_app_id-is_valid_example = generate_app_id-is_valid ones ones-Draws

generate_api_key-injective_example : later 28 ≡ ones 28
generate_api_key-injective_example =
    generate_api_key-injective later ones later-Draws ones-Draws same_key 28 (omega arith)

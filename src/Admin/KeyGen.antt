-- ===== src/Admin/KeyGen.antt =====
-- internal/admin/keygen.go, and the check of identifiers in internal/admin/handler.go. The source
-- of randomness is an argument: the result of each `rand.Int` below 62, in the order of the calls,
-- `none` for a failure.
pub mod Alphabet
mod Tests
use octo_speech.Prelude.{
  ℕ, zero, suc, ◌+◌, ◌-◌, Bool, true, false, ◌&&◌, ◌||◌, Option, some, none, List, [], ◌∷◌, ◌++◌,
  ltb, leb, ◌==◌, if◌then◌else◌, drop, Text, codes, has_prefix,
}
use mathlib.Core.Option

-- const base62
abbrev pub base62 : Text
base62 = codes "ABCDEFGHIJKLMNOPQRSTUVWXYZabcdefghijklmnopqrstuvwxyz0123456789"

-- `base62[idx]`; an index out of range would panic in Go.
unfoldable pub char_of : Text → ℕ → Option ℕ
char_of [] i = none
char_of (c ∷ s) zero = some c
char_of (c ∷ s) (suc i) = char_of s i

-- The loop of `randomBase62`, `n` characters before its end, at the call `i` of the source.
unfoldable pub random_base62 : (ℕ → Option ℕ) → ℕ → ℕ → Option Text
random_base62 draw i zero = some []
random_base62 draw i (suc n) =
    let rest = random_base62 draw (suc i) n in
    elim (draw i) [
      | none ↦ none
      | some idx ↦ elim (char_of base62 idx) [ none ↦ none | some c ↦ Option.map (λ s. c ∷ s) rest ]
    ]

unfoldable pub generate_app_id : (ℕ → Option ℕ) → Option Text
generate_app_id draw = Option.map (λ suffix. codes "app_" ++ suffix) (random_base62 draw 0 16)

unfoldable pub generate_api_key : (ℕ → Option ℕ) → Option Text
generate_api_key draw = Option.map (λ suffix. codes "sk-" ++ suffix) (random_base62 draw 0 29)

-- Bytes of a code point in UTF-8.
unfoldable pub rune_len : ℕ → ℕ
rune_len c = if ltb c 0x80 then 1 else if ltb c 0x800 then 2 else if ltb c 0x10000 then 3 else 4

-- `len(id)`
unfoldable pub byte_length : Text → ℕ
byte_length [] = 0
byte_length (c ∷ s) = rune_len c + byte_length s

unfoldable pub is_alnum : ℕ → Bool
is_alnum c = (leb b'A' c && leb c b'Z') || (leb b'a' c && leb c b'z') || (leb b'0' c && leb c b'9')

unfoldable pub all_alnum : Text → Bool
all_alnum [] = true
all_alnum (c ∷ s) = is_alnum c && all_alnum s

unfoldable pub is_valid_app_id : Text → Bool
is_valid_app_id id = (byte_length id == 20) && has_prefix id (codes "app_") && all_alnum (drop 4 id)

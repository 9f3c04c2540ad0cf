-- ===== src/Prelude/Parse.antt =====
-- The conversions of package strconv that the program calls on texts.
use Prim.Native.Nat.{ℕ, zero, suc, ◌+◌, ◌-◌, ◌*◌, ◌^◌}
use mathlib.Core.Bool.{Bool, true, false, ◌&&◌, ◌||◌}
use mathlib.Core.Option.{Option, none, some}
use mathlib.Core.List.{List, [], ◌∷◌}
use octo_speech.Prelude.Tests.{◌==◌, leb, ltb, if◌then◌else◌}
use octo_speech.Prelude.Strings.{Text, codes, text_eq}
use octo_speech.Prelude.Int.{ℤ, pos, negsuc}

abbrev pub is_digit : ℕ → Bool
is_digit c = leb b'0' c && leb c b'9'

-- The value of decimal digits behind a prefix of value `acc`.
unfoldable pub digits_from : ℕ → Text → Option ℕ
digits_from acc [] = some acc
digits_from acc (c ∷ s) =
    let rest = digits_from (acc * 10 + (c - b'0')) s in if is_digit c then rest else none

unfoldable pub digits : Text → Option ℕ
digits [] = none
digits (c ∷ s) = digits_from 0 (c ∷ s)

abbrev minus : ℕ → ℤ
minus zero = pos 0
minus (suc n) = negsuc n

-- strconv.Atoi on a 64-bit platform, and strconv.ParseInt(s, 10, 64); `none` is an error.
unfoldable pub atoi : Text → Option ℤ
unfolding digits digits_from
atoi [] = none
atoi (c ∷ s) =
    if c == b'-'
    then elim (digits s) [ none ↦ none | some n ↦ if leb n (2 ^ 63) then some (minus n) else none ]
    else elim (digits (if c == b'+' then s else c ∷ s)) [
      | none ↦ none
      | some n ↦ if ltb n (2 ^ 63) then some (pos n) else none
    ]

abbrev any_of : Text → List Text → Bool
any_of s [] = false
any_of s (t ∷ ts) = text_eq s t || any_of s ts

-- strconv.ParseBool; `none` is an error.
unfoldable pub parse_bool : Text → Option Bool
unfolding text_eq
parse_bool s =
    if any_of s
      (codes "1" ∷ codes "t" ∷ codes "T" ∷ codes "TRUE" ∷ codes "true" ∷ codes "True" ∷ [])
    then some true
    else (if any_of s
          (codes "0" ∷ codes "f" ∷ codes "F" ∷ codes "FALSE" ∷ codes "false" ∷ codes "False" ∷ [])
        then some false
        else none)

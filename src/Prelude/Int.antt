-- ===== src/Prelude/Int.antt =====
-- Go's int as an integer: `negsuc n` is -(n + 1). `wrap_64` stands where the program's arithmetic may
-- leave the 64-bit range; elsewhere its values stay far from the ends of it.
use Prim.Native.Nat.{ℕ, suc, ◌-◌, ◌*◌, ◌%◌}
use mathlib.Core.Path.{◌≡◌}
use native.Mathlib.Omega.{arith}
use mathlib.Core.Bool.{Bool, true, false}
use octo_speech.Prelude.Tests.{ltb, leb, if◌then◌else◌}

pub data ℤ : Type 0 where
  pos : ℕ → ℤ
  negsuc : ℕ → ℤ

-- `0 < n`
abbrev pub is_pos : ℤ → Bool
is_pos (pos n) = ltb 0 n
is_pos (negsuc n) = false

-- `a <= b`
abbrev pub le_ℤ : ℤ → ℤ → Bool
le_ℤ (pos a) (pos b) = leb a b
le_ℤ (pos a) (negsuc b) = false
le_ℤ (negsuc a) (pos b) = true
le_ℤ (negsuc a) (negsuc b) = leb b a

-- `n * k`, for a positive constant k
abbrev pub scale : ℕ → ℤ → ℤ
scale k (pos n) = pos (n * k)
scale k (negsuc n) = negsuc (suc n * k - 1)

-- The 64-bit value that an integer wraps to, in two's complement.
unfoldable pub wrap_64 : ℤ → ℤ
wrap_64 (pos n) =
    let m = n % 0x1_0000_0000_0000_0000 in
    if ltb m 0x8000_0000_0000_0000 then pos m else negsuc (0xffff_ffff_ffff_ffff - m)
wrap_64 (negsuc n) =
    let m = n % 0x1_0000_0000_0000_0000 in
    if ltb m 0x8000_0000_0000_0000 then negsuc m else pos (0xffff_ffff_ffff_ffff - m)

-- `a < b` for a natural number `b` either way from 0
abbrev pub within_ℤ : ℕ → ℤ → Bool
within_ℤ b (pos n) = ltb n b
within_ℤ b (negsuc n) = ltb n b

pub wrap_64_within : (z : ℤ) → within_ℤ 0x8000_0000_0000_0000 z ≡ true → wrap_64 z ≡ z
unfolding wrap_64
wrap_64_within (pos n) h = ground arith
wrap_64_within (negsuc n) h = ground arith

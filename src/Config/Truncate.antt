-- ===== src/Config/Truncate.antt =====
-- `TruncateRunesTail` of internal/config/config.go. The limit is an int.
pub mod Tail
mod Tests
use octo_speech.Prelude.{ℕ, ◌-◌, Text, length, drop, leb, if◌then◌else◌, Option, some, none}
use octo_speech.Prelude.Int.{ℤ, pos, negsuc}

-- `none` is the panic of Go's slice bounds at a negative limit.
unfoldable pub truncate_runes_tail : Text → ℤ → Option Text
truncate_runes_tail s (pos max) = some (if leb (length s) max then s else drop (length s - max) s)
truncate_runes_tail s (negsuc n) = none

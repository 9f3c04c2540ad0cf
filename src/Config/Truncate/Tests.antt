-- ===== src/Config/Truncate/Tests.antt =====
-- Runs of `TruncateRunesTail`.
use octo_speech.Prelude.{◌≡◌, refl, codes, some, none}
use octo_speech.Prelude.Int.{pos, negsuc}
use octo_speech.Config.Truncate.{truncate_runes_tail}

keeps_end : truncate_runes_tail (codes "大家好") (pos 2) ≡ some (codes "家好")
unfolding truncate_runes_tail
keeps_end = refl

panics : truncate_runes_tail (codes "ab") (negsuc 0) ≡ none
unfolding truncate_runes_tail
panics = refl

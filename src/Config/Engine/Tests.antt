-- ===== src/Config/Engine/Tests.antt =====
-- Spellings of engines and models.
use octo_speech.Prelude.{◌≡◌, ◌≢◌, refl, [], codes, arith, text_eq, to_lower}
use octo_speech.Config.Engine.{normalize_engine, shorten_model_name, find_text}

shortens : shorten_model_name (codes "whisper-1") ≡ codes "w1"
unfolding shorten_model_name find_text text_eq
shortens = refl

known : normalize_engine (codes "GPT") ≢ []
unfolding normalize_engine text_eq to_lower
known = ground arith

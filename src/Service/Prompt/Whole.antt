-- ===== src/Service/Prompt/Whole.antt =====
-- The default system messages of internal/service/prompt.go, in every mode.
pub mod Statement
pub mod Append
pub mod EditOnly
pub mod Edit
pub mod Plain
use octo_speech.Prelude.{true, arith, ◌||◌}

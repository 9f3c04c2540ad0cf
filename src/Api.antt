-- ===== src/Api.antt =====
-- The HTTP interface of the speech service, internal/api.
pub mod Auth
pub mod Transcribe
pub mod Vocabulary
pub mod LocalConfig

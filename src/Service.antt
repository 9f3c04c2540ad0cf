-- ===== src/Service.antt =====
-- The transcription service, internal/service.
pub mod Merge
pub mod Replacer
pub mod Prompt
pub mod Models
pub mod Transcribe

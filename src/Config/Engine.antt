-- ===== src/Config/Engine.antt =====
-- Names of engines and models in internal/config/config.go.
pub mod Names
mod Tests
use octo_speech.Prelude.{
  Bool, List, [], ◌∷◌, ◌++◌, map, Text, codes, text_eq, to_lower, if◌then◌else◌, ◌||◌, Option, some,
  none,
}

abbrev pub engine_gemini : Text
engine_gemini = codes "gemini"

abbrev pub engine_gpt : Text
engine_gpt = codes "gpt"

abbrev pub engine_qwen : Text
engine_qwen = codes "qwen"

unfoldable pub normalize_engine : Text → Text
normalize_engine s =
    let t = map to_lower s in
    if text_eq t (codes "gm") || text_eq t (codes "gemini")
    then engine_gemini
    else (if text_eq t (codes "gp") || text_eq t (codes "gpt")
        then engine_gpt
        else (if text_eq t (codes "qw") || text_eq t (codes "qwen") then engine_qwen else []))

-- `EngineToShort`, and the method `EngineShort` at the engine of the settings.
unfoldable pub engine_to_short : Text → Text
engine_to_short engine =
    if text_eq engine engine_gpt
    then codes "gp"
    else (if text_eq engine engine_qwen then codes "qw" else codes "gm")

-- var modelAbbreviations
abbrev pub model_abbreviations : List (Text × Text)
model_abbreviations =
    (codes "gemini-3.1-pro-preview", codes "g31pp")
    ∷ (codes "gemini-3-flash-preview", codes "g3fp")
    ∷ (codes "gemini-2.5-pro", codes "g25p")
    ∷ (codes "gemini-2.0-flash", codes "g20f")
    ∷ (codes "gemini-2.0-flash-lite", codes "g20fl")
    ∷ (codes "gpt-4o-transcribe", codes "gpt4ot")
    ∷ (codes "gpt-4o-mini-transcribe", codes "gpt4omt")
    ∷ (codes "whisper-1", codes "w1")
    ∷ (codes "whisper-large-v3", codes "wlv3")
    ∷ (codes "qwen3.5-omni-plus", codes "q35op")
    ∷ []

unfoldable pub find_text : Text → List (Text × Text) → Option Text
find_text k [] = none
find_text k ((j, v) ∷ m) = if text_eq j k then some v else find_text k m

unfoldable pub shorten_model_name : Text → Text
shorten_model_name model = elim (find_text model model_abbreviations) [
  | some short ↦ short
  | none ↦ model
]

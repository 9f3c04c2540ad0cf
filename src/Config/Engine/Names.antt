-- ===== src/Config/Engine/Names.antt =====
-- Engine names as requests and answers spell them.
use octo_speech.Prelude.{
  ℕ, ◌≡◌, refl, ◌≢◌, ◌⊎◌, inl, inr, Text, [], ◌∷◌, map, text_eq, to_lower, arith,
}
use octo_speech.Config.Engine.{
  engine_gemini, engine_gpt, engine_qwen, normalize_engine, engine_to_short,
}

abbrev pub IsEngine : Text → Type 0
IsEngine e = (e ≡ engine_gemini) ⊎ (e ≡ engine_gpt) ⊎ (e ≡ engine_qwen)

normalize_engine_cases : (s : Text) → (normalize_engine s ≡ []) ⊎ IsEngine (normalize_engine s)
unfolding normalize_engine
normalize_engine_cases s = ground arith

short_round_trip : (e : Text) → IsEngine e → normalize_engine (engine_to_short e) ≡ e
unfolding normalize_engine engine_to_short text_eq to_lower
short_round_trip e (inl g) = rw g
short_round_trip e (inr (inl g)) = rw g
short_round_trip e (inr (inr g)) = rw g

to_lower_idem : (c : ℕ) → to_lower (to_lower c) ≡ to_lower c
unfolding to_lower
to_lower_idem c = ground arith

map-to_lower_idem : (s : Text) → map to_lower (map to_lower s) ≡ map to_lower s
map-to_lower_idem [] = refl
map-to_lower_idem (c ∷ s) = cc (to_lower_idem c, map-to_lower_idem s)

-- Whatever a request spells, the engine is unknown or one of the three, and then the short name
-- that answers carry is a spelling of that same engine.
pub normalize_engine-engine_to_short :
    (s : Text)
    → normalize_engine s ≢ []
    → IsEngine (normalize_engine s)
      × (normalize_engine (engine_to_short (normalize_engine s)) ≡ normalize_engine s)
normalize_engine-engine_to_short s known = elim (normalize_engine_cases s) [
  | inl unknown ↦ absurd (known unknown)
  | inr e ↦ (e, short_round_trip (normalize_engine s) e)
]

-- The case of a request's spelling makes no difference.
pub normalize_engine-to_lower : (s : Text) → normalize_engine (map to_lower s) ≡ normalize_engine s
unfolding normalize_engine
normalize_engine-to_lower s = rw map-to_lower_idem

-- ===== src/Config/Load/Valid.antt =====
-- What every configuration from the environment satisfies, and when it validates.
use octo_speech.Prelude.{
  ◌≡◌, refl, ◌≢◌, ◌↔◌, ◌⊎◌, inl, inr, Bool, true, false, List, [], ◌∷◌, Text, codes, text_eq,
  text_eq_iff, Option, some, none, arith, Bool-cases, All,
}
use octo_speech.Prelude.Int.{ℤ, pos, negsuc, is_pos, le_ℤ}
use mathlib.Core.Option
use octo_speech.Config.{Config}
use octo_speech.Config.Engine.{engine_gemini, engine_gpt, engine_qwen}
use octo_speech.Config.Engine.Names.{IsEngine}
use octo_speech.Config.Load.{
  Env, pos_or, allow_feedback_of, get_env_int, split_models, trimmed_pieces, models_or, engine_of,
  edit_mode_of, local_timeout_of, config_of, default_models, default_gpt_models,
  default_qwen_models, load_from_env, validate, validate_gateway, split_commas,
}

-- A model name from the environment is not empty.
abbrev pub IsModelName : Text → Type 0
IsModelName m = m ≢ []

abbrev pub IsModelList : List Text → Type 0
IsModelList ms = (ms ≢ []) × All IsModelName ms

pub record IsLoaded (c : Config) : Type 0 where
  pub known_engine : IsEngine c.engine
  pub known_mode : (c.edit_mode ≡ codes "edit") ⊎ (c.edit_mode ≡ codes "append")
  pub gpt_appends : (c.engine ≢ engine_gpt) ⊎ (c.edit_mode ≡ codes "append")
  pub has_models : IsModelList c.models
  pub has_gpt_models : IsModelList c.gpt_models
  pub has_qwen_models : IsModelList c.qwen_models
  pub upload_pos : is_pos c.max_upload_size ≡ true
  pub file_pos : is_pos c.max_file_size ≡ true
  pub timeout_pos : is_pos c.timeout ≡ true
  pub total_pos : is_pos c.total_timeout ≡ true
  pub context_pos : is_pos c.max_context_text_length ≡ true
  pub chat_pos : is_pos c.max_chat_context_length ≡ true
  pub voice_pos : is_pos c.max_voice_context_length ≡ true
  pub member_pos : is_pos c.max_member_context_length ≡ true
  pub local_pos : is_pos c.local_timeout_ms ≡ true
  pub local_bounded : le_ℤ c.local_timeout_ms (pos 60000) ≡ true
  pub ttl_pos : is_pos c.cache_ttl ≡ true
  pub buffer_pos : is_pos c.asr_log_buffer_size ≡ true

map-eq-some {ℓ κ} :
    {A : Type ℓ} {B : Type κ} (f : A → B) (m : Option A) {b : B}
    → Option.map f m ≡ some b
    → (a : A) × (f a ≡ b)
map-eq-some f none h = absurd (ground arith)
map-eq-some f (some a) h = (a, ground arith)

pos_or-is_pos : (default : ℤ) (v : Text) → is_pos default ≡ true → is_pos (pos_or default v) ≡ true
unfolding pos_or
pos_or-is_pos default v h = ground arith

get_env_int-is_pos :
    (env : Env) (key : _) (default : ℤ)
    → is_pos default ≡ true
    → is_pos (get_env_int env key default) ≡ true
unfolding get_env_int
get_env_int-is_pos env key default h = ground arith

local_timeout_bounds :
    (v : Text)
    → (is_pos (local_timeout_of v) ≡ true) × (le_ℤ (local_timeout_of v) (pos 60000) ≡ true)
unfolding local_timeout_of
local_timeout_bounds v = ground arith

trimmed_pieces-All : (ms : List Text) → All IsModelName (trimmed_pieces ms)
unfolding trimmed_pieces
trimmed_pieces-All [] = tt
trimmed_pieces-All (m ∷ ms) = ground (arith, trimmed_pieces-All ms)

models_or-IsModelList :
    (default : List Text) (v : Text) → IsModelList default → IsModelList (models_or default v)
unfolding models_or split_models
models_or-IsModelList default v h = ground (arith, trimmed_pieces-All (split_commas v))

engine_of-IsEngine : (v : Text) → IsEngine (engine_of v)
unfolding engine_of
engine_of-IsEngine v =
    ground (arith, text_eq_iff v engine_gpt, text_eq_iff v engine_gemini, text_eq_iff v engine_qwen)

edit_mode_of_known :
    (engine v : Text)
    → (edit_mode_of engine v ≡ codes "edit") ⊎ (edit_mode_of engine v ≡ codes "append")
unfolding edit_mode_of
edit_mode_of_known engine v =
    ground (arith, text_eq_iff v (codes "edit"), text_eq_iff v (codes "append"))

edit_mode_of-gpt : (v : Text) → edit_mode_of engine_gpt v ≡ codes "append"
unfolding edit_mode_of text_eq
edit_mode_of-gpt v = ground (arith, text_eq_iff v (codes "edit"), text_eq_iff v (codes "append"))

edit_mode_of-engine :
    (engine v : Text) → (engine ≢ engine_gpt) ⊎ (edit_mode_of engine v ≡ codes "append")
edit_mode_of-engine engine v = elim (Bool-cases (text_eq engine engine_gpt)) [
  | inl gpt_engine ↦ inr (rw ((text_eq_iff engine engine_gpt).0 gpt_engine) (edit_mode_of-gpt v))
  | inr other ↦ inl (ground (arith, text_eq_iff engine engine_gpt))
]

config_of-IsLoaded :
    (ensure : Text → Text) (parse_duration : Text → Option ℤ) (env : Env) (allow : Bool)
    → IsLoaded (config_of ensure parse_duration env allow)
unfolding config_of
config_of-IsLoaded ensure parse_duration env allow =
    let v = env "VOICE_EDIT_MODE" in
    record {
      known_engine = engine_of-IsEngine (env "VOICE_ENGINE");
      known_mode = edit_mode_of_known (engine_of (env "VOICE_ENGINE")) v;
      gpt_appends = edit_mode_of-engine (engine_of (env "VOICE_ENGINE")) v;
      has_models =
          models_or-IsModelList default_models (env "VOICE_MODELS") (cc, (cc, (cc, (cc, tt))));
      has_gpt_models =
          models_or-IsModelList default_gpt_models (env "VOICE_GPT_MODELS") (cc, (cc, tt));
      has_qwen_models =
          models_or-IsModelList default_qwen_models (env "VOICE_QWEN_MODELS") (cc, (cc, tt));
      upload_pos = pos_or-is_pos _ (env "VOICE_MAX_UPLOAD_SIZE") refl;
      file_pos = pos_or-is_pos _ (env "VOICE_MAX_FILE_SIZE") refl;
      timeout_pos = pos_or-is_pos _ (env "VOICE_LITELLM_TIMEOUT") refl;
      total_pos = pos_or-is_pos _ (env "VOICE_TOTAL_TIMEOUT") refl;
      context_pos = get_env_int-is_pos env "VOICE_MAX_CONTEXT_TEXT_LENGTH" _ refl;
      chat_pos = get_env_int-is_pos env "VOICE_MAX_CHAT_CONTEXT_LENGTH" _ refl;
      voice_pos = get_env_int-is_pos env "VOICE_MAX_VOICE_CONTEXT_LENGTH" _ refl;
      member_pos = get_env_int-is_pos env "VOICE_MAX_MEMBER_CONTEXT_LENGTH" _ refl;
      local_pos = (local_timeout_bounds (env "VOICE_LOCAL_TIMEOUT_MS")).0;
      local_bounded = (local_timeout_bounds (env "VOICE_LOCAL_TIMEOUT_MS")).1;
      ttl_pos = pos_or-is_pos _ (env "SPEECH_APP_CACHE_TTL") refl;
      buffer_pos = pos_or-is_pos _ (env "ASR_LOG_BUFFER_SIZE") refl;
    }

loaded-config_of :
    (ensure : Text → Text) (parse_duration : Text → Option ℤ) (env : Env) {c : Config}
    → load_from_env ensure parse_duration env ≡ some c
    → (allow : Bool) × (config_of ensure parse_duration env allow ≡ c)
unfolding load_from_env
loaded-config_of ensure parse_duration env h =
    map-eq-some (config_of ensure parse_duration env)
      (allow_feedback_of (env "VOICE_ALLOW_FEEDBACK")) h

-- Whatever the environment holds, a configuration that loads has one of the three engines, an edit
-- mode that its engine supports, lists of models with no empty name, positive sizes, limits and
-- timeouts, and a local timeout of at most a minute.
pub load_from_env-IsLoaded :
    (ensure : Text → Text) (parse_duration : Text → Option ℤ) (env : Env) {c : Config}
    → load_from_env ensure parse_duration env ≡ some c
    → IsLoaded c
load_from_env-IsLoaded ensure parse_duration env h =
    let (allow, e) = loaded-config_of ensure parse_duration env h in
    rw e at (config_of-IsLoaded ensure parse_duration env allow)

-- Requests for the engine have an address and a key to go to.
abbrev pub IsReachable : Config → Type 0
IsReachable c =
    ((c.engine ≡ engine_qwen)
      × ((c.qwen_url ≢ []) ⊎ (c.litellm_url ≢ []))
      × ((c.qwen_key ≢ []) ⊎ (c.litellm_key ≢ [])))
    ⊎ ((c.engine ≢ engine_qwen) × (c.litellm_url ≢ []) × (c.litellm_key ≢ []))

abbrev HasModels : Config → Type 0
HasModels c = (c.models ≢ []) × (c.gpt_models ≢ []) × (c.qwen_models ≢ [])

validate_gateway-none : (c : Config) → HasModels c → IsReachable c → validate_gateway c ≡ none
unfolding validate_gateway
validate_gateway-none c (m, g, q) (inl (e, url, key)) =
    ground (arith, text_eq_iff c.engine engine_qwen)
validate_gateway-none c (m, g, q) (inr (e, url, key)) =
    ground (arith, text_eq_iff c.engine engine_qwen)

validate_gateway-IsReachable : (c : Config) → validate_gateway c ≡ none → IsReachable c
unfolding validate_gateway
validate_gateway-IsReachable c h = elim (Bool-cases (text_eq c.engine engine_qwen)) [
  | inl qwen ↦ inl ((text_eq_iff _ _).0 qwen, ground arith, ground arith)
  | inr other ↦ inr (ground (arith, text_eq_iff c.engine engine_qwen), ground arith, ground arith)
]

is_pos-le : (n : ℤ) → is_pos n ≡ true → le_ℤ n (pos 0) ≡ false
is_pos-le (pos n) h = ground arith
is_pos-le (negsuc n) h = absurd (ground arith)

validate_parts :
    (c : Config)
    → le_ℤ c.max_upload_size (pos 0) ≡ false
    → (validate c ≡ none) ↔ (
        (c.db_dsn ≢ [])
        × (le_ℤ c.max_upload_size c.max_file_size ≡ false)
        × (validate_gateway c ≡ none))
unfolding validate
validate_parts c h = (λ v. (ground arith, ground arith, ground arith), λ p. ground arith)

-- A configuration that loads from the environment validates exactly when a database is named, the
-- limit on files is below the limit on uploads and the engine has an address and a key: its lists
-- of models and its limit on uploads are never the reason for an error.
pub validate-load_from_env_iff :
    (ensure : Text → Text) (parse_duration : Text → Option ℤ) (env : Env) {c : Config}
    → load_from_env ensure parse_duration env ≡ some c
    → (validate c ≡ none)
      ↔ ((c.db_dsn ≢ []) × (le_ℤ c.max_upload_size c.max_file_size ≡ false) × IsReachable c)
validate-load_from_env_iff ensure parse_duration env {c} h =
    let l = load_from_env-IsLoaded ensure parse_duration env h in
    let (to, from) = validate_parts c (is_pos-le c.max_upload_size l.upload_pos) in
    (
      λ v. let (dsn, sizes, gateway) = to v in (dsn, sizes, validate_gateway-IsReachable c gateway),
      λ (dsn, sizes, reach). from (
        dsn,
        sizes,
        validate_gateway-none c (l.has_models.0, l.has_gpt_models.0, l.has_qwen_models.0) reach,
      ),
    )

-- ===== src/Speech/Boot.antt =====
-- How cmd/speech/main.go starts, up to the routes. The environment, the database, the migrations, the
-- prompt file and the directory of the log are outside; a message is what the process ends with.
mod Tests
use octo_speech.Prelude.{
  ℕ, suc, ◌*◌, ◌<◌, ◌≡◌, refl, sym, subst, ap, ◌∙◌, ◌≢◌, ◌⊎◌, inl, inr, Bool, true, false, Option,
  some, none, [], Text, String, is_empty, ltb, if◌then◌else◌, arith, Bool-cases, Option-cases,
}
use octo_speech.Prelude.Int.{ℤ, pos, negsuc, is_pos, le_ℤ}
use octo_speech.Config.{Config}
use octo_speech.Config.Load.{Env, load_from_env, validate}
use octo_speech.Config.Load.Valid.{
  IsLoaded, IsReachable, load_from_env-IsLoaded, validate-load_from_env_iff,
}
use octo_speech.Service.Prompt.{PromptConfig}
use octo_speech.Service.Prompt.Defaults.{default_prompts}
use octo_speech.Service.Prompt.Load.{load_prompts}
use octo_speech.Store.App.{AppStore, new_app_store}
use octo_speech.AsrLog.{Logger, new_logger}

-- What `main` meets: the environment and what the settings use of the libraries, sql.Open, Ping and
-- migration.Run (none for an error), the prompt file as `LoadPrompts` reads it, and MkdirAll.
pub record Host : Type 0 where
  pub env : Env
  pub ensure_dsn_time_params : Text → Text
  pub parse_duration : Text → Option ℤ
  pub open_db : Text → Bool
  pub ping : Bool
  pub migrate : Option ℕ
  pub read_prompts : Text → Option PromptConfig
  pub make_dir : Text → Bool

-- What serves behind the start.
pub record Running : Type 0 where
  pub cfg : Config
  pub prompts : PromptConfig
  pub app_store : AppStore
  pub asr_logger : Option Logger
  pub has_cleaner : Bool

-- A size from the settings; a channel of a negative size would panic.
abbrev pub size : ℤ → ℕ
size (pos n) = n
size (negsuc n) = 0

-- `asrlog.NewLogger`, where a directory is set
unfoldable pub open_log : Host → Config → Option Logger
open_log h cfg =
    if is_empty cfg.asr_log_dir
    then none
    else (if h.make_dir cfg.asr_log_dir
        then some (new_logger (size cfg.asr_log_buffer_size) cfg.hostname)
        else none)

abbrev pub is_some {ℓ} : {A : Type ℓ} → Option A → Bool
is_some none = false
is_some (some a) = true

unfoldable pub running_with : Host → Config → Running
running_with h cfg = record {
  cfg = cfg;
  prompts = load_prompts default_prompts (h.read_prompts cfg.prompt_file);
  app_store = new_app_store (size cfg.cache_ttl * 1_000_000_000);
  asr_logger = open_log h cfg;
  has_cleaner = is_some (open_log h cfg);
}

-- The database, behind valid settings.
unfoldable pub connect : Host → Config → Option String
connect h cfg =
    if h.open_db cfg.db_dsn
    then (if h.ping
        then elim h.migrate [ none ↦ some "failed to run migrations" | some n ↦ none ]
        else some "failed to ping database")
    else some "failed to connect to database"

unfoldable pub boot_with : Host → Config → String ⊎ Running
boot_with h cfg = elim (validate cfg) [
  | some error ↦ inl "invalid configuration"
  | none ↦ elim (connect h cfg) [ some message ↦ inl message | none ↦ inr (running_with h cfg) ]
]

-- `main` up to the routes.
unfoldable pub boot : Host → String ⊎ Running
boot h = elim (load_from_env h.ensure_dsn_time_params h.parse_duration h.env) [
  | none ↦ inl "failed to load configuration"
  | some cfg ↦ boot_with h cfg
]

connect-none :
    (h : Host) (cfg : Config)
    → connect h cfg ≡ none
    → (h.open_db cfg.db_dsn ≡ true) × (h.ping ≡ true) × (h.migrate ≢ none)
unfolding connect
connect-none h cfg e = ground arith

boot_with_inv :
    (h : Host) (cfg : Config) (r : Running)
    → boot_with h cfg ≡ inr r
    → (validate cfg ≡ none) × (connect h cfg ≡ none) × (r ≡ running_with h cfg)
unfolding boot_with
boot_with_inv h cfg r e = elim (Option-cases (validate cfg)) [
  | inr (error, bad) ↦ absurd (ground arith)
  | inl good ↦ elim (Option-cases (connect h cfg)) [
    | inr (message, failed) ↦ absurd (ground arith)
    | inl up ↦ (good, up, ground arith)
  ]
]

boot_inv :
    (h : Host) (r : Running)
    → boot h ≡ inr r
    → (cfg : Config) × (load_from_env h.ensure_dsn_time_params h.parse_duration h.env ≡ some cfg)
      × (boot_with h cfg ≡ inr r)
unfolding boot
boot_inv h r e =
    elim (Option-cases (load_from_env h.ensure_dsn_time_params h.parse_duration h.env)) [
      | inl failed ↦ absurd (ground arith)
      | inr (cfg, loaded) ↦ (cfg, loaded, ground arith)
    ]

size_pos : (n : ℤ) → is_pos n ≡ true → 0 < size n
size_pos (pos n) h = ground arith
size_pos (negsuc n) h = absurd (cc)

-- Whether a channel can take an entry, if there is a log.
abbrev pub has_room : Option Logger → Bool
has_room none = true
has_room (some l) = ltb 0 l.capacity

open_log_room : (h : Host) (cfg : Config) → IsLoaded cfg → has_room (open_log h cfg) ≡ true
unfolding open_log new_logger
open_log_room h cfg loaded = ground (arith, size_pos cfg.asr_log_buffer_size loaded.buffer_pos)

-- What a service that has started is.
pub record IsReady (h : Host) (r : Running) : Type 0 where
  pub loaded : IsLoaded r.cfg
  pub reachable : IsReachable r.cfg
  pub named_db : r.cfg.db_dsn ≢ []
  pub sizes : le_ℤ r.cfg.max_upload_size r.cfg.max_file_size ≡ false
  pub opened : h.open_db r.cfg.db_dsn ≡ true
  pub answers : h.ping ≡ true
  pub migrated : h.migrate ≢ none
  pub room : has_room r.asr_logger ≡ true
  pub cleaner : r.has_cleaner ≡ is_some r.asr_logger

-- A speech service that starts has settings that were loaded and validated: known engine and mode,
-- lists of models, positive limits, an address and a key for its engine; its database is named, was
-- opened, answers and was migrated; its log, if it has one, has room for at least one entry, and
-- comes with a cleaner.
pub boot-IsReady : (h : Host) (r : Running) → boot h ≡ inr r → IsReady h r
unfolding running_with
boot-IsReady h r started =
    let (cfg, found, rest) = boot_inv h r started in
    let (good, up, e) = boot_with_inv h cfg r rest in
    let loaded = load_from_env-IsLoaded h.ensure_dsn_time_params h.parse_duration h.env found in
    let (dsn, sizes, reach) =
      (validate-load_from_env_iff h.ensure_dsn_time_params h.parse_duration h.env found).0 good in
    let (opened, answers, migrated) = connect-none h cfg up in
    subst (λ r. IsReady h r) (sym e)
      (record {
        loaded = loaded;
        reachable = reach;
        named_db = dsn;
        sizes = sizes;
        opened = opened;
        answers = answers;
        migrated = migrated;
        room = open_log_room h cfg loaded;
        cleaner = refl;
      })

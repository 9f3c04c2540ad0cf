-- ===== src/Api/LocalConfig.antt =====
-- The handlers of internal/api/local_config.go, and that of internal/api/config.go. The binding of a
-- body and `url.Parse` are arguments.
pub mod Defaults
pub mod Tenants
pub mod Tests
use octo_speech.Prelude.{
  ℕ, Bool, true, false, List, [], ◌∷◌, Text, codes, text_eq, is_empty, length, ltb, leb, ◌==◌,
  if◌then◌else◌, not, ◌||◌, ◌&&◌, Option, some, none, String,
}
use octo_speech.Prelude.Http.{Reply, reply, Outcome, abort, pass, ◌>>=◌, ◌>>◌, guard}
use octo_speech.Prelude.Int.{ℤ, pos, negsuc, le_ℤ}
use octo_speech.Config.{Config}
use octo_speech.Config.Engine.{engine_to_short}
use octo_speech.Admin.KeyGen.{byte_length}
use octo_speech.Store.Vocabulary.{Key, is_valid_scope_type}
use octo_speech.Store.LocalConfig.{
  LocalAsrConfig, Given, Table, upsert_of, reset_of, query, default_config,
}

pub data UrlError : Type 0 where
  too_long invalid bad_scheme no_host : UrlError

-- `validateLocalURL`: its error, or `none`. `parse` gives the scheme and the host.
unfoldable pub validate_local_url : (Text → Option (Text × Text)) → Text → Option UrlError
validate_local_url parse raw =
    if ltb 500 (byte_length raw) then some too_long else elim (parse raw) [
      | none ↦ some invalid
      | some (scheme, host) ↦
          if not (text_eq scheme (codes "http") || text_eq scheme (codes "https"))
          then some bad_scheme
          else (if is_empty host then some no_host else none)
    ]

abbrev pub probe_message : UrlError → String
probe_message too_long = "probe_url: URL must not exceed 500 characters"
probe_message invalid = "probe_url: invalid URL"
probe_message bad_scheme = "probe_url: scheme must be http or https"
probe_message no_host = "probe_url: host is required"

abbrev pub transcribe_message : UrlError → String
transcribe_message too_long = "transcribe_url: URL must not exceed 500 characters"
transcribe_message invalid = "transcribe_url: invalid URL"
transcribe_message bad_scheme = "transcribe_url: scheme must be http or https"
transcribe_message no_host = "transcribe_url: host is required"

-- `if url != nil { if err := validateLocalURL(*url); err != nil { … } }`
unfoldable pub check_url :
    (Text → Option (Text × Text)) → (UrlError → String) → Option Text → Outcome (Unit {0})
check_url parse msg none = pass tt
check_url parse msg (some raw) = elim (validate_local_url parse raw) [
  | none ↦ pass tt
  | some e ↦ abort (reply 400 (msg e))
]

-- The body of `Put`, and, without its last three fields, of `Reset`.
pub record Body : Type 0 where
  pub subject_id : Text
  pub scope_type : Text
  pub scope_id : Text
  pub enabled : Option Bool
  pub timeout_ms : Option ℤ
  pub probe_url : Option Text
  pub transcribe_url : Option Text

-- The check of the three identifiers that all handlers share.
unfoldable pub check_scope : Text → Text → Text → Text → Outcome Key
check_scope app_id subject_id scope_type scope_id = do
  guard (not (is_empty subject_id || is_empty scope_type || is_empty scope_id))
      (reply 400 "subject_id, scope_type, and scope_id are required")
  guard (is_valid_scope_type scope_type)
      (reply 400 "invalid scope_type, expected: global, space, org, project")
  pass (record {
    app_id = app_id;
    subject_id = subject_id;
    scope_type = scope_type;
    scope_id = scope_id;
  })

unfoldable pub check_body : Text → Option Body → Outcome (Key × Bool × Body)
check_body app_id none = abort (reply 400 "invalid request body")
check_body app_id (some b) = do
  k ← check_scope app_id b.subject_id b.scope_type b.scope_id
  elim b.enabled [
    | none ↦ abort (reply 400 "enabled is required")
    | some enabled ↦ pass (k, enabled, b)
  ]

abbrev pub timeout_ok : Option ℤ → Bool
timeout_ok none = true
timeout_ok (some n) = le_ℤ (pos 1) n && le_ℤ n (pos 60000)

unfoldable pub answer_config : Option LocalAsrConfig → Outcome LocalAsrConfig
answer_config none = abort (reply 500 "failed to query local config")
answer_config (some c) = pass c

module _ {S : Type 0} (t : Table S) (cfg : Config) where
  -- `Put` up to the call of the store.
  unfoldable pub check_put :
      (Text → Option (Text × Text)) → Text → Option Body → Outcome (Key × Given)
  check_put parse app_id body = do
    (k, enabled, b) ← check_body app_id body
    guard (timeout_ok b.timeout_ms) (reply 400 "timeout_ms must be between 1 and 60000")
    check_url parse probe_message b.probe_url
    check_url parse transcribe_message b.transcribe_url
    pass (
      k,
      record {
        enabled = enabled;
        timeout_ms = b.timeout_ms;
        probe_url = b.probe_url;
        transcribe_url = b.transcribe_url;
      },
    )

  unfoldable pub save : S → Outcome (Key × Given) → S × Outcome (Unit {0})
  save s (abort r) = (s, abort r)
  save s (pass (k, g)) = elim (t.upsert s (upsert_of k g)) [
    | none ↦ (s, abort (reply 500 "failed to save local config"))
    | some s' ↦ (s', pass tt)
  ]

  -- `Put`; `pass` is the answer "ok" with status 200.
  unfoldable pub put :
      (Text → Option (Text × Text)) → S → Text → Option Body → S × Outcome (Unit {0})
  put parse s app_id body = save s (check_put parse app_id body)

  unfoldable pub get : S → Text → Text → Text → Text → Outcome LocalAsrConfig
  get s app_id subject_id scope_type scope_id = do
    k ← check_scope app_id subject_id scope_type scope_id
    answer_config (query t cfg s k)

  unfoldable pub reset_to : S → Outcome (Key × Bool × Body) → S × Outcome LocalAsrConfig
  reset_to s (abort r) = (s, abort r)
  reset_to s (pass (k, enabled, b)) = elim (t.upsert s (reset_of k enabled)) [
    | none ↦ (s, abort (reply 500 "failed to reset local config"))
    | some s' ↦ (s', pass (record (default_config cfg) { enabled = enabled }))
  ]

  -- `Reset`; `pass` is the answer with status 200.
  unfoldable pub reset : S → Text → Option Body → S × Outcome LocalAsrConfig
  reset s app_id body = reset_to s (check_body app_id body)

  unfoldable pub remove_at : S → Outcome Key → S × Reply
  remove_at s (abort r) = (s, r)
  remove_at s (pass k) = elim (t.remove s k) [
    | none ↦ (s, reply 500 "failed to delete local config")
    | some (s', rows) ↦ (s', if rows == 0 then reply 404 "config not found" else reply 200 "ok")
  ]

  -- `Delete`
  unfoldable pub delete : S → Text → Text → Text → Text → S × Reply
  delete s app_id subject_id scope_type scope_id =
      remove_at s (check_scope app_id subject_id scope_type scope_id)

-- The body of an answer of internal/api/config.go; feedback_url is left out if it is not set.
pub record ConfigAnswer : Type 0 where
  pub max_duration : ℤ
  pub max_file_size : ℤ
  pub engine : Text
  pub edit_mode : Text
  pub local : LocalAsrConfig
  pub feedback_url : Option Text

-- `ConfigHandler.Handle`: without a scope, the local part is the server's defaults.
unfoldable pub handle_config : {S : Type 0} → Table S → Config → S → Key → Outcome ConfigAnswer
handle_config t cfg s k = do
  local ← answer_config (query t cfg s k)
  pass (record {
    max_duration = cfg.max_duration;
    max_file_size = cfg.max_file_size;
    engine = engine_to_short cfg.engine;
    edit_mode = cfg.edit_mode;
    local = local;
    feedback_url = if is_empty cfg.feedback_url then none else some cfg.feedback_url;
  })

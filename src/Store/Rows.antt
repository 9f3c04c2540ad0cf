-- ===== src/Store/Rows.antt =====
-- The tables of internal/migration/migrations that the administration writes, and what the
-- statements of internal/store/app.go ask for. `same` is how the collation of the database
-- compares two texts. Of the tables local_asr_config and vocabulary_profile only the column app_id
-- is kept.
pub mod Find
use octo_speech.Prelude.{
  ℕ, Bool, true, false, not, ◌&&◌, ◌==◌, List, [], ◌∷◌, ◌++◌, map, length, keep, Text, text_eq,
  Option, some, none, if◌then◌else◌,
}
use octo_speech.Prelude.Int.{ℤ, pos, negsuc}

-- A row of app_registry; times are readings of the database's clock.
pub record AppRow : Type 0 where
  pub id : ℕ
  pub app_id : Text
  pub app_name : Text
  pub api_key : Text
  pub status : ℤ
  pub created_at : ℕ
  pub updated_at : ℕ

-- A row of audit_log.
pub record AuditRow : Type 0 where
  pub action : Text
  pub app_id : Text
  pub app_name : Text
  pub operator : Text
  pub detail : Option Text

pub record Tables : Type 0 where
  pub apps : List AppRow
  pub configs : List Text
  pub profiles : List Text
  pub audits : List AuditRow

abbrev pub eq_ℤ : ℤ → ℤ → Bool
eq_ℤ (pos a) (pos b) = a == b
eq_ℤ (pos a) (negsuc b) = false
eq_ℤ (negsuc a) (pos b) = false
eq_ℤ (negsuc a) (negsuc b) = a == b

-- `INSERT INTO app_registry (app_id, app_name, api_key)`: an application begins enabled.
abbrev pub new_row : ℕ → ℕ → Text → Text → Text → AppRow
new_row id now app_id app_name api_key = record {
  id = id;
  app_id = app_id;
  app_name = app_name;
  api_key = api_key;
  status = pos 1;
  created_at = now;
  updated_at = now;
}

unfoldable pub add_app : ℕ → ℕ → Text → Text → Text → Tables → Tables
add_app id now app_id app_name api_key t = record t {
  apps = t.apps ++ new_row id now app_id app_name api_key ∷ [];
}

unfoldable pub add_audit : AuditRow → Tables → Tables
add_audit e t = record t { audits = t.audits ++ e ∷ [] }

-- An UPDATE of the rows that a test finds changed, and their number.
unfoldable pub update : (AppRow → Bool) → (AppRow → AppRow) → List AppRow → List AppRow
update p f = map (λ r. if p r then f r else r)

unfoldable pub affected : (AppRow → Bool) → List AppRow → ℕ
affected p rows = length (keep p rows)

abbrev pub set_status : ℤ → ℕ → AppRow → AppRow
set_status new now r = record r { status = new; updated_at = now }

abbrev pub set_key : Text → ℕ → AppRow → AppRow
set_key new now r = record r { api_key = new; updated_at = now }

module _ (same : Text → Text → Bool) where
  -- `WHERE app_id = ?` and `WHERE api_key = ?`
  unfoldable pub find_app : Text → List AppRow → Option AppRow
  find_app id [] = none
  find_app id (r ∷ rows) = if same r.app_id id then some r else find_app id rows

  unfoldable pub find_key : Text → List AppRow → Option AppRow
  find_key key [] = none
  find_key key (r ∷ rows) = if same r.api_key key then some r else find_key key rows

  -- The two unique keys of app_registry.
  unfoldable pub is_fresh : AppRow → List AppRow → Bool
  is_fresh r [] = true
  is_fresh r (q ∷ rows) =
      not (same q.app_id r.app_id) && (not (same q.api_key r.api_key) && is_fresh r rows)

  unfoldable pub is_unique : List AppRow → Bool
  is_unique [] = true
  is_unique (r ∷ rows) = is_fresh r rows && is_unique rows

  abbrev pub is_app : Text → AppRow → Bool
  is_app id r = same r.app_id id

  -- The rows that `UPDATE app_registry SET … WHERE app_id = ?` changes.
  abbrev pub status_changes : Text → ℤ → AppRow → Bool
  status_changes id new r = same r.app_id id && not (eq_ℤ r.status new)

  abbrev pub key_changes : Text → Text → AppRow → Bool
  key_changes id new r = same r.app_id id && not (text_eq r.api_key new)

  unfoldable pub with_status : Text → ℤ → ℕ → Tables → Tables
  with_status id new now t = record t {
    apps = update (status_changes id new) (set_status new now) t.apps;
  }

  unfoldable pub with_key : Text → Text → ℕ → Tables → Tables
  with_key id new now t = record t { apps = update (key_changes id new) (set_key new now) t.apps }

  -- The three DELETE statements.
  unfoldable pub without_configs : Text → Tables → Tables
  without_configs id t = record t { configs = keep (λ app. not (same app id)) t.configs }

  unfoldable pub without_profiles : Text → Tables → Tables
  without_profiles id t = record t { profiles = keep (λ app. not (same app id)) t.profiles }

  unfoldable pub without_apps : Text → Tables → Tables
  without_apps id t = record t { apps = keep (λ r. not (is_app id r)) t.apps }

-- ===== src/Store/LocalConfig.antt =====
-- internal/store/local_config.go over the table local_asr_config. The database is an argument: what
-- each statement does to its state. A column that is NULL is `none`.
use octo_speech.Prelude.{
  ℕ, zero, suc, ◌≡◌, ◌⊎◌, Bool, true, false, List, [], ◌∷◌, ◌++◌, Text, codes, text_eq, String,
  Option, some, none, is_empty, if◌then◌else◌, ◌||◌,
}
use octo_speech.Prelude.Int.{ℤ, pos, negsuc}
use octo_speech.Config.{Config}
use octo_speech.Migration.{Value, text_value, int_value, null, Insert}
use octo_speech.Store.Vocabulary.{Key}

pub record LocalAsrConfig : Type 0 where
  pub enabled : Bool
  pub timeout_ms : ℤ
  pub probe_url : Text
  pub transcribe_url : Text

-- The columns of a row beside its key.
pub record Columns : Type 0 where
  pub enabled : Option ℤ
  pub timeout_ms : Option ℤ
  pub probe_url : Option Text
  pub transcribe_url : Option Text

pub data Row : Type 0 where
  row : Columns → Row
  no_row failed : Row

-- The settings of `Upsert`; a nil pointer leaves its column out.
pub record Given : Type 0 where
  pub enabled : Bool
  pub timeout_ms : Option ℤ
  pub probe_url : Option Text
  pub transcribe_url : Option Text

-- A row that is NULL in each column.
abbrev pub no_columns : Columns
no_columns = record { enabled = none; timeout_ms = none; probe_url = none; transcribe_url = none }

-- MySQL stores a Boolean as a TINYINT.
abbrev pub tinyint : Bool → ℤ
tinyint true = pos 1
tinyint false = pos 0

-- What an update of INSERT … ON DUPLICATE KEY UPDATE sets a column to: VALUES(column) or NULL.
pub data Source : Type 0 where
  values_of : Text → Source
  null_source : Source

-- Such a statement over the table: the arguments for the unique key, the other columns that it
-- names with their arguments, and its updates.
pub record Upsert : Type 0 where
  pub key : Key
  pub columns : Insert
  pub updates : List (Text × Source)

-- `if p != nil { cols = append(cols, name); args = append(args, *p) }`
abbrev pub given_column {ℓ} : {A : Type ℓ} → String → (A → Value) → Option A → Insert
given_column name v none = []
given_column name v (some a) = (codes name, v a) ∷ []

-- `if p != nil { updates = append(updates, "name=VALUES(name)") }`
abbrev pub given_update {ℓ} : {A : Type ℓ} → String → Option A → List (Text × Source)
given_update name none = []
given_update name (some a) = (codes name, values_of (codes name)) ∷ []

-- What `LocalConfigStore.Upsert` assembles.
abbrev pub upsert_of : Key → Given → Upsert
upsert_of k g = record {
  key = k;
  columns =
      ((codes "enabled", int_value (tinyint g.enabled)) ∷ [])
      ++ (given_column "timeout_ms" int_value g.timeout_ms
          ++ (given_column "probe_url" text_value g.probe_url
              ++ given_column "transcribe_url" text_value g.transcribe_url));
  updates =
      ((codes "enabled", values_of (codes "enabled")) ∷ [])
      ++ (given_update "timeout_ms" g.timeout_ms
          ++ (given_update "probe_url" g.probe_url
              ++ given_update "transcribe_url" g.transcribe_url));
}

-- The statement of `ResetToDefault`.
abbrev pub reset_of : Key → Bool → Upsert
reset_of k enabled = record {
  key = k;
  columns = (codes "enabled", int_value (tinyint enabled)) ∷ [];
  updates =
      (codes "enabled", values_of (codes "enabled"))
      ∷ (codes "timeout_ms", null_source)
      ∷ (codes "probe_url", null_source)
      ∷ (codes "transcribe_url", null_source)
      ∷ [];
}

-- The statements of the store; `none` is an error of the database. `remove` gives the rows that it
-- counts.
pub record Table (S : Type 0) : Type 0 where
  pub select : S → Key → Row
  pub upsert : S → Upsert → Option S
  pub remove : S → Key → Option (S × ℕ)

-- How MySQL carries such a statement out. The argument for a column, or its default:
abbrev pub argument : Value → Text → Insert → Value
argument default name [] = default
argument default name ((n, v) ∷ columns) =
    if text_eq n name then v else argument default name columns

abbrev pub int_of : Value → Option ℤ
int_of (int_value z) = some z
int_of (text_value t) = none
int_of null = none

abbrev pub text_of : Value → Option Text
text_of (text_value t) = some t
text_of (int_value z) = none
text_of null = none

abbrev pub source : Insert → Source → Value
source columns (values_of name) = argument null name columns
source columns null_source = null

-- A column of a row that is there behind the updates.
abbrev pub updated {ℓ} :
    {A : Type ℓ} → (Value → Option A) → Insert → List (Text × Source) → Text → Option A → Option A
updated read columns [] name old = old
updated read columns ((n, from) ∷ us) name old =
    updated read columns us name (if text_eq n name then read (source columns from) else old)

-- The row behind the statement, by the row that was there.
unfoldable pub outcome : Upsert → Option Columns → Columns
outcome u none = record {
  enabled = int_of (argument (int_value (pos 0)) (codes "enabled") u.columns);
  timeout_ms = int_of (argument null (codes "timeout_ms") u.columns);
  probe_url = text_of (argument null (codes "probe_url") u.columns);
  transcribe_url = text_of (argument null (codes "transcribe_url") u.columns);
}
outcome u (some c) = record {
  enabled = updated int_of u.columns u.updates (codes "enabled") c.enabled;
  timeout_ms = updated int_of u.columns u.updates (codes "timeout_ms") c.timeout_ms;
  probe_url = updated text_of u.columns u.updates (codes "probe_url") c.probe_url;
  transcribe_url = updated text_of u.columns u.updates (codes "transcribe_url") c.transcribe_url;
}

abbrev pub row_or_none : Option Columns → Row
row_or_none none = no_row
row_or_none (some c) = row c

-- What the store relies on: behind a statement that succeeds the row of its key is what MySQL
-- makes of the row that was there, which a query before it has read, or failed to read.
pub record IsTable {S : Type 0} (t : Table S) : Type 0 where
  pub select_upsert :
      (s s' : S) (u : Upsert)
      → t.upsert s u ≡ some s'
      → (old : Option Columns) × ((t.select s u.key ≡ row_or_none old)
          ⊎ (t.select s u.key ≡ failed))
        × (t.select s' u.key ≡ row (outcome u old))

-- A statement that succeeds leaves the rows of the other applications as they are; `same_app` is how
-- the collation compares the column app_id.
pub record HasOwnRows {S : Type 0} (t : Table S) (same_app : Text → Text → Bool) : Type 0 where
  pub select_upsert_other :
      (s s' : S) (u : Upsert) (j : Key)
      → t.upsert s u ≡ some s'
      → same_app u.key.app_id j.app_id ≡ false
      → t.select s' j ≡ t.select s j
  pub select_remove_other :
      (s s' : S) (k j : Key) {rows : ℕ}
      → t.remove s k ≡ some (s', rows)
      → same_app k.app_id j.app_id ≡ false
      → t.select s' j ≡ t.select s j

-- `GetDefaultTimeoutMs` and the like, and the result that `Query` starts from.
unfoldable pub default_config : Config → LocalAsrConfig
default_config cfg = record {
  enabled = cfg.local_enabled;
  timeout_ms = cfg.local_timeout_ms;
  probe_url = cfg.local_probe_url;
  transcribe_url = cfg.local_transcribe_url;
}

-- `x.Int64 == 1`
abbrev pub is_one : ℤ → Bool
is_one (pos zero) = false
is_one (pos (suc zero)) = true
is_one (pos (suc (suc n))) = false
is_one (negsuc n) = false

abbrev pub or_default {ℓ} : {A : Type ℓ} → A → Option A → A
or_default default none = default
or_default default (some a) = a

abbrev pub enabled_of : Bool → Option ℤ → Bool
enabled_of default none = default
enabled_of default (some n) = is_one n

-- The columns over the defaults.
unfoldable pub effective : LocalAsrConfig → Columns → LocalAsrConfig
effective d c = record {
  enabled = enabled_of d.enabled c.enabled;
  timeout_ms = or_default d.timeout_ms c.timeout_ms;
  probe_url = or_default d.probe_url c.probe_url;
  transcribe_url = or_default d.transcribe_url c.transcribe_url;
}

-- What `Query` makes of the row; `none` is its error.
unfoldable pub read_row : Config → Row → Option LocalAsrConfig
read_row cfg (row c) = some (effective (default_config cfg) c)
read_row cfg no_row = some (default_config cfg)
read_row cfg failed = none

-- `Query`
unfoldable pub query : {S : Type 0} → Table S → Config → S → Key → Option LocalAsrConfig
query t cfg s k =
    if is_empty k.app_id || is_empty k.subject_id || is_empty k.scope_type || is_empty k.scope_id
    then some (default_config cfg)
    else read_row cfg (t.select s k)

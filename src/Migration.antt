-- ===== src/Migration.antt =====
-- internal/migration: the SQL files, which `Run` has carried out in the order of their names, and the
-- INSERT statements of internal/store over the tables that they leave. Keys, comments and character
-- sets of a table are left out; the rows of the tables are the matter of Store.Rows.
pub mod Inserts
pub mod Fits
pub mod Saved
mod Tests
use octo_speech.Prelude.{
  ℕ, Bool, true, false, List, [], ◌∷◌, Text, codes, text_eq, length, leb, ◌&&◌, ◌||◌, not,
  if◌then◌else◌, Option, some, none, String,
}
use octo_speech.Prelude.Int.{ℤ, pos, negsuc, le_ℤ}
use octo_speech.Admin.KeyGen.{byte_length}

-- The types of columns that the files use.
pub data ColumnType : Type 0 where
  varchar : ℕ → ColumnType
  text tinyint int bigint timestamp json : ColumnType

pub record Column : Type 0 where
  pub name : Text
  pub type_of : ColumnType
  pub nullable : Bool
  -- DEFAULT, or AUTO_INCREMENT: a row may leave the column out.
  pub has_default : Bool

abbrev pub required : String → ColumnType → Column
required name t = record { name = codes name; type_of = t; nullable = false; has_default = false }

abbrev pub defaulted : String → ColumnType → Column
defaulted name t = record { name = codes name; type_of = t; nullable = false; has_default = true }

abbrev pub optional : String → ColumnType → Column
optional name t = record { name = codes name; type_of = t; nullable = true; has_default = true }

pub data Change : Type 0 where
  create_table : Text → List Column → Change
  modify_column : Text → Column → Change
  set_default : Text → Text → Change

abbrev pub Schema : Type 0
Schema = List (Text × List Column)

abbrev pub put_column : Column → List Column → List Column
put_column new [] = []
put_column new (c ∷ cs) = if text_eq c.name new.name then new ∷ cs else c ∷ put_column new cs

abbrev pub give_default : Text → List Column → List Column
give_default column [] = []
give_default column (c ∷ cs) =
    if text_eq c.name column
    then record c { has_default = true } ∷ cs
    else c ∷ give_default column cs

abbrev pub on_table : Text → (List Column → List Column) → Schema → Schema
on_table table f [] = []
on_table table f ((name, cs) ∷ s) =
    if text_eq name table then (name, f cs) ∷ s else (name, cs) ∷ on_table table f s

unfoldable pub apply : Change → Schema → Schema
apply (create_table table cs) s = (table, cs) ∷ s
apply (modify_column table c) s = on_table table (put_column c) s
apply (set_default table column) s = on_table table (give_default column) s

unfoldable pub migrate : List Change → Schema → Schema
unfolding apply
migrate [] s = s
migrate (c ∷ cs) s = migrate cs (apply c s)

abbrev pub app_columns : List Column
app_columns =
    defaulted "id" bigint
    ∷ required "app_id" (varchar 100)
    ∷ required "app_name" (varchar 200)
    ∷ required "api_key" (varchar 255)
    ∷ defaulted "status" tinyint
    ∷ defaulted "created_at" timestamp
    ∷ defaulted "updated_at" timestamp
    ∷ []

abbrev pub app_registry : Change
app_registry = create_table (codes "app_registry") app_columns

abbrev pub profile_columns : List Column
profile_columns =
    defaulted "id" bigint
    ∷ required "app_id" (varchar 100)
    ∷ required "subject_id" (varchar 100)
    ∷ required "scope_type" (varchar 50)
    ∷ required "scope_id" (varchar 100)
    ∷ required "content" text
    ∷ required "updated_by" (varchar 100)
    ∷ defaulted "created_at" timestamp
    ∷ defaulted "updated_at" timestamp
    ∷ []

abbrev pub vocabulary_profile : Change
vocabulary_profile = create_table (codes "vocabulary_profile") profile_columns

abbrev pub config_columns : List Column
config_columns =
    defaulted "id" bigint
    ∷ required "app_id" (varchar 100)
    ∷ required "subject_id" (varchar 100)
    ∷ required "scope_type" (varchar 50)
    ∷ required "scope_id" (varchar 100)
    ∷ defaulted "enabled" tinyint
    ∷ optional "timeout_ms" int
    ∷ optional "probe_url" (varchar 500)
    ∷ optional "transcribe_url" (varchar 500)
    ∷ defaulted "created_at" timestamp
    ∷ defaulted "updated_at" timestamp
    ∷ []

abbrev pub local_asr_config : Change
local_asr_config = create_table (codes "local_asr_config") config_columns

abbrev pub app_registry_sha256 : Change
app_registry_sha256 = modify_column (codes "app_registry") (required "api_key" (varchar 255))

abbrev pub audit_columns : List Column
audit_columns =
    defaulted "id" bigint
    ∷ required "action" (varchar 50)
    ∷ required "app_id" (varchar 100)
    ∷ defaulted "app_name" (varchar 200)
    ∷ required "operator" (varchar 100)
    ∷ optional "detail" json
    ∷ defaulted "created_at" timestamp
    ∷ []

abbrev pub audit_log : Change
audit_log = create_table (codes "audit_log") audit_columns

abbrev pub local_asr_config_default_disabled : Change
local_asr_config_default_disabled = set_default (codes "local_asr_config") (codes "enabled")

-- The embedded files in the order of their names.
abbrev pub migrations : List Change
migrations =
    app_registry ∷ vocabulary_profile ∷ local_asr_config ∷ app_registry_sha256 ∷ audit_log
    ∷ local_asr_config_default_disabled ∷ []

abbrev pub migrated : Schema
migrated = migrate migrations []

-- What an INSERT gives for a column.
pub data Value : Type 0 where
  text_value : Text → Value
  int_value : ℤ → Value
  null : Value

-- MySQL counts a VARCHAR in characters and a TEXT in bytes.
unfoldable pub fits_type : ColumnType → Value → Bool
fits_type (varchar n) (text_value t) = leb (length t) n
fits_type text (text_value t) = leb (byte_length t) 0xffff
fits_type tinyint (int_value z) = le_ℤ (negsuc 127) z && le_ℤ z (pos 127)
fits_type int (int_value z) = le_ℤ (negsuc 0x7fff_ffff) z && le_ℤ z (pos 0x7fff_ffff)
fits_type json (text_value t) = true
fits_type _ _ = false

unfoldable pub takes : Column → Value → Bool
unfolding fits_type
takes c null = c.nullable
takes c (text_value t) = fits_type c.type_of (text_value t)
takes c (int_value z) = fits_type c.type_of (int_value z)

-- A value for a column of the table that takes it.
unfoldable pub fits_in : List Column → Text → Value → Bool
unfolding takes
fits_in [] name v = false
fits_in (c ∷ cs) name v = if text_eq c.name name then takes c v else fits_in cs name v

abbrev pub Insert : Type 0
Insert = List (Text × Value)

unfoldable pub all_fit : List Column → Insert → Bool
all_fit cs [] = true
all_fit cs ((name, v) ∷ row) = fits_in cs name v && all_fit cs row

unfoldable pub names_column : Insert → Text → Bool
names_column [] name = false
names_column ((n, v) ∷ row) name = text_eq n name || names_column row name

-- Each column without a default is given.
unfoldable pub is_complete : List Column → Insert → Bool
is_complete [] row = true
is_complete (c ∷ cs) row = (c.has_default || names_column row c.name) && is_complete cs row

-- MySQL in its strict mode carries the INSERT out, as far as types go.
unfoldable pub accepts : Schema → Text → Insert → Bool
accepts [] table row = false
accepts ((name, cs) ∷ s) table row =
    if text_eq name table then all_fit cs row && is_complete cs row else accepts s table row

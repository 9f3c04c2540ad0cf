-- ===== src/Migration/Fits.antt =====
-- Which values of the INSERT statements have the types of their columns.
use octo_speech.Prelude.{
  ◌*◌, ◌≤◌, ◌≡◌, ◌↔◌, refl, ap, Bool, true, false, ◌&&◌, List, [], ◌∷◌, ◌++◌, Text, codes, text_eq,
  text_eq→eq, length, leb, keep, join, Option, some, none, arith, String,
}
use octo_speech.Prelude.Http.{pass}
use octo_speech.Prelude.Int.{ℤ, pos, negsuc}
use octo_speech.Admin.KeyGen.{byte_length, rune_len}
use octo_speech.Admin.KeyGen.Alphabet.{byte_length-ge}
use octo_speech.Store.Vocabulary.{Key, is_valid_scope_type}
use octo_speech.Store.LocalConfig.{Given, given_column, tinyint}
use octo_speech.Api.LocalConfig.{UrlError, check_url, validate_local_url, timeout_ok}
use octo_speech.Migration.{
  Column, Insert, text_value, int_value, config_columns, profile_columns, migrated, migrate, apply,
  all_fit, fits_in, takes, fits_type, names_column, is_complete, accepts,
}
use octo_speech.Migration.Inserts.{key_columns, upsert_row, upsert_statement, profile_row, app_row}
use octo_speech.Store.Listing.Statement.{places}

byte_length-le : (s : Text) → byte_length s ≤ 4 * length s
unfolding byte_length rune_len
byte_length-le [] = omega arith
byte_length-le (c ∷ s) = ground (arith, byte_length-le s)

length-text_eq : (s t : Text) → text_eq s t ≡ true → length s ≡ length t
length-text_eq s t h = ap length (text_eq→eq s t h)

is_valid_scope_type-short : (s : Text) → is_valid_scope_type s ≡ true → length s ≤ 50
unfolding is_valid_scope_type
is_valid_scope_type-short s h = ground (
  arith,
  length-text_eq s (codes "global"),
  length-text_eq s (codes "space"),
  length-text_eq s (codes "org"),
  length-text_eq s (codes "project"),
)

all_fit-append :
    (cs : List Column) (a b : Insert) → all_fit cs (a ++ b) ≡ (all_fit cs a && all_fit cs b)
unfolding all_fit
all_fit-append cs [] b = refl
all_fit-append cs ((name, v) ∷ a) b = ground (arith, all_fit-append cs a b)

-- Two parts of a row that both fit.
pub all_fit_joined :
    (cs : List Column) (a b : Insert)
    → all_fit cs a ≡ true
    → all_fit cs b ≡ true
    → all_fit cs (a ++ b) ≡ true
all_fit_joined cs a b h h' = rw (all_fit-append cs a b, h, h') refl

-- The answer of a table to a row of two parts.
pub accepts_parts :
    (cs : List Column) (a b : Insert) {accepted complete fit : Bool}
    → accepted ≡ (all_fit cs (a ++ b) && complete)
    → complete ≡ true
    → all_fit cs b ≡ fit
    → accepted ≡ (all_fit cs a && fit)
accepts_parts cs a b h all more = ground (arith, all_fit-append cs a b)

pub accepts-config :
    (row : Insert)
    → accepts migrated (codes "local_asr_config") row
      ≡ (all_fit config_columns row && is_complete config_columns row)
unfolding accepts migrate apply text_eq
accepts-config row = refl

pub accepts-profile :
    (row : Insert)
    → accepts migrated (codes "vocabulary_profile") row
      ≡ (all_fit profile_columns row && is_complete profile_columns row)
unfolding accepts migrate apply text_eq
accepts-profile row = refl

pub accepts-app :
    (id name key_hash : Text)
    → accepts migrated (codes "app_registry") (app_row id name key_hash) ≡ (
        leb (length id) 100
        && (leb (length name) 200 && (leb (length key_hash) 255 && true))
        && true)
unfolding accepts migrate apply all_fit fits_in takes fits_type is_complete names_column text_eq
accepts-app id name key_hash = refl

pub upsert_row-is_complete :
    (k : Key) (g : Given) → is_complete config_columns (upsert_row k g) ≡ true
unfolding is_complete names_column text_eq
upsert_row-is_complete k g = refl

pub profile_row-is_complete :
    (k : Key) (content updated_by : Text)
    → is_complete profile_columns (profile_row k content updated_by) ≡ true
unfolding is_complete names_column text_eq
profile_row-is_complete k content updated_by = refl

-- The identifiers of a key that the columns have room for.
abbrev pub HasRoom : Key → Type 0
HasRoom k = (length k.app_id ≤ 100) × (length k.subject_id ≤ 100) × (length k.scope_id ≤ 100)

-- The two tables have the same columns for the key.
module _ (cs : List Column)
    (fit : (k : Key)
      → all_fit cs (key_columns k) ≡ (
          leb (length k.app_id) 100
          && (leb (length k.subject_id) 100
              && (leb (length k.scope_type) 50 && (leb (length k.scope_id) 100 && true))))) where
  pub all_fit-key_columns :
      (k : Key)
      → is_valid_scope_type k.scope_type ≡ true
      → (all_fit cs (key_columns k) ≡ true) ↔ HasRoom k
  all_fit-key_columns k valid =
      let short = is_valid_scope_type-short k.scope_type valid in
      rw (fit k) ((λ h. (ground arith, ground arith, ground arith)), (λ room. ground arith))

pub config_key :
    (k : Key)
    → all_fit config_columns (key_columns k) ≡ (
        leb (length k.app_id) 100
        && (leb (length k.subject_id) 100
            && (leb (length k.scope_type) 50 && (leb (length k.scope_id) 100 && true))))
unfolding all_fit fits_in takes fits_type text_eq
config_key k = refl

pub profile_key :
    (k : Key)
    → all_fit profile_columns (key_columns k) ≡ (
        leb (length k.app_id) 100
        && (leb (length k.subject_id) 100
            && (leb (length k.scope_type) 50 && (leb (length k.scope_id) 100 && true))))
unfolding all_fit fits_in takes fits_type text_eq
profile_key k = refl

pub enabled_fits :
    (b : Bool) → all_fit config_columns ((codes "enabled", int_value (tinyint b)) ∷ []) ≡ true
unfolding all_fit fits_in takes fits_type text_eq
enabled_fits true = refl
enabled_fits false = refl

pub timeout_fits :
    (ms : Option ℤ)
    → timeout_ok ms ≡ true
    → all_fit config_columns (given_column "timeout_ms" int_value ms) ≡ true
unfolding all_fit fits_in takes fits_type text_eq
timeout_fits none h = refl
timeout_fits (some (pos n)) h = ground arith
timeout_fits (some (negsuc n)) h = ground arith

check_url-short :
    (parse : Text → Option (Text × Text)) (msg : UrlError → String) (url : Text) {u : Unit {0}}
    → check_url parse msg (some url) ≡ pass u
    → length url ≤ 500
unfolding check_url validate_local_url
check_url-short parse msg url h = ground (arith, byte_length-ge url)

module _ (parse : Text → Option (Text × Text)) (msg : UrlError → String) where
  pub probe_fits :
      (url : Option Text) {u : Unit {0}}
      → check_url parse msg url ≡ pass u
      → all_fit config_columns (given_column "probe_url" text_value url) ≡ true
  unfolding all_fit fits_in takes fits_type text_eq
  probe_fits none h = refl
  probe_fits (some url) h = ground (arith, check_url-short parse msg url h)

  pub transcribe_fits :
      (url : Option Text) {u : Unit {0}}
      → check_url parse msg url ≡ pass u
      → all_fit config_columns (given_column "transcribe_url" text_value url) ≡ true
  unfolding all_fit fits_in takes fits_type text_eq
  transcribe_fits none h = refl
  transcribe_fits (some url) h = ground (arith, check_url-short parse msg url h)

pub content_fits :
    (content updated_by : Text)
    → length content ≤ 10_000
    → all_fit profile_columns
        ((codes "content", text_value content) ∷ (codes "updated_by", text_value updated_by) ∷ [])
      ≡ leb (length updated_by) 100
unfolding all_fit fits_in takes fits_type text_eq
content_fits content updated_by h = ground (arith, byte_length-le content)

place_count :
    (k : Key) (on : Bool) (ms : Option ℤ) (probe url : Option Text)
    → let g : Given = record {
      enabled = on;
      timeout_ms = ms;
      probe_url = probe;
      transcribe_url = url;
    } in
      places (upsert_statement k g) ≡ length (upsert_row k g)
unfolding upsert_statement keep join
place_count k on none none none = refl
place_count k on none none (some u) = refl
place_count k on none (some p) none = refl
place_count k on none (some p) (some u) = refl
place_count k on (some n) none none = refl
place_count k on (some n) none (some u) = refl
place_count k on (some n) (some p) none = refl
place_count k on (some n) (some p) (some u) = refl

-- The statement of Upsert has a place for each argument.
pub places-upsert_statement :
    (k : Key) (g : Given) → places (upsert_statement k g) ≡ length (upsert_row k g)
places-upsert_statement k g = place_count k g.enabled g.timeout_ms g.probe_url g.transcribe_url

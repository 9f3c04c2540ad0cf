-- ===== src/Store/Vocabulary.antt =====
-- internal/store/vocabulary.go over the table vocabulary_profile. The database is an argument: what
-- each statement does to its state, and how its collation compares the columns of the unique key.
use octo_speech.Prelude.{ℕ, ◌≡◌, Bool, true, false, Text, codes, text_eq, ◌||◌, Option, some}

-- The columns of the unique key.
pub record Key : Type 0 where
  pub app_id : Text
  pub subject_id : Text
  pub scope_type : Text
  pub scope_id : Text

-- The other columns that the handlers read; times are readings of the database's clock.
pub record Profile : Type 0 where
  pub content : Text
  pub updated_by : Text
  pub updated_at : ℕ

-- What scanning the row of a query gives.
pub data Select : Type 0 where
  profile : Profile → Select
  no_profile failed : Select

-- The statements of the store; `none` is an error of the database.
pub record Table (S : Type 0) : Type 0 where
  pub select : S → Key → Select
  pub upsert : S → Key → Text → Text → Option S
  pub remove : S → Key → Option S
  pub same_app : Text → Text → Bool
  pub same : Key → Key → Bool

-- What the store relies on: a statement that succeeds changes the row of its key and no other, and
-- rows of different applications have different keys.
pub record IsTable {S : Type 0} (t : Table S) : Type 0 where
  pub same_refl : (k : Key) → t.same k k ≡ true
  pub same_apps : (j k : Key) → t.same j k ≡ true → t.same_app j.app_id k.app_id ≡ true
  pub select_upsert :
      (s s' : S) (k j : Key) (content updated_by : Text)
      → t.upsert s k content updated_by ≡ some s'
      → t.same k j ≡ true
      → (p : Profile) × (t.select s' j ≡ profile p) × (p.content ≡ content)
  pub select_upsert_other :
      (s s' : S) (k j : Key) (content updated_by : Text)
      → t.upsert s k content updated_by ≡ some s'
      → t.same k j ≡ false
      → t.select s' j ≡ t.select s j
  pub select_remove_other :
      (s s' : S) (k j : Key)
      → t.remove s k ≡ some s'
      → t.same k j ≡ false
      → t.select s' j ≡ t.select s j

unfoldable pub is_valid_scope_type : Text → Bool
is_valid_scope_type s =
    text_eq s (codes "global")
    || text_eq s (codes "space")
    || text_eq s (codes "org")
    || text_eq s (codes "project")

abbrev pub default_key : Text → Text → Key
default_key app_id subject_id = record {
  app_id = app_id;
  subject_id = subject_id;
  scope_type = codes "global";
  scope_id = codes "default";
}

-- `if err == nil { return } ; if err != sql.ErrNoRows { return }`, and the next query.
unfoldable pub or_next : Select → Select → Select
or_next (profile p) next = profile p
or_next failed next = failed
or_next no_profile next = next

unfoldable pub query_with_priority : {S : Type 0} → Table S → S → Key → Select
query_with_priority t s k = or_next (t.select s k) (
    or_next (t.select s (default_key k.app_id k.subject_id))
      (t.select s (default_key (codes "*") k.subject_id)))

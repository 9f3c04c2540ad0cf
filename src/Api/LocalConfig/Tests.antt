-- ===== src/Api/LocalConfig/Tests.antt =====
-- A table in memory for local configurations.
use octo_speech.Prelude.{
  ◌≡◌, ◌⊎◌, inl, inr, ℕ, refl, sym, ap, ◌∙◌, Bool, true, Text, codes, Option, some, none, text_eq,
  text_eq_refl, if◌then◌else◌, ◌&&◌, arith,
}
use octo_speech.Prelude.Http.{pass}
use octo_speech.Prelude.Int.{pos}
use octo_speech.Admin.KeyGen.{byte_length, rune_len}
use octo_speech.Store.Vocabulary.{Key, is_valid_scope_type}
use octo_speech.Store.LocalConfig.{
  LocalAsrConfig, Columns, Row, row, no_row, Table, IsTable, HasOwnRows, outcome, row_or_none,
  failed, default_config,
}
use octo_speech.Api.LocalConfig.{
  Body, put, get, reset, check_body, check_scope, check_put, check_url, validate_local_url, save,
  reset_to,
}
use octo_speech.Api.LocalConfig.Defaults.{get-put_given}
use octo_speech.Samples.{settings}

abbrev same_key : Key → Key → Bool
same_key j k =
    text_eq j.app_id k.app_id
    && (text_eq j.subject_id k.subject_id
        && (text_eq j.scope_type k.scope_type && text_eq j.scope_id k.scope_id))

same_key_refl : (k : Key) → same_key k k ≡ true
same_key_refl k =
    rw
      (
        text_eq_refl k.app_id,
        text_eq_refl k.subject_id,
        text_eq_refl k.scope_type,
        text_eq_refl k.scope_id,
      )
      refl

abbrev set : (Key → Row) → Key → Columns → Key → Row
set s k c j = if same_key k j then row c else s j

-- The row at a key; in memory no query fails.
abbrev held : Row → Option Columns
held (row c) = some c
held no_row = none
held failed = none

held_row : (r : Row) → (r ≡ row_or_none (held r)) ⊎ (r ≡ failed)
held_row (row c) = inl refl
held_row no_row = inl refl
held_row failed = inr refl

abbrev pub memory : Table (Key → Row)
memory = record {
  select = λ s k. s k;
  upsert = λ s u. some (set s u.key (outcome u (held (s u.key))));
  remove = λ s k. some ((λ j. if same_key k j then no_row else s j), 1);
}

abbrev at_key : Key → Option (Key → Row) → Row
at_key k none = no_row
at_key k (some s) = s k

pub memory-IsTable : IsTable memory
memory-IsTable = record {
  select_upsert = λ s s' u h. (
    held (s u.key),
    held_row (s u.key),
    sym (ap (at_key u.key) h) ∙ rw (same_key_refl u.key) refl,
  );
}

abbrev after_remove : Key → Option ((Key → Row) × ℕ) → Row
after_remove k none = no_row
after_remove k (some (s, rows)) = s k

pub memory-HasOwnRows : HasOwnRows memory text_eq
memory-HasOwnRows = record {
  select_upsert_other = λ s s' u j h apart. sym (ap (at_key j) h) ∙ rw apart refl;
  select_remove_other = λ s s' k j h apart. sym (ap (after_remove j) h) ∙ rw apart refl;
}

abbrev pub empty : Key → Row
empty k = no_row

abbrev pub body : Body
body = record {
  subject_id = codes "u1";
  scope_type = codes "space";
  scope_id = codes "s1";
  enabled = some true;
  timeout_ms = some (pos 500);
  probe_url = none;
  transcribe_url = some (codes "http://h/");
}

abbrev pub parse : Text → Option (Text × Text)
parse url = some (codes "http", codes "h")

saved : (put memory settings parse empty (codes "app_1") (some body)).1 ≡ pass tt
unfolding put save check_put check_body check_scope check_url validate_local_url is_valid_scope_type
    text_eq byte_length rune_len
saved = refl

reset_done :
    (reset memory settings empty (codes "app_1") (some body)).1
    ≡ pass (record (default_config settings) { enabled = true })
unfolding reset reset_to check_body check_scope is_valid_scope_type text_eq default_config
reset_done = refl

get-put_given_example :
    (c : LocalAsrConfig) × (get memory settings
        (put memory settings parse empty (codes "app_1") (some body)).0
        (codes "app_1")
        (codes "u1")
        (codes "space")
        (codes "s1")
      ≡ pass c)
    × (some true ≡ some c.enabled)
    × (pos 500 ≡ c.timeout_ms)
    × (c.probe_url ≡ c.probe_url)
    × (codes "http://h/" ≡ c.transcribe_url)
get-put_given_example =
    get-put_given memory settings memory-IsTable parse empty (codes "app_1") body (ground arith)
      saved

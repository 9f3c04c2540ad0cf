-- ===== src/Api/Vocabulary/Tests.antt =====
-- A table in memory, with one saved vocabulary.
use octo_speech.Prelude.{
  ℕ, ◌≡◌, refl, sym, ap, ◌∙◌, Bool, true, [], Text, codes, Option, some, none, text_eq,
  text_eq_refl, if◌then◌else◌, ◌&&◌, arith,
}
use octo_speech.Prelude.Http.{pass}
use octo_speech.Store.Vocabulary.{
  Key, Select, profile, no_profile, Table, IsTable, is_valid_scope_type,
}
use octo_speech.Api.Vocabulary.{PutRequest, Query, Vocabulary, put, get, check_put}
use octo_speech.Api.Vocabulary.Tenants.{get-put}

abbrev same_key : Key → Key → Bool
same_key j k =
    text_eq j.app_id k.app_id
    && (text_eq j.subject_id k.subject_id
        && (text_eq j.scope_type k.scope_type && text_eq j.scope_id k.scope_id))

abbrev pub memory : Table (Key → Select)
memory = record {
  select = λ s k. s k;
  upsert = λ s k content updated_by. some (λ j.
      if same_key k j
      then profile (record { content = content; updated_by = updated_by; updated_at = 0 })
      else s j);
  remove = λ s k. some (λ j. if same_key k j then no_profile else s j);
  same_app = text_eq;
  same = same_key;
}

abbrev at_key : Key → Option (Key → Select) → Select
at_key k none = no_profile
at_key k (some s) = s k

pub memory-IsTable : IsTable memory
memory-IsTable = record {
  same_refl = λ k.
      rw
        (
          text_eq_refl k.app_id,
          text_eq_refl k.subject_id,
          text_eq_refl k.scope_type,
          text_eq_refl k.scope_id,
        )
        refl;
  same_apps = λ j k h. ground arith;
  select_upsert = λ s s' k j content updated_by h same. (
    record { content = content; updated_by = updated_by; updated_at = 0 },
    sym (ap (at_key j) h) ∙ rw same refl,
    refl,
  );
  select_upsert_other =
      λ s s' k j content updated_by h other. sym (ap (at_key j) h) ∙ rw other refl;
  select_remove_other = λ s s' k j h other. sym (ap (at_key j) h) ∙ rw other refl;
}

abbrev pub empty : Key → Select
empty k = no_profile

abbrev pub words : PutRequest
words = record {
  subject_id = codes "u1";
  scope_type = codes "global";
  scope_id = codes "default";
  content = codes "octo";
  updated_by = codes "u1";
}

abbrev pub mine : Query
mine = record { subject_id = codes "u1"; scope_type = []; scope_id = [] }

abbrev pub no_time : ℕ → Text
no_time t = []

saved : (put memory empty (codes "app_1") (some words)).1.status ≡ 200
unfolding put check_put is_valid_scope_type text_eq
saved = refl

get-put_example :
    (v : Vocabulary) × (get memory no_time
        (put memory empty (codes "app_1") (some words)).0
        (codes "app_1")
        (record {
          subject_id = codes "u1";
          scope_type = codes "global";
          scope_id = codes "default";
        })
      ≡ pass v)
    × (v.has_content ≡ true)
    × (v.content ≡ codes "octo")
get-put_example = get-put memory memory-IsTable no_time empty (codes "app_1") words saved

-- ===== src/Migration/Tests.antt =====
-- Bodies at the edge of what the columns hold.
use octo_speech.Prelude.{
  ℕ, zero, suc, ◌≤◌, ◌≡◌, ◌↔◌, refl, true, false, [], ◌∷◌, Text, codes, length, some, none, text_eq,
}
use octo_speech.Prelude.Http.{pass}
use octo_speech.Prelude.Int.{pos}
use octo_speech.Admin.KeyGen.{byte_length, rune_len}
use octo_speech.Samples.{settings}
use octo_speech.Store.Vocabulary.{Key, is_valid_scope_type}
use octo_speech.Store.LocalConfig.{Given}
use octo_speech.Api.LocalConfig.{check_put, check_body, check_scope, check_url, validate_local_url}
use octo_speech.Api.LocalConfig.Tests.{memory, body, parse}
use octo_speech.Api.Vocabulary
use octo_speech.Api.Vocabulary.{PutRequest, key_of}
use octo_speech.Api.Vocabulary.Tests.{words}
use octo_speech.Migration.{
  migrated, migrate, apply, accepts, all_fit, fits_in, takes, fits_type, is_complete, names_column,
}
use octo_speech.Migration.Inserts.{upsert_row, upsert_statement, profile_row}
use octo_speech.Store.Listing.Statement.{places}
use octo_speech.Migration.Fits.{HasRoom}
use octo_speech.Migration.Saved.{accepts-upsert_row_iff, accepts-profile_row_iff}

abbrev key : Key
key = record {
  app_id = codes "app_1";
  subject_id = codes "u1";
  scope_type = codes "space";
  scope_id = codes "s1";
}

abbrev given : Given
given = record {
  enabled = true;
  timeout_ms = some (pos 500);
  probe_url = none;
  transcribe_url = some (codes "http://h/");
}

checked : check_put memory settings parse (codes "app_1") (some body) ≡ pass (key, given)
unfolding check_put check_body check_scope check_url validate_local_url is_valid_scope_type text_eq
    byte_length rune_len
checked = refl

accepts-upsert_row_iff_example :
    (places (upsert_statement key given) ≡ length (upsert_row key given))
    × ((accepts migrated (codes "local_asr_config") (upsert_row key given) ≡ true) ↔ HasRoom key)
accepts-upsert_row_iff_example =
    accepts-upsert_row_iff memory settings parse (codes "app_1") body checked

checked_words : Vocabulary.check_put (some words) ≡ pass words
unfolding Vocabulary.check_put is_valid_scope_type text_eq
checked_words = refl

accepts-profile_row_iff_example :
    (accepts migrated
        (codes "vocabulary_profile")
        (profile_row (key_of (codes "app_1") words) words.content words.updated_by)
      ≡ true)
    ↔ (HasRoom (key_of (codes "app_1") words) × (length words.updated_by ≤ 100))
accepts-profile_row_iff_example = accepts-profile_row_iff (codes "app_1") (some words) checked_words

abbrev letters : ℕ → Text
letters zero = []
letters (suc n) = b'a' ∷ letters n

-- A subject of 101 characters is refused by the database, not by Put.
abbrev long_key : Key
long_key = record key { subject_id = letters 101 }

refused : accepts migrated (codes "local_asr_config") (upsert_row long_key given) ≡ false
unfolding accepts migrate apply all_fit fits_in takes fits_type is_complete names_column text_eq
refused = refl

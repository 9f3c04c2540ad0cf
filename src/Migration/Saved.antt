-- ===== src/Migration/Saved.antt =====
-- What the two handlers `Put` of internal/api hand to the store, against the columns of the tables.
use octo_speech.Prelude.{
  ℕ, ◌≤◌, ◌≡◌, ◌↔◌, Bool, true, false, ◌&&◌, [], ◌∷◌, ◌++◌, Text, codes, length, leb, Option, some,
  none, arith,
}
use octo_speech.Prelude.Http.{pass, guard, pass_parts}
use octo_speech.Config.{Config}
use octo_speech.Store.Vocabulary.{Key, is_valid_scope_type}
use octo_speech.Store.LocalConfig.{Given, given_column, Table, tinyint}
use octo_speech.Api.LocalConfig.{
  Body, check_put, check_body, check_scope, check_url, timeout_ok, probe_message,
  transcribe_message,
}
use octo_speech.Api.LocalConfig.Defaults.{check_put_inv, check_body_given}
use octo_speech.Api.Vocabulary.{PutRequest, key_of}
use octo_speech.Api.Vocabulary
use octo_speech.Migration.{
  Insert, text_value, int_value, config_columns, profile_columns, migrated, all_fit, accepts,
}
use octo_speech.Migration.Inserts.{key_columns, upsert_row, upsert_statement, profile_row, app_row}
use octo_speech.Store.Listing.Statement.{places}
use octo_speech.Admin.KeyGen.{is_valid_app_id}
use octo_speech.Admin.KeyGen.Alphabet.{byte_length-ge}
use octo_speech.Admin.Apps.{bad_name}
use octo_speech.Migration.Fits.{
  HasRoom, accepts_parts, all_fit_joined, accepts-config, accepts-profile, upsert_row-is_complete,
  profile_row-is_complete, config_key, profile_key, enabled_fits, timeout_fits, content_fits,
  all_fit-key_columns, places-upsert_statement, accepts-app, probe_fits, transcribe_fits,
}

check_scope_valid :
    (app_id subject_id scope_type scope_id : Text) {k : Key}
    → check_scope app_id subject_id scope_type scope_id ≡ pass k
    → is_valid_scope_type k.scope_type ≡ true
unfolding check_scope
check_scope_valid app_id subject_id scope_type scope_id h = ground arith

module _ {S : Type 0} (t : Table S) (cfg : Config) (parse : Text → Option (Text × Text)) where
  check_put_fits :
      (app_id : Text) (b : Body) {k : Key} {g : Given}
      → check_put t cfg parse app_id (some b) ≡ pass (k, g)
      → (all_fit config_columns (given_column "timeout_ms" int_value b.timeout_ms) ≡ true)
        × (all_fit config_columns (given_column "probe_url" text_value b.probe_url) ≡ true)
        × (all_fit config_columns (given_column "transcribe_url" text_value b.transcribe_url)
            ≡ true)
  unfolding check_put
  check_put_fits app_id b h = pass_parts (check_body app_id (some b)) _ h λ x body h1.
      pass_parts (guard (timeout_ok x.2.timeout_ms) _) _ h1 λ _ ok h2.
        pass_parts (check_url parse probe_message x.2.probe_url) _ h2 λ _ probe h3.
          pass_parts (check_url parse transcribe_message x.2.transcribe_url) _ h3 λ _ url h4.
            let same = (check_body_given app_id b body).1 in
            rw (← same) (
              timeout_fits x.2.timeout_ms (ground arith),
              probe_fits parse probe_message x.2.probe_url probe,
              transcribe_fits parse transcribe_message x.2.transcribe_url url,
            )

  upsert_row-fits_type :
      (k : Key) (g : Given)
      → (all_fit config_columns (given_column "timeout_ms" int_value g.timeout_ms) ≡ true)
      → (all_fit config_columns (given_column "probe_url" text_value g.probe_url) ≡ true)
      → (all_fit config_columns (given_column "transcribe_url" text_value g.transcribe_url) ≡ true)
      → accepts migrated (codes "local_asr_config") (upsert_row k g)
        ≡ all_fit config_columns (key_columns k)
  upsert_row-fits_type k g timeout probe url =
      let enabled : Insert = (codes "enabled", int_value (tinyint g.enabled)) ∷ [] in
      let ms = given_column "timeout_ms" int_value g.timeout_ms in
      let probe_url = given_column "probe_url" text_value g.probe_url in
      let transcribe_url = given_column "transcribe_url" text_value g.transcribe_url in
      let urls = all_fit_joined config_columns probe_url transcribe_url probe url in
      let given = all_fit_joined config_columns ms (probe_url ++ transcribe_url) timeout urls in
      let more : Insert = enabled ++ (ms ++ (probe_url ++ transcribe_url)) in
      let rest : all_fit config_columns more ≡ true =
        all_fit_joined config_columns enabled (ms ++ (probe_url ++ transcribe_url))
          (enabled_fits g.enabled) given in
      let all =
        accepts_parts config_columns (key_columns k) more (accepts-config (upsert_row k g))
          (upsert_row-is_complete k g) rest in
      ground arith

  -- The statement that Put of the local configuration runs has a place for each argument, and what
  -- it gives for the columns has their types, with no column missing, exactly if the three
  -- identifiers have at most 100 characters.
  pub accepts-upsert_row_iff :
      (app_id : Text) (b : Body) {k : Key} {g : Given}
      → check_put t cfg parse app_id (some b) ≡ pass (k, g)
      → (places (upsert_statement k g) ≡ length (upsert_row k g))
        × ((accepts migrated (codes "local_asr_config") (upsert_row k g) ≡ true) ↔ HasRoom k)
  accepts-upsert_row_iff app_id b {k} {g} h =
      let (scope, _, timeout, probe, url) = check_put_inv t cfg parse app_id b h in
      let (timeout_fit, probe_fit, url_fit) = check_put_fits app_id b h in
      let valid = check_scope_valid app_id b.subject_id b.scope_type b.scope_id scope in
      let fit =
        upsert_row-fits_type k g (rw timeout timeout_fit) (rw probe probe_fit) (rw url url_fit) in
      (places-upsert_statement k g, rw fit (all_fit-key_columns config_columns config_key k valid))

put_content_bounded :
    (body : Option PutRequest) {req : PutRequest}
    → Vocabulary.check_put body ≡ pass req
    → (is_valid_scope_type req.scope_type ≡ true) × (length req.content ≤ 10_000)
unfolding Vocabulary.check_put
put_content_bounded none h = absurd (ground arith)
put_content_bounded (some b) h = ground arith

with_room :
    {accepted fit : Bool} (k : Key)
    → (fit ≡ true) ↔ HasRoom k
    → (n m : ℕ) → accepted ≡ (fit && leb n m)
    → (accepted ≡ true) ↔ (HasRoom k × (n ≤ m))
with_room k key n m h = (
  (λ all. (key.0 (ground arith), ground arith)),
  (λ room. let fine = key.1 room.0 in let le = room.1 in ground arith),
)

-- What Put of a vocabulary hands to the store has the types of the columns that it names, and no
-- column is missing, exactly if the identifiers and the name of the updater have at most 100
-- characters: the content always fits, though its column counts bytes and Put counts characters.
pub accepts-profile_row_iff :
    (app_id : Text) (body : Option PutRequest) {req : PutRequest}
    → Vocabulary.check_put body ≡ pass req
    → (accepts migrated
          (codes "vocabulary_profile")
          (profile_row (key_of app_id req) req.content req.updated_by)
        ≡ true)
      ↔ (HasRoom (key_of app_id req) × (length req.updated_by ≤ 100))
accepts-profile_row_iff app_id body {req} h =
    let (valid, bounded) = put_content_bounded body h in
    let key = all_fit-key_columns profile_columns profile_key (key_of app_id req) valid in
    let more : Insert =
      (codes "content", text_value req.content)
      ∷ (codes "updated_by", text_value req.updated_by)
      ∷ [] in
    let key_of_row = key_of app_id req in
    let fit =
      accepts_parts profile_columns (key_columns key_of_row) more
        (accepts-profile (profile_row key_of_row req.content req.updated_by))
        (profile_row-is_complete key_of_row req.content req.updated_by)
        (content_fits req.content req.updated_by bounded) in
    with_room (key_of app_id req) key (length req.updated_by) 100 fit

is_valid_app_id-short : (id : Text) → is_valid_app_id id ≡ true → length id ≤ 20
unfolding is_valid_app_id
is_valid_app_id-short id h = ground (arith, byte_length-ge id)

-- The row of a new application has the types of its columns.
pub accepts-app_row :
    (id name key_hash : Text)
    → is_valid_app_id id ≡ true
    → bad_name name ≡ false
    → length key_hash ≤ 255
    → accepts migrated (codes "app_registry") (app_row id name key_hash) ≡ true
unfolding bad_name
accepts-app_row id name key_hash valid named short =
    rw (accepts-app) (ground (arith, is_valid_app_id-short id valid))

-- ===== src/Speech/Tests.antt =====
-- Two applications that use the service one after the other.
use octo_speech.Prelude.{
  ◌≡◌, refl, sym, ◌∙◌, true, false, [], ◌∷◌, Text, codes, text_eq, some, none, has_prefix,
  if◌then◌else◌,
}
use octo_speech.Prelude.Http.{pass, reply, pass-injective}
use octo_speech.Prelude.Int.{pos}
use octo_speech.Store.App.{AuthResult, found, absent}
use octo_speech.Store.Vocabulary.{Key, Select, is_valid_scope_type, query_with_priority, or_next}
use octo_speech.Store.LocalConfig.{Row}
use octo_speech.Api.Auth.{auth_middleware, trim_prefix}
use octo_speech.Api.Vocabulary.{put, get, check_put, check_query, read}
use octo_speech.Api.Vocabulary.Tests as VocabularyTests
use octo_speech.Api.LocalConfig.Tests as LocalConfigTests
use octo_speech.Samples.{settings, other_verb}
use octo_speech.Speech.{
  State, Service, put_vocabularies, get_vocabularies, put_local_config, vocabulary, refused, route,
  route_as, serve,
}
use octo_speech.Speech.Isolation.{
  Visit, none_left, one_more, serve_all, is_read, serve-serve_all_other,
}

abbrev service : Service (Key → Select) (Key → Row)
service = record {
  vocabulary_table = VocabularyTests.memory;
  local_table = LocalConfigTests.memory;
  cfg = settings;
  prompt_file = none;
  has_log = false;
  verb = other_verb;
  error_text = λ e. [];
  parse_url = λ url. some (codes "http", codes "h");
  format_time = VocabularyTests.no_time;
}

abbrev new_state : State (Key → Select) (Key → Row)
new_state = record {
  vocabularies = VocabularyTests.empty;
  locals = LocalConfigTests.empty;
  entries = [];
}

abbrev first_key : Text
first_key = codes "Bearer k1"

abbrev second_key : Text
second_key = codes "Bearer k2"

unfoldable two_apps : Text → AuthResult
two_apps key =
    if text_eq key (codes "k1")
    then found (record { app_id = codes "app_1"; status = pos 1 })
    else (if text_eq key (codes "k2")
        then found (record { app_id = codes "app_2"; status = pos 1 })
        else absent)

first_admitted : auth_middleware two_apps first_key ≡ pass (codes "app_1")
unfolding auth_middleware two_apps trim_prefix has_prefix text_eq
first_admitted = refl

second_admitted : auth_middleware two_apps second_key ≡ pass (codes "app_2")
unfolding auth_middleware two_apps trim_prefix has_prefix text_eq
second_admitted = refl

abbrev write : Visit
write = record {
  authenticate = two_apps;
  header = first_key;
  request = put_vocabularies (some VocabularyTests.words);
}

abbrev configure : Visit
configure = record {
  authenticate = two_apps;
  header = first_key;
  request = put_local_config (some LocalConfigTests.body);
}

-- The first application reads what it has written, and the second one does not.
write_run :
    (serve service two_apps first_key
      (serve_all service new_state (write ∷ []))
      (get_vocabularies VocabularyTests.mine)).1
    ≡ vocabulary (pass (record { has_content = true; content = codes "octo"; updated_at = [] }))
unfolding serve serve_all route_as route auth_middleware two_apps trim_prefix has_prefix text_eq put
    get check_put check_query read is_valid_scope_type query_with_priority or_next
write_run = refl

refused_run :
    (serve service two_apps (codes "k1") new_state (put_vocabularies (some VocabularyTests.words)))
    ≡ (new_state, refused (reply 401 "invalid authorization format, expected: Bearer <api_key>"))
unfolding serve route_as auth_middleware trim_prefix has_prefix text_eq
refused_run = refl

apart : text_eq (codes "app_1") (codes "app_2") ≡ false
unfolding text_eq
apart = refl

no_default : text_eq (codes "app_1") (codes "*") ≡ false
unfolding text_eq
no_default = refl

first-IsOther :
    (writer : Text)
    → auth_middleware two_apps first_key ≡ pass writer
    → (text_eq writer (codes "app_2") ≡ false) × (text_eq writer (codes "*") ≡ false)
first-IsOther writer h = rw (sym (pass-injective (sym first_admitted ∙ h))) (apart, no_default)

is_read_run : is_read (get_vocabularies VocabularyTests.mine) ≡ true
unfolding is_read
is_read_run = refl

serve-serve_all_other_example :
    (serve service two_apps second_key
      (serve_all service new_state (write ∷ configure ∷ []))
      (get_vocabularies VocabularyTests.mine)).1
    ≡ (serve service two_apps second_key new_state (get_vocabularies VocabularyTests.mine)).1
serve-serve_all_other_example =
    serve-serve_all_other service VocabularyTests.memory-IsTable LocalConfigTests.memory-HasOwnRows
      (codes "app_2") new_state (write ∷ configure ∷ []) two_apps second_key
      (get_vocabularies VocabularyTests.mine)
      (one_more first-IsOther (one_more first-IsOther none_left)) second_admitted is_read_run

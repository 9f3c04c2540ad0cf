-- ===== src/Admin/Site/Boot/Tests.antt =====
-- An admin service that starts, and its first login.
use octo_speech.Prelude.{◌≡◌, refl, true, some, [], ◌∷◌, Text, codes, inr}
use octo_speech.Prelude.Http.{reply}
use octo_speech.Prelude.Hex.{hex_encode}
use octo_speech.Prelude.Parse.{atoi}
use octo_speech.Prelude.Int.{wrap_64}
use octo_speech.Admin.Settings.{
  load_from_env, missing_setting, password_hash_of, jwt_secret_of, config_with, int_or,
}
use octo_speech.Admin.Settings.Tests as SettingsTests
use octo_speech.Admin.Session.{set_auth_cookies}
use octo_speech.Admin.Session.Tokens.{sign_jwt, claims, numeric_date, add_duration, hours}
use octo_speech.Store.Registry.Memory.{memory, empty_memory}
use octo_speech.Admin.Site.{Visit, with_cookies, post_login, Setup, new_site, serve}
use octo_speech.Admin.Site.Tests.{shown, shown_jwt, setup, login_visit}
use octo_speech.Admin.Site.Boot.{Host, boot, boot_with, connect, boot-login}

abbrev admin_host : Host
admin_host = record {
  env = SettingsTests.environment;
  lib = SettingsTests.libraries;
  open_db = λ dsn. true;
  ping = true;
  migrate = some 0;
}

booted : boot admin_host ≡ inr SettingsTests.started
unfolding boot boot_with connect load_from_env missing_setting password_hash_of jwt_secret_of
    config_with
booted = refl

abbrev first_setup : Setup memory
first_setup = record setup { cfg = SettingsTests.started; matches = SettingsTests.matches }

abbrev first_visit : Visit
first_visit = record login_visit {
  route = post_login (some (record { username = codes "admin"; password = codes "pw" }));
}

abbrev day_token : Text
day_token = shown (record { username = codes "admin"; expires_at = 86400; issued_at = 0 })

signed_first :
    sign_jwt shown_jwt 10 10
      (codes "admin")
      SettingsTests.started.jwt_secret
      SettingsTests.started.token_expire
    ≡ some day_token
unfolding sign_jwt claims hours wrap_64 numeric_date add_duration config_with int_or atoi
signed_first = refl

boot-login_example :
    (serve memory first_setup (new_site memory first_setup empty_memory) first_visit).1
    ≡ with_cookies (record {
      body = reply 200 "ok";
      cookies = set_auth_cookies SettingsTests.started day_token (hex_encode (171 ∷ []));
    })
boot-login_example =
    boot-login admin_host SettingsTests.started memory first_setup empty_memory first_visit
      day_token booted refl SettingsTests.accepted refl signed_first

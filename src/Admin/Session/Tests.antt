-- ===== src/Admin/Session/Tests.antt =====
-- A session of the admin service.
use octo_speech.Prelude.{◌≡◌, ◌≢◌, ◌↔◌, Bool, true, Option, some, [], Text, codes, text_eq}
use octo_speech.Prelude.Http.{pass}
use octo_speech.Prelude.Int.{ℤ, pos}
use octo_speech.Admin.Settings.{AdminConfig}
use octo_speech.Admin.Session.{Credentials, Request, protected}
use octo_speech.Admin.Session.Guards.{protected-pass_iff}

abbrev settings : AdminConfig
settings = record {
  port = pos 8781;
  trusted_proxies = [];
  db_dsn = codes "dsn";
  read_timeout = pos 30;
  write_timeout = pos 60;
  idle_timeout = pos 120;
  username = codes "admin";
  password_hash = codes "hash";
  jwt_secret = codes "secret";
  token_expire = pos 2;
  secure_cookie = true;
}

-- Passwords of which "hash" is the hash: "right".
abbrev matches : Text → Text → Bool
matches hash password = text_eq password (codes "right")

abbrev sign : Text → Text → ℤ → Option Text
sign username secret hours = some username

abbrev verify : Text → Text → Option Text
verify token secret = some token

abbrev in_session : Request
in_session = record {
  token = some (codes "admin");
  csrf_token = some (codes "c");
  x_csrf_token = codes "c";
}

protected-pass_iff_example :
    (protected verify (codes "secret") in_session ≡ pass (codes "admin")) ↔ (
      (token cookie : Text) × (in_session.token ≡ some token)
      × (token ≢ [])
      × (verify token (codes "secret") ≡ some (codes "admin"))
      × (in_session.csrf_token ≡ some cookie)
      × (cookie ≢ [])
      × (in_session.x_csrf_token ≡ cookie))
protected-pass_iff_example = protected-pass_iff verify (codes "secret") in_session (codes "admin")

abbrev stranger : Credentials
stranger = record { username = codes "root"; password = codes "right" }

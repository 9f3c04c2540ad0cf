-- ===== src/Admin/Site/Tests.antt =====
-- An operator who logs in and creates an application, on the database in memory.
use octo_speech.Prelude.{
  ℕ, ◌*◌, ◌<◌, ◌≤◌, ◌≡◌, ◌≢◌, ◌↔◌, refl, sym, ap, ◌∙◌, true, false, Option, some, none, List, [],
  ◌∷◌, Text, codes, text_eq, ltb, if◌then◌else◌, arith, some-injective, here, keep, trim_space,
  trim_left, trim_right, is_space, length, Bool-cases, inl, inr,
}
use octo_speech.Prelude.Http.{pass}
use octo_speech.Prelude.Hex.{hex_encode, hex_digit}
use octo_speech.Prelude.Int.{pos, wrap_64}
use octo_speech.Admin.Settings.{AdminConfig}
use octo_speech.Admin.RateLimit as RateLimit
use octo_speech.Admin.RateLimit.{
  listed, middleware, is_allowed, client_ip, valid, attempts_of, store, new_login_rate_limiter,
}
use octo_speech.Admin.RateLimit.Window.{within}
use octo_speech.Admin.Session.{
  Credentials, login, set_auth_cookies, protected, jwt_middleware, csrf_middleware,
}
use octo_speech.Admin.Session.Guards.{cookie_value, next_request}
use octo_speech.Admin.Session.Tokens.{
  Claims, Jwt, IsJwt, sign_jwt, verify_jwt, claims, second, numeric_date, add_duration,
  fits_duration, hours,
}
use octo_speech.Admin.Session.Lifetime.{session_end, login-protected_iff}
use octo_speech.Admin.Apps.{create_app, Chance, perform}
use octo_speech.Admin.Apps as Apps
use octo_speech.Admin.KeyGen.{generate_app_id, generate_api_key, random_base62, char_of}
use octo_speech.Store.Rows.{add_app, add_audit, is_fresh, is_unique}
use octo_speech.Store.Registry.{Server, create, log}
use octo_speech.Store.Registry.Memory.{memory, empty_memory, put}
use octo_speech.Admin.Site.{
  Visit, Answer, post_login, change_apps, Setup, Site, new_site, login_or_refuse, route, serve,
}
use octo_speech.Admin.Site.Sessions.{
  token_of, IsHeld, Run, start, visited, Entitled, serve-Entitled,
}
use octo_speech.Admin.Site.Attempts.{request, tried, length-tried_le}

-- A token that shows its claims.
abbrev pub shown : Claims → Text
shown c = c.expires_at ∷ c.issued_at ∷ c.username

abbrev pub in_time : ℕ → Claims → Option Claims
in_time now c = if ltb now (c.expires_at * second) then some c else none

unfoldable pub read_token : ℕ → Text → Option Claims
read_token now [] = none
read_token now (e ∷ []) = none
read_token now (e ∷ i ∷ u) = in_time now (record { username = u; expires_at = e; issued_at = i })

abbrev pub shown_jwt : Jwt
shown_jwt = record {
  signed = λ c secret. some (shown c);
  parsed = λ now token secret. read_token now token;
}

read_shown :
    (now : ℕ) (c c' : Claims) → in_time now c ≡ some c' → (c' ≡ c) × (now < c.expires_at * second)
read_shown now c c' h = elim (Bool-cases (ltb now (c.expires_at * second))) [
  | inl early ↦ (ground arith, ground arith)
  | inr late ↦ absurd (ground arith)
]

shown_jwt-IsJwt : IsJwt shown_jwt
unfolding read_token
shown_jwt-IsJwt = record {
  signed_full = λ c secret token h empty. cc;
  parsed_signed = λ c c' secret token now h read.
      read_shown now c c' (ap (read_token now) (some-injective h) ∙ read);
  signed_parsed =
      λ c secret token now h early. sym (ap (read_token now) (some-injective h)) ∙ ground arith;
}

abbrev settings : AdminConfig
settings = record {
  port = pos 8781;
  trusted_proxies = codes "10.0.0.1" ∷ [];
  db_dsn = codes "dsn";
  read_timeout = pos 30;
  write_timeout = pos 60;
  idle_timeout = pos 120;
  username = codes "admin";
  password_hash = codes "hash";
  jwt_secret = codes "secret";
  token_expire = pos 2;
  secure_cookie = true;
}

abbrev pub setup : Setup memory
setup = record {
  cfg = settings;
  jwt = shown_jwt;
  matches = λ hash password. text_eq password (codes "right");
  hash = λ key. b'h' ∷ key;
  query = λ db q. some [];
  format_time = λ t. [];
}

abbrev draws : Chance
draws = record { id_draw = λ i. some 1; key_draw = λ i. some 1; now = codes "2025-01-01" }

abbrev host : RateLimit.Request
host = record { remote_ip = codes "1.2.3.4"; x_real_ip = codes "9.9.9.9"; x_forwarded_for = [] }

abbrev credentials : Credentials
credentials = record { username = codes "admin"; password = codes "right" }

abbrev pub login_visit : Visit
login_visit = record {
  now = 10;
  remote = host;
  session = record { token = none; csrf_token = none; x_csrf_token = [] };
  route = post_login (some credentials);
  signed_at = 10;
  issued_at = 10;
  csrf_bytes = 171 ∷ [];
  chance = draws;
}

abbrev token : Text
token = shown (record { username = codes "admin"; expires_at = 7200; issued_at = 0 })

abbrev create_visit : Visit
create_visit = record {
  now = 20;
  remote = host;
  session = record {
    token = some token;
    csrf_token = some (codes "ab");
    x_csrf_token = codes "ab";
  };
  route = change_apps (create_app (some (codes "octo")));
  signed_at = 0;
  issued_at = 0;
  csrf_bytes = [];
  chance = draws;
}

abbrev site : Site memory
site = new_site memory setup empty_memory

login_sets : token_of (serve memory setup site login_visit).1 ≡ some token
unfolding new_site serve route middleware is_allowed client_ip listed valid attempts_of store
    new_login_rate_limiter login_or_refuse login set_auth_cookies cookie_value sign_jwt claims hours
    wrap_64 numeric_date add_duration token_of text_eq hex_encode hex_digit keep
login_sets = refl

abbrev history : List (Visit × Answer)
history = (login_visit, (serve memory setup site login_visit).1) ∷ []

abbrev logged_in : Site memory
logged_in = (serve memory setup site login_visit).0

run : Run memory setup empty_memory history logged_in
run = visited login_visit start (λ t u e v. absurd (cc))

create_visit-IsHeld :
    IsHeld (λ t. verify_jwt shown_jwt 20 t settings.jwt_secret) history create_visit.session.token
create_visit-IsHeld t u e v =
    ((login_visit, (serve memory setup site login_visit).1), here, login_sets ∙ e)

abbrev apps_of : Server memory → ℕ
apps_of r = length (memory.tables r.db).apps

created_apps : apps_of (serve memory setup logged_in create_visit).0.server ≡ 1
unfolding new_site serve route text_eq Apps.serve jwt_middleware verify_jwt read_token
    csrf_middleware trim_space trim_right trim_left is_space generate_app_id random_base62 char_of
    generate_api_key create put add_app is_fresh is_unique protected perform log add_audit
created_apps = refl

no_apps : apps_of logged_in.server ≡ 0
unfolding serve route new_site
no_apps = refl

differs : (serve memory setup logged_in create_visit).0.server ≢ logged_in.server
differs e = omega (arith, created_apps, no_apps, ap apps_of e)

fits : fits_duration settings.token_expire ≡ true
unfolding fits_duration
fits = refl

serve-Entitled_example : Entitled memory setup history create_visit
serve-Entitled_example =
    serve-Entitled memory setup shown_jwt-IsJwt empty_memory history logged_in create_visit fits run
      create_visit-IsHeld differs

plain : listed (codes "1.2.3.4") settings.trusted_proxies ≡ false
unfolding listed text_eq
plain = refl

length-tried_le_example :
    length (
      within (60 * second) 20 (
        tried memory setup
          (codes "1.2.3.4")
          site
          (request login_visit ∷ request create_visit ∷ [])))
    ≤ 5
length-tried_le_example =
    length-tried_le memory setup empty_memory (codes "1.2.3.4")
      (request login_visit ∷ request create_visit ∷ []) 20 (omega arith, (omega arith, tt)) plain

opened :
    (login setup.matches
      (sign_jwt shown_jwt 10 10)
      (codes "ab")
      settings
      (some credentials)).body.status
    ≡ 200
unfolding login sign_jwt text_eq
opened = refl

login-protected_iff_example :
    (protected (verify_jwt shown_jwt 20) settings.jwt_secret (
        next_request
          (login setup.matches (sign_jwt shown_jwt 10 10) (codes "ab") settings (some credentials))
          (codes "ab"))
      ≡ pass settings.username)
    ↔ (20 < session_end settings 10)
login-protected_iff_example =
    login-protected_iff shown_jwt shown_jwt-IsJwt setup.matches (codes "ab") settings credentials 10
      10 20 fits (ground arith) opened

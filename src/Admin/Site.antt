-- ===== src/Admin/Site.antt =====
-- The routes of cmd/admin/main.go over the handlers, their guards and the rate limiter, and
-- HealthCheck of internal/admin/handler.go. One request is served at a time; the database, bcrypt,
-- the JWT library, SHA-256, the clock and the randomness are arguments.
pub mod Sessions
pub mod Attempts
pub mod Boot
pub mod Tests
use octo_speech.Prelude.{
  ℕ, ◌*◌, Bool, true, false, Option, some, none, List, [], ◌∷◌, Text, if◌then◌else◌, String,
}
use octo_speech.Prelude.Http.{Reply, reply, Outcome, abort, pass, ◌>>=◌}
use octo_speech.Prelude.Hex.{hex_encode}
use octo_speech.Prelude.Int.{ℤ, pos}
use octo_speech.Admin.Settings.{AdminConfig}
use octo_speech.Admin.RateLimit.{LoginRateLimiter, new_login_rate_limiter, middleware, cleanup}
use octo_speech.Admin.RateLimit as RateLimit
use octo_speech.Admin.Session.{Credentials, Request, login, logout, jwt_middleware}
use octo_speech.Admin.Session as Session
use octo_speech.Admin.Session.Tokens.{Jwt, sign_jwt, verify_jwt, second, generate_csrf_token}
use octo_speech.Admin.Apps.{Command, Done, Chance}
use octo_speech.Admin.Apps as Apps
use octo_speech.Store.App.{new_app_store}
use octo_speech.Store.Registry.{Database, Server}
use octo_speech.Store.Listing.{Query, AppRecord, Item, list_apps}

-- The routes, with what their handlers read beside the guards. Whether the database answers a ping
-- stands with the health check.
pub data Route : Type 0 where
  get_healthz : Bool → Route
  post_login : Option Credentials → Route
  post_logout : Route
  get_apps : Text → Text → Route
  change_apps : Command → Route

-- A request: where it comes from, its cookies, the clock when it is let in, and the two readings
-- and the 16 random bytes that a login takes. Without randomness the process ends.
pub record Visit : Type 0 where
  pub now : ℕ
  pub remote : RateLimit.Request
  pub session : Request
  pub route : Route
  pub signed_at : ℕ
  pub issued_at : ℕ
  pub csrf_bytes : List ℕ
  pub chance : Chance

pub data Answer : Type 0 where
  replied : Reply → Answer
  with_cookies : Session.Answer → Answer
  apps : Outcome (List Item) → Answer
  changed : Outcome Done → Answer

-- `HealthCheck`
unfoldable pub health_check : Bool → Reply
health_check ping = if ping then reply 200 "ok" else reply 503 "database unavailable"

-- What the service is started with. `matches` is bcrypt's comparison.
pub record Setup (d : Database) : Type 0 where
  pub cfg : AdminConfig
  pub jwt : Jwt
  pub matches : Text → Text → Bool
  pub hash : Text → Text
  pub query : d.State → Query → Option (List AppRecord)
  pub format_time : ℕ → Text

pub record Site (d : Database) : Type 0 where
  pub limiter : LoginRateLimiter
  pub server : Server d

-- An answer without cookies.
abbrev pub plain : Reply → Session.Answer
plain r = record { body = r; cookies = [] }

module _ (d : Database) (setup : Setup d) where
  unfoldable pub new_site : d.State → Site d
  new_site db = record {
    limiter = new_login_rate_limiter 5 (60 * second) setup.cfg.trusted_proxies;
    server = record { db = db; store = new_app_store (60 * second) };
  }

  -- `rateLimiter.Middleware(), handler.Login`
  unfoldable pub login_or_refuse : Visit → Option Credentials → Option ℕ → Session.Answer
  login_or_refuse v req (some status) =
      plain (reply status "too many login attempts, please try again later")
  login_or_refuse v req none =
      login setup.matches (sign_jwt setup.jwt v.signed_at v.issued_at) (hex_encode v.csrf_bytes)
        setup.cfg req

  -- What stands behind JWTMiddleware alone.
  unfoldable pub logout_as : Outcome Text → Session.Answer
  logout_as (abort r) = plain r
  logout_as (pass username) = logout setup.cfg

  unfoldable pub list_as : d.State → Text → Text → Outcome Text → Outcome (List Item)
  list_as db status keyword (abort r) = abort r
  list_as db status keyword (pass username) =
      list_apps (setup.query db) setup.format_time status keyword

  unfoldable pub route : Site d → Visit → Route → Site d × Answer
  route s v (get_healthz ping) = (s, replied (health_check ping))
  route s v (post_login req) =
      let p = middleware s.limiter v.now v.remote in
      (record s { limiter = p.0 }, with_cookies (login_or_refuse v req p.1))
  route s v post_logout = (
    s,
    with_cookies
        (logout_as (jwt_middleware (verify_jwt setup.jwt v.now) setup.cfg.jwt_secret v.session)),
  )
  route s v (get_apps status keyword) = (
    s,
    apps (
        list_as s.server.db status keyword
          (jwt_middleware (verify_jwt setup.jwt v.now) setup.cfg.jwt_secret v.session)),
  )
  route s v (change_apps command) =
      let p =
        Apps.serve d setup.hash (verify_jwt setup.jwt v.now) setup.cfg.jwt_secret v.chance v.session
          command s.server in
      (record s { server = p.0 }, changed p.1)

  unfoldable pub serve : Site d → Visit → Site d × Answer
  serve s v = route s v v.route

  -- A tick of the limiter's cleanup goroutine.
  unfoldable pub tick : Site d → ℕ → Site d
  tick s now = record s { limiter = cleanup s.limiter now }

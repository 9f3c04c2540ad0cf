-- ===== src/Admin/Session.antt =====
-- The admin session: internal/admin/auth.go, internal/admin/middleware.go, the handlers Login and
-- Logout of internal/admin/handler.go, and the order of the guards in cmd/admin/main.go. The JWT
-- library, bcrypt and the CSRF token's randomness are arguments.
pub mod Guards
pub mod Tokens
pub mod Lifetime
mod Tests
use octo_speech.Prelude.{
  ℕ, Bool, true, false, Option, some, none, List, [], ◌∷◌, if◌then◌else◌, is_empty, Text, codes,
  text_eq, not, ◌||◌, String,
}
use octo_speech.Prelude.Http.{Reply, reply, Outcome, abort, pass, ◌>>=◌, ◌>>◌, guard}
use octo_speech.Admin.Settings.{AdminConfig}
use octo_speech.Prelude.Int.{ℤ, pos, negsuc, scale, wrap_64}

-- An http.Cookie; each has the path "/" and SameSite=Strict.
pub record Cookie : Type 0 where
  pub name : String
  pub value : Text
  pub max_age : ℤ
  pub secure : Bool
  pub http_only : Bool

unfoldable pub set_auth_cookies : AdminConfig → Text → Text → List Cookie
set_auth_cookies cfg token csrf_token =
    let max_age = wrap_64 (scale 3600 cfg.token_expire) in
    record {
      name = "token";
      value = token;
      max_age = max_age;
      secure = cfg.secure_cookie;
      http_only = true;
    }
    ∷ record {
      name = "csrf_token";
      value = csrf_token;
      max_age = max_age;
      secure = cfg.secure_cookie;
      http_only = false;
    }
    ∷ []

unfoldable pub clear_auth_cookies : AdminConfig → List Cookie
clear_auth_cookies cfg =
    record {
      name = "token";
      value = [];
      max_age = negsuc 0;
      secure = cfg.secure_cookie;
      http_only = true;
    }
    ∷ record {
      name = "csrf_token";
      value = [];
      max_age = negsuc 0;
      secure = cfg.secure_cookie;
      http_only = false;
    }
    ∷ []

-- What a handler that sets cookies answers.
pub record Answer : Type 0 where
  pub body : Reply
  pub cookies : List Cookie

abbrev refuse : ℕ → String → Answer
refuse status msg = record { body = reply status msg; cookies = [] }

-- The body of a login request; none if it does not bind.
pub record Credentials : Type 0 where
  pub username : Text
  pub password : Text

-- `Login`. `matches hash password` is bcrypt's comparison, `sign username secret hours` the signed
-- token, `csrf` the fresh CSRF token.
unfoldable pub login :
    (Text → Text → Bool)
    → (Text → Text → ℤ → Option Text)
    → Text
    → AdminConfig
    → Option Credentials
    → Answer
login matches sign csrf cfg none = refuse 400 "invalid request body"
login matches sign csrf cfg (some req) =
    if not (text_eq req.username cfg.username)
    then refuse 401 "invalid credentials"
    else (if not (matches cfg.password_hash req.password)
        then refuse 401 "invalid credentials"
        else elim (sign req.username cfg.jwt_secret cfg.token_expire) [
          | none ↦ refuse 500 "failed to generate token"
          | some token ↦ record { body = reply 200 "ok"; cookies = set_auth_cookies cfg token csrf }
        ])

unfoldable pub logout : AdminConfig → Answer
logout cfg = record { body = reply 200 "ok"; cookies = clear_auth_cookies cfg }

-- What the guards read of a request: two cookies, none if absent, and the header X-CSRF-Token,
-- empty if absent.
pub record Request : Type 0 where
  pub token : Option Text
  pub csrf_token : Option Text
  pub x_csrf_token : Text

-- `JWTMiddleware`: passes the username on. `verify token secret` is `verifyJWT`, none on an error.
unfoldable pub jwt_middleware : (Text → Text → Option Text) → Text → Request → Outcome Text
jwt_middleware verify secret r = elim r.token [
  | none ↦ abort (reply 401 "unauthorized")
  | some token ↦
      if is_empty token then abort (reply 401 "unauthorized") else elim (verify token secret) [
        | none ↦ abort (reply 401 "invalid or expired token")
        | some username ↦ pass username
      ]
]

-- `CSRFMiddleware`; `subtle.ConstantTimeCompare` is 1 exactly for equal contents.
unfoldable pub csrf_middleware : Request → Outcome (Unit {0})
csrf_middleware r = elim r.csrf_token [
  | none ↦ abort (reply 403 "missing CSRF token")
  | some cookie ↦
      if is_empty cookie
      then abort (reply 403 "missing CSRF token")
      else guard (not (is_empty r.x_csrf_token || not (text_eq r.x_csrf_token cookie)))
          (reply 403 "CSRF token mismatch")
]

-- The chain before CreateApp, UpdateStatus, DeleteApp and ResetKey: the username that they see.
unfoldable pub protected : (Text → Text → Option Text) → Text → Request → Outcome Text
protected verify secret r = do
  username ← jwt_middleware verify secret r
  csrf_middleware r
  pass username

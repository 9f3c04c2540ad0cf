-- ===== src/Api/Auth.antt =====
-- internal/api/middleware.go: who is let in by an API key. `authenticate` is the store's answer for
-- a key; the identifier of the application is what the handlers see.
pub mod Admission
mod Tests
use octo_speech.Prelude.{
  Bool, true, false, [], ◌∷◌, Text, codes, text_eq, has_prefix, is_empty, length, drop,
  if◌then◌else◌, ◌==◌,
}
use octo_speech.Prelude.Http.{Outcome, abort, pass, reply}
use octo_speech.Prelude.Int.{ℤ, pos, negsuc}
use octo_speech.Store.App.{AppInfo, AuthResult, found, absent, failed}

abbrev pub bearer : Text
bearer = codes "Bearer "

-- `strings.TrimPrefix(s, prefix)`
unfoldable pub trim_prefix : Text → Text → Text
trim_prefix s prefix = if has_prefix s prefix then drop (length prefix) s else s

-- `n == 0`
abbrev pub is_zero : ℤ → Bool
is_zero (pos n) = n == 0
is_zero (negsuc n) = false

unfoldable pub auth_middleware : (Text → AuthResult) → Text → Outcome Text
auth_middleware authenticate auth =
    if is_empty auth
    then abort (reply 401 "missing authorization header")
    else (if text_eq (trim_prefix auth bearer) auth
        then abort (reply 401 "invalid authorization format, expected: Bearer <api_key>")
        else elim (authenticate (trim_prefix auth bearer)) [
          | failed ↦ abort (reply 500 "authentication error")
          | absent ↦ abort (reply 401 "invalid api key")
          | found info ↦
              if is_zero info.status
              then abort (reply 403 "application is disabled")
              else pass info.app_id
        ])

-- ===== src/Api/Auth/Tests.antt =====
-- Requests with the key "sk-1", which is the only one.
use octo_speech.Prelude.{◌≡◌, ◌≢◌, ◌↔◌, refl, ◌++◌, Text, codes, text_eq, if◌then◌else◌, has_prefix}
use octo_speech.Prelude.Http.{pass, abort, reply}
use octo_speech.Prelude.Int.{pos}
use octo_speech.Store.App.{AppInfo, AuthResult, found, absent}
use octo_speech.Api.Auth.{bearer, auth_middleware, trim_prefix}
use octo_speech.Api.Auth.Admission.{auth_middleware-pass_iff}

abbrev one_app : Text → AuthResult
one_app key =
    if text_eq key (codes "sk-1")
    then found (record { app_id = codes "app_1"; status = pos 1 })
    else absent

lets_in : auth_middleware one_app (codes "Bearer sk-1") ≡ pass (codes "app_1")
unfolding auth_middleware trim_prefix text_eq has_prefix
lets_in = refl

keeps_out :
    auth_middleware one_app (codes "bearer sk-1")
    ≡ abort (reply 401 "invalid authorization format, expected: Bearer <api_key>")
unfolding auth_middleware trim_prefix text_eq has_prefix
keeps_out = refl

auth_middleware-pass_iff_example :
    (auth_middleware one_app (codes "Bearer sk-1") ≡ pass (codes "app_1")) ↔ (
      (key : Text) × (info : AppInfo) × (codes "Bearer sk-1" ≡ bearer ++ key)
      × (one_app key ≡ found info)
      × (info.status ≢ pos 0)
      × (info.app_id ≡ codes "app_1"))
auth_middleware-pass_iff_example =
    auth_middleware-pass_iff one_app (codes "Bearer sk-1") (codes "app_1")

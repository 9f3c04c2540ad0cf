-- ===== src/Api/Auth/Admission.antt =====
-- Who passes the authentication.
use octo_speech.Prelude.{
  if◌then◌else◌, ◌≡◌, refl, ap, ◌≢◌, ◌↔◌, ◌⊎◌, inl, inr, false, ◌++◌, Text, text_eq, text_eq_iff,
  has_prefix, has_prefix→append, has_prefix-append, drop-append, length, length-append, arith,
  Bool-cases,
}
use octo_speech.Prelude.Http.{pass, abort, reply}
use octo_speech.Prelude.Int.{ℤ, pos, negsuc}
use octo_speech.Store.App.{AppInfo, AuthResult, found, absent, failed}
use octo_speech.Api.Auth.{bearer, trim_prefix, auth_middleware, is_zero}

AuthResult-cases :
    (r : AuthResult) → ((r ≡ absent) ⊎ (r ≡ failed)) ⊎ ((info : AppInfo) × (r ≡ found info))
AuthResult-cases (found info) = inr (info, refl)
AuthResult-cases absent = inl (inl refl)
AuthResult-cases failed = inl (inr refl)

shorter : (key : Text) → text_eq key (bearer ++ key) ≡ false
shorter key = elim (Bool-cases (text_eq key (bearer ++ key))) [
  | inl same ↦
      absurd (omega (arith, ap length ((text_eq_iff _ _).0 same), length-append bearer key))
  | inr other ↦ other
]

trim_prefix-bearer : (key : Text) → trim_prefix (bearer ++ key) bearer ≡ key
unfolding trim_prefix
trim_prefix-bearer key = rw (has_prefix-append bearer key, drop-append bearer key)

no_prefix :
    (auth : Text)
    → text_eq (trim_prefix auth bearer) auth ≡ false
    → auth ≡ bearer ++ trim_prefix auth bearer
unfolding trim_prefix
no_prefix auth h = elim (Bool-cases (has_prefix auth bearer)) [
  | inl there ↦ rw there (has_prefix→append auth bearer there)
  | inr missing ↦ absurd (ground (arith, text_eq_iff auth auth))
]

is_zero-false : (z : ℤ) → is_zero z ≡ false → z ≢ pos 0
is_zero-false z h e = absurd (ground arith)

is_zero_of_ne : (z : ℤ) → z ≢ pos 0 → is_zero z ≡ false
is_zero_of_ne (pos n) h = ground arith
is_zero_of_ne (negsuc n) h = refl

-- The answer for a header with a key goes by the store alone.
pub auth_middleware-bearer :
    (authenticate : Text → AuthResult) (key : Text)
    → auth_middleware authenticate (bearer ++ key) ≡ elim (authenticate key) [
      | failed ↦ abort (reply 500 "authentication error")
      | absent ↦ abort (reply 401 "invalid api key")
      | found info ↦
          if is_zero info.status
          then abort (reply 403 "application is disabled")
          else pass info.app_id
    ]
unfolding auth_middleware
auth_middleware-bearer authenticate key = rw (trim_prefix-bearer key, shorter key) refl

module _ (authenticate : Text → AuthResult) (auth app_id : Text) where
  -- What the middleware has checked when it lets a request in.
  checked :
      auth_middleware authenticate auth ≡ pass app_id
      → (text_eq (trim_prefix auth bearer) auth ≡ false)
        × ((info : AppInfo) × (authenticate (trim_prefix auth bearer) ≡ found info)
            × (is_zero info.status ≡ false)
            × (info.app_id ≡ app_id))
  unfolding auth_middleware
  checked h = (
    ground arith,
    elim (AuthResult-cases (authenticate (trim_prefix auth bearer))) [
      | inl (inl none_found) ↦ absurd (ground arith)
      | inl (inr error) ↦ absurd (ground arith)
      | inr (info, e) ↦ (info, e, ground arith, ground arith)
    ],
  )

  -- A request is let in for an application exactly when its header is "Bearer " and a key for
  -- which the store finds that application, and the application is not disabled.
  pub auth_middleware-pass_iff : (auth_middleware authenticate auth ≡ pass app_id) ↔ (
      (key : Text) × (info : AppInfo) × (auth ≡ bearer ++ key)
      × (authenticate key ≡ found info)
      × (info.status ≢ pos 0)
      × (info.app_id ≡ app_id))
  unfolding auth_middleware
  auth_middleware-pass_iff = (
    λ h.
        let (form, (info, e, enabled, id)) = checked h in
        (
          trim_prefix auth bearer,
          info,
          no_prefix auth form,
          e,
          is_zero-false info.status enabled,
          id,
        ),
    λ (key, info, form, e, enabled, id). rw (form) (
        rw (trim_prefix-bearer key, shorter key, e, is_zero_of_ne info.status enabled)
          (ap pass id)),
  )

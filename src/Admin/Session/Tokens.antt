-- ===== src/Admin/Session/Tokens.antt =====
-- signJWT, verifyJWT and generateCSRFToken of internal/admin/auth.go. The JWT library, the clock and
-- the source of randomness are arguments.
use Prim.Native.Nat.{◌/◌}
use octo_speech.Prelude.{
  ℕ, suc, ◌+◌, ◌-◌, ◌*◌, ◌<◌, ◌≡◌, ◌≢◌, ap, ◌∙◌, Bool, true, ◌&&◌, Option, some, none, List, [],
  Text, arith, length,
}
use octo_speech.Prelude.Hex.{hex_encode, length-hex_encode}
use octo_speech.Prelude.Int.{ℤ, pos, negsuc, scale, le_ℤ, wrap_64, wrap_64_within}

-- The claims of a token; its dates are in seconds.
pub record Claims : Type 0 where
  pub username : Text
  pub expires_at : ℕ
  pub issued_at : ℕ

-- The library: `signed` is SignedString with HS256, `parsed` is ParseWithClaims at a time.
pub record Jwt : Type 0 where
  pub signed : Claims → Text → Option Text
  pub parsed : ℕ → Text → Text → Option Claims

-- Nanoseconds of a second, and of an hour.
abbrev pub second : ℕ
second = 1_000_000_000

abbrev pub hour : ℕ
hour = 3600 * second

-- What the library promises: a token is not empty; a signed token parses to its claims until it
-- expires, and neither to other claims nor later.
pub record IsJwt (jwt : Jwt) : Type 0 where
  pub signed_full :
      (c : Claims) (secret token : Text) → jwt.signed c secret ≡ some token → token ≢ []
  pub parsed_signed :
      (c c' : Claims) (secret token : Text) (now : ℕ)
      → jwt.signed c secret ≡ some token
      → jwt.parsed now token secret ≡ some c'
      → (c' ≡ c) × (now < c.expires_at * second)
  pub signed_parsed :
      (c : Claims) (secret token : Text) (now : ℕ)
      → jwt.signed c secret ≡ some token
      → now < c.expires_at * second
      → jwt.parsed now token secret ≡ some c

-- `t.Add(d)`; a time before 1970 is 0
unfoldable pub add_duration : ℕ → ℤ → ℕ
add_duration t (pos d) = t + d
add_duration t (negsuc d) = t - suc d

-- `jwt.NewNumericDate`
unfoldable pub numeric_date : ℕ → ℕ
numeric_date t = t / second

-- `time.Duration(h) * time.Hour`, a 64-bit product
unfoldable pub hours : ℤ → ℤ
hours h = wrap_64 (scale hour h)

-- The hours that a duration can hold.
unfoldable pub fits_duration : ℤ → Bool
fits_duration h = le_ℤ (negsuc 2_562_046) h && le_ℤ h (pos 2_562_047)

pub hours-scale : (h : ℤ) → fits_duration h ≡ true → hours h ≡ scale hour h
unfolding hours fits_duration
hours-scale (pos n) fits = wrap_64_within (pos (n * hour)) (ground arith)
hours-scale (negsuc n) fits = wrap_64_within (negsuc (suc n * hour - 1)) (ground arith)

-- The claims of `signJWT`, whose two readings of the clock are `now` and `issued`.
unfoldable pub claims : ℕ → ℕ → Text → ℤ → Claims
claims now issued username expire_hours = record {
  username = username;
  expires_at = numeric_date (add_duration now (hours expire_hours));
  issued_at = numeric_date issued;
}

unfoldable pub sign_jwt : Jwt → ℕ → ℕ → Text → Text → ℤ → Option Text
sign_jwt jwt now issued username secret expire_hours =
    jwt.signed (claims now issued username expire_hours) secret

-- `verifyJWT`, with the username that the middleware takes from its claims.
unfoldable pub verify_jwt : Jwt → ℕ → Text → Text → Option Text
verify_jwt jwt now token secret = elim (jwt.parsed now token secret) [
  | none ↦ none
  | some c ↦ some c.username
]

-- `generateCSRFToken`: 16 bytes from the source, none where it ends the process.
unfoldable pub generate_csrf_token : Option (List ℕ) → Option Text
generate_csrf_token none = none
generate_csrf_token (some b) = some (hex_encode b)

pub generate_csrf_token_full :
    (b : List ℕ) {csrf : Text}
    → length b ≡ 16
    → generate_csrf_token (some b) ≡ some csrf
    → csrf ≢ []
unfolding generate_csrf_token
generate_csrf_token_full b {csrf} sixteen h empty =
    let e : hex_encode b ≡ csrf = cc in
    omega (arith, sixteen, length-hex_encode b, ap length (e ∙ empty))

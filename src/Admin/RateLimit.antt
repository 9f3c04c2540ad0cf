-- ===== src/Admin/RateLimit.antt =====
-- internal/admin/ratelimit.go: the login rate limiter. Times are the readings of one clock, in
-- nanoseconds; the mutex makes each call one step. `t.After(now.Add(-window))` is
-- `now < t + window`.
pub mod Window
mod Tests
use octo_speech.Prelude.{
  ℕ, ◌+◌, Bool, true, false, Option, some, none, List, [], ◌∷◌, ◌++◌, ltb, leb, if◌then◌else◌, keep,
  is_empty, length, Text, codes, text_eq, trim_space, ◌||◌, ◌==◌,
}

pub record LoginRateLimiter : Type 0 where
  pub attempts : Text → Option (List ℕ)
  pub max_attempts : ℕ
  pub window : ℕ
  pub trusted_proxies : List Text

unfoldable pub new_login_rate_limiter : ℕ → ℕ → List Text → LoginRateLimiter
new_login_rate_limiter max_attempts window trusted_proxies = record {
  attempts = λ _. none;
  max_attempts = max_attempts;
  window = window;
  trusted_proxies = trusted_proxies;
}

-- `trustedProxies[ip]`
unfoldable pub listed : Text → List Text → Bool
listed ip [] = false
listed ip (p ∷ ps) = text_eq p ip || listed ip ps

-- What `clientIP` reads of a request: the host of `RemoteAddr` and two headers, empty if absent.
pub record Request : Type 0 where
  pub remote_ip : Text
  pub x_real_ip : Text
  pub x_forwarded_for : Text

-- `forwarded[:idx]` at the first comma, or all of it if there is none
unfoldable pub before_comma : Text → Text
before_comma [] = []
before_comma (c ∷ s) = if c == b',' then [] else c ∷ before_comma s

unfoldable pub client_ip : LoginRateLimiter → Request → Text
client_ip rl r =
    if listed r.remote_ip rl.trusted_proxies
    then (if is_empty r.x_real_ip
        then (if is_empty r.x_forwarded_for
            then r.remote_ip
            else trim_space (before_comma r.x_forwarded_for))
        else r.x_real_ip)
    else r.remote_ip

-- The loop that keeps the attempts of the window.
unfoldable pub valid : ℕ → ℕ → List ℕ → List ℕ
valid window now = keep (λ t. ltb now (t + window))

-- `rl.attempts[ip]`: nil for a missing key
unfoldable pub attempts_of : LoginRateLimiter → Text → List ℕ
attempts_of rl ip = elim (rl.attempts ip) [ none ↦ [] | some ts ↦ ts ]

-- `rl.attempts[ip] = ts`
unfoldable pub store : LoginRateLimiter → Text → List ℕ → LoginRateLimiter
store rl ip ts = record rl { attempts = λ j. if text_eq ip j then some ts else rl.attempts j }

unfoldable pub is_allowed : LoginRateLimiter → ℕ → Text → LoginRateLimiter × Bool
is_allowed rl now ip =
    let kept = valid rl.window now (attempts_of rl ip) in
    let rl' = store rl ip kept in
    if leb rl.max_attempts (length kept)
    then (rl', false)
    else (store rl' ip (kept ++ now ∷ []), true)

-- One entry of the map in a round of `cleanup`: `none` is a deleted entry.
unfoldable pub sweep_entry : ℕ → ℕ → Option (List ℕ) → Option (List ℕ)
sweep_entry window now none = none
sweep_entry window now (some ts) =
    if is_empty (valid window now ts) then none else some (valid window now ts)

-- A tick of `cleanup`.
unfoldable pub cleanup : LoginRateLimiter → ℕ → LoginRateLimiter
cleanup rl now = record rl { attempts = λ ip. sweep_entry rl.window now (rl.attempts ip) }

-- `Middleware`: the status that it answers with, or `none` where the login handler runs.
unfoldable pub middleware : LoginRateLimiter → ℕ → Request → LoginRateLimiter × Option ℕ
middleware rl now r =
    let (rl', ok) = is_allowed rl now (client_ip rl r) in (rl', if ok then none else some 429)

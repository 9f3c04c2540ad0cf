-- ===== src/Admin/RateLimit/Window.antt =====
-- The limiter against a sliding window over the whole history of granted attempts.
use octo_speech.Prelude.{
  ℕ, ◌+◌, ◌≤◌, ◌<◌, ◌≡◌, refl, sym, ◌∙◌, ap, false, List, [], ◌∷◌, ◌++◌, ltb, leb, if◌then◌else◌,
  keep, keep-append, length, length-append, Text, text_eq, ◌&&◌, arith, Bool-cases, inl, inr,
  append_assoc, append-nil, text_eq_iff,
}
use octo_speech.Admin.RateLimit.{
  LoginRateLimiter, new_login_rate_limiter, valid, attempts_of, store, is_allowed, cleanup,
  sweep_entry,
}

-- What the limiter sees: a login attempt of an address, or a tick of the cleanup goroutine.
pub data Event : Type 0 where
  login : Text → ℕ → Event
  tick : ℕ → Event

abbrev pub time : Event → ℕ
time (login ip now) = now
time (tick now) = now

-- The events come in the order of their clock readings, none before `t`.
abbrev pub Ordered : ℕ → List Event → Type 0
Ordered t [] = Unit
Ordered t (e ∷ es) = (t ≤ time e) × Ordered (time e) es

-- The times at which the limiter lets `ip` through.
unfoldable pub granted : Text → LoginRateLimiter → List Event → List ℕ
granted ip rl [] = []
granted ip rl (login j now ∷ es) =
    let (rl', ok) = is_allowed rl now j in
    let rest = granted ip rl' es in if ok && text_eq j ip then now ∷ rest else rest
granted ip rl (tick now ∷ es) = granted ip (cleanup rl now) es

-- The attempts in the window that ends at `now`: those less than `window` old.
unfoldable pub recent : ℕ → ℕ → List ℕ → List ℕ
recent window now = keep (λ t. ltb now (t + window))

valid-recent : (window now : ℕ) (log : List ℕ) → valid window now log ≡ recent window now log
unfolding valid recent
valid-recent window now log = refl

-- The specification keeps every granted time of `ip` for ever, and knows of no other address.
unfoldable pub sliding_window : ℕ → ℕ → Text → List ℕ → List Event → List ℕ
sliding_window most window ip log [] = []
sliding_window most window ip log (tick now ∷ es) = sliding_window most window ip log es
sliding_window most window ip log (login j now ∷ es) =
    let more = now ∷ sliding_window most window ip (log ++ now ∷ []) es in
    let same = sliding_window most window ip log es in
    if text_eq j ip && ltb (length (recent window now log)) most then more else same

-- The same, without those that come later.
unfoldable pub within : ℕ → ℕ → List ℕ → List ℕ
within window at = keep (λ t. leb t at && ltb at (t + window))

valid_later :
    (w now later : ℕ) (ts : List ℕ)
    → now ≤ later
    → valid w later (valid w now ts) ≡ valid w later ts
unfolding valid keep
valid_later w now later [] h = refl
valid_later w now later (t ∷ ts) h = ground (arith, valid_later w now later ts h)

valid-append_now :
    (w now later : ℕ) (ts : List ℕ)
    → now ≤ later
    → valid w later (valid w now ts ++ now ∷ []) ≡ valid w later (ts ++ now ∷ [])
unfolding valid
valid-append_now w now later ts h =
    keep-append _ (valid w now ts) _
    ∙ ap (λ k. k ++ valid w later (now ∷ [])) (valid_later w now later ts h)
    ∙ sym (keep-append _ ts _)

attempts_of-store :
    (rl : LoginRateLimiter) (ip j : Text) (ts : List ℕ)
    → attempts_of (store rl ip ts) j ≡ (if text_eq ip j then ts else attempts_of rl j)
unfolding attempts_of store
attempts_of-store rl ip j ts = ground arith

is_allowed-other :
    (rl : LoginRateLimiter) (now : ℕ) (j ip : Text)
    → text_eq j ip ≡ false
    → attempts_of (is_allowed rl now j).0 ip ≡ attempts_of rl ip
unfolding is_allowed
is_allowed-other rl now j ip h =
    let kept = valid rl.window now (attempts_of rl j) in
    ground (
      arith,
      attempts_of-store rl j ip kept,
      attempts_of-store (store rl j kept) j ip (kept ++ now ∷ []),
    )

is_allowed_settings :
    (rl : LoginRateLimiter) (now : ℕ) (j : Text)
    → ((is_allowed rl now j).0.max_attempts ≡ rl.max_attempts)
      × ((is_allowed rl now j).0.window ≡ rl.window)
unfolding is_allowed store
is_allowed_settings rl now j = ground arith

-- Attempts of an address as the limiter keeps them agree with the log on the present window.
abbrev Agrees : LoginRateLimiter → ℕ → Text → List ℕ → Type 0
Agrees rl now ip log = valid rl.window now (attempts_of rl ip) ≡ valid rl.window now log

Agrees-later :
    (rl : LoginRateLimiter) (now later : ℕ) (ip : Text) (log : List ℕ)
    → now ≤ later
    → Agrees rl now ip log
    → Agrees rl later ip log
Agrees-later rl now later ip log le h =
    sym (valid_later rl.window now later (attempts_of rl ip) le)
    ∙ ap (valid rl.window later) h
    ∙ valid_later rl.window now later log le

is_allowed-answer :
    (rl : LoginRateLimiter) (now : ℕ) (ip : Text) (log : List ℕ)
    → Agrees rl now ip log
    → (is_allowed rl now ip).1 ≡ ltb (length (valid rl.window now log)) rl.max_attempts
unfolding is_allowed
is_allowed-answer rl now ip log h = rw (← h) (ground arith)

is_allowed-kept :
    (rl : LoginRateLimiter) (now : ℕ) (ip : Text) (log : List ℕ)
    → Agrees rl now ip log
    → valid rl.window now (attempts_of (is_allowed rl now ip).0 ip)
      ≡ valid rl.window now (if (is_allowed rl now ip).1 then log ++ now ∷ [] else log)
unfolding is_allowed
is_allowed-kept rl now ip log h =
    let kept = valid rl.window now (attempts_of rl ip) in
    ground (
      arith,
      attempts_of-store rl ip ip kept,
      attempts_of-store (store rl ip kept) ip ip (kept ++ now ∷ []),
      text_eq_iff ip ip,
      valid_later rl.window now now (attempts_of rl ip),
      valid_later rl.window now now log,
      valid-append_now rl.window now now log,
      h,
    )

attempts_of-cleanup :
    (rl : LoginRateLimiter) (now : ℕ) (ip : Text)
    → attempts_of (cleanup rl now) ip ≡ valid rl.window now (attempts_of rl ip)
unfolding cleanup attempts_of sweep_entry valid keep
attempts_of-cleanup rl now ip = ground arith

cleanup-Agrees :
    (rl : LoginRateLimiter) (now : ℕ) (ip : Text) (log : List ℕ)
    → Agrees rl now ip log
    → valid rl.window now (attempts_of (cleanup rl now) ip) ≡ valid rl.window now log
cleanup-Agrees rl now ip log h =
    rw attempts_of-cleanup (valid_later rl.window now now (attempts_of rl ip) (omega arith) ∙ h)

granted-log :
    (most window : ℕ) (ip : Text) (log : List ℕ) (rl : LoginRateLimiter) (now : ℕ) (es : List Event)
    → rl.max_attempts ≡ most
    → rl.window ≡ window
    → valid window now (attempts_of rl ip) ≡ valid window now log
    → Ordered now es
    → granted ip rl es ≡ sliding_window most window ip log es
unfolding granted sliding_window cleanup
granted-log most window ip log rl now [] m w h o = refl
granted-log most window ip log rl now (tick at ∷ es) m w h (le, o) =
    let kept = Agrees-later rl now at ip log le (simp w h) in
    granted-log most window ip log (cleanup rl at) at es m w
      (simp (← w) (cleanup-Agrees rl at ip log kept)) o
granted-log most window ip log rl now (login j at ∷ es) m w h (le, o) =
    elim (Bool-cases (text_eq j ip)) [
      | inl here ↦
          let kept = Agrees-later rl now at ip log le (simp w h) in
          rw ((text_eq_iff j ip).0 here) (
            ground (
              arith,
              text_eq_iff ip ip,
              is_allowed-answer rl at ip log kept,
              valid-recent window at log,
              is_allowed-kept rl at ip log kept,
              is_allowed_settings rl at ip,
              granted-log most window ip (log ++ at ∷ []) (is_allowed rl at ip).0 at es,
              granted-log most window ip log (is_allowed rl at ip).0 at es,
            ))
      | inr other ↦ rw (other) (
          ground (
            arith,
            Agrees-later rl now at ip log le (simp w h),
            is_allowed-other rl at j ip other,
            is_allowed_settings rl at j,
            granted-log most window ip log (is_allowed rl at j).0 at es,
          ))
    ]

-- From a new limiter on, and for events in the order of their times, the attempts that an address
-- is granted are those that the sliding window over its whole history grants: an attempt passes
-- exactly when fewer than the maximum were granted to that address in the window before it. What
-- other addresses do, what `is_allowed` forgets and when the cleanup goroutine runs makes no
-- difference.
pub granted-sliding_window :
    (most window : ℕ) (proxies : List Text) (ip : Text) (es : List Event)
    → Ordered 0 es
    → granted ip (new_login_rate_limiter most window proxies) es
      ≡ sliding_window most window ip [] es
unfolding new_login_rate_limiter attempts_of
granted-sliding_window most window proxies ip es o =
    granted-log most window ip [] (new_login_rate_limiter most window proxies) 0 es refl refl refl o

within-le-recent :
    (w now at : ℕ) (ts : List ℕ) → now ≤ at → length (within w at ts) ≤ length (recent w now ts)
unfolding within recent keep
within-le-recent w now at [] h = omega arith
within-le-recent w now at (t ∷ ts) h = ground (arith, within-le-recent w now at ts h)

length-within-append :
    (w at now : ℕ) (log : List ℕ)
    → length (within w at (log ++ now ∷ []))
      ≡ length (within w at log) + length (within w at (now ∷ []))
unfolding within
length-within-append w at now log =
    ap length (keep-append _ log (now ∷ []))
    ∙ length-append (within w at log) (within w at (now ∷ []))

within_room :
    (most w now : ℕ) (log : List ℕ) (at : ℕ)
    → length (within w at log) ≤ most
    → length (recent w now log) < most
    → length (within w at (log ++ now ∷ [])) ≤ most
within_room most w now log at h room =
    rw length-within-append (unfold within keep in ground (arith, within-le-recent w now at log))

sliding_window-bounded :
    (most w : ℕ) (ip : Text) (log : List ℕ) (es : List Event)
    → ((at : ℕ) → length (within w at log) ≤ most)
    → (at : ℕ) → length (within w at (log ++ sliding_window most w ip log es)) ≤ most
unfolding sliding_window
sliding_window-bounded most w ip log [] h at = rw append-nil (h at)
sliding_window-bounded most w ip log (tick now ∷ es) h at =
    sliding_window-bounded most w ip log es h at
sliding_window-bounded most w ip log (login j now ∷ es) h at =
    elim (Bool-cases (text_eq j ip && ltb (length (recent w now log)) most)) [
      | inl pass ↦
          let more =
            sliding_window-bounded most w ip (log ++ now ∷ []) es
              (λ t. within_room most w now log t (h t) (ground arith)) at in
          rw pass (rw append_assoc at more)
      | inr stop ↦ rw stop (sliding_window-bounded most w ip log es h at)
    ]

-- For events in the order of their times, no interval of the window's length, wherever it ends,
-- holds more granted attempts of an address than the maximum.
pub granted-bounded :
    (most window : ℕ) (proxies : List Text) (ip : Text) (es : List Event) (at : ℕ)
    → Ordered 0 es
    → length (within window at (granted ip (new_login_rate_limiter most window proxies) es)) ≤ most
granted-bounded most window proxies ip es at o =
    rw (granted-sliding_window most window proxies ip es o)
      (sliding_window-bounded most window ip [] es (λ t. unfold within keep in omega arith) at)

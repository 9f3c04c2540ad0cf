-- ===== src/Admin/RateLimit/Tests.antt =====
-- Runs of the login rate limiter.
use octo_speech.Prelude.{
  ◌≡◌, refl, List, [], ◌∷◌, Text, codes, arith, text_eq, trim_space, trim_left, trim_right,
  is_space, keep,
}
use octo_speech.Admin.RateLimit.{
  new_login_rate_limiter, is_allowed, valid, attempts_of, store, client_ip, listed, cleanup,
  sweep_entry, before_comma,
}
use octo_speech.Admin.RateLimit.Window.{
  Event, login, tick, Ordered, granted, sliding_window, granted-sliding_window,
}

abbrev home : Text
home = codes "10.0.0.1"

abbrev proxy : Text
proxy = codes "10.0.0.9"

-- Two attempts at once, a third too early, one after the window.
abbrev attempts : List Event
attempts = login home 5 ∷ login home 6 ∷ login home 7 ∷ tick 8 ∷ login home 16 ∷ []

attempts-Ordered : Ordered 0 attempts
attempts-Ordered = (omega arith, (omega arith, (omega arith, (omega arith, (omega arith, tt)))))

granted_run : granted home (new_login_rate_limiter 2 10 []) attempts ≡ 5 ∷ 6 ∷ 16 ∷ []
unfolding granted is_allowed valid attempts_of store new_login_rate_limiter text_eq keep cleanup
    sweep_entry
granted_run = refl

client_ip_direct :
    client_ip
      (new_login_rate_limiter 5 60 (proxy ∷ []))
      (record { remote_ip = home; x_real_ip = proxy; x_forwarded_for = [] })
    ≡ home
unfolding client_ip listed new_login_rate_limiter text_eq
client_ip_direct = refl

client_ip_forwarded :
    client_ip
      (new_login_rate_limiter 5 60 (proxy ∷ []))
      (record { remote_ip = proxy; x_real_ip = []; x_forwarded_for = codes " 10.0.0.1 , 10.0.0.9" })
    ≡ home
unfolding client_ip listed new_login_rate_limiter text_eq before_comma trim_space trim_left
    trim_right is_space
client_ip_forwarded = refl

granted-sliding_window_example :
    granted home (new_login_rate_limiter 2 10 []) attempts ≡ sliding_window 2 10 home [] attempts
granted-sliding_window_example = granted-sliding_window 2 10 [] home attempts attempts-Ordered

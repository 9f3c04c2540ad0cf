-- ===== src/Admin/Site/Attempts.antt =====
-- How often a host may try to log in to the admin service.
use octo_speech.Prelude.{
  ℕ, ◌≤◌, ◌≡◌, refl, sym, ◌∙◌, Bool, true, false, not, ◌&&◌, ◌==◌, Option, List, [], ◌∷◌, Text,
  text_eq, text_eq_iff, text_eq_refl, length, keep, if◌then◌else◌, arith, Bool-cases, inl, inr, ◌*◌,
}
use octo_speech.Admin.RateLimit.{
  LoginRateLimiter, new_login_rate_limiter, client_ip, is_allowed, middleware, listed, cleanup,
  store,
}
use octo_speech.Admin.RateLimit.Window.{
  Event, login, tick, Ordered, granted, within, granted-bounded,
}
use octo_speech.Admin.Session as Session
use octo_speech.Admin.Session.Tokens.{second}
use octo_speech.Store.Registry.{Database}
use octo_speech.Admin.Site.{
  Visit, Answer, replied, with_cookies, apps, changed, Route, get_healthz, post_login, post_logout,
  get_apps, change_apps, Setup, Site, new_site, login_or_refuse, route, serve,
}
use octo_speech.Admin.Site as Site

-- A request, or a tick of the cleanup goroutine.
pub data Happening : Type 0 where
  request : Visit → Happening
  sweep : ℕ → Happening

abbrev pub at : Happening → ℕ
at (request v) = v.now
at (sweep now) = now

abbrev pub InOrder : ℕ → List Happening → Type 0
InOrder t [] = Unit
InOrder t (h ∷ hs) = (t ≤ at h) × InOrder (at h) hs

-- A login that is not answered with 429.
unfoldable pub is_tried : Route → Answer → Bool
is_tried (post_login body) (with_cookies a) = not (a.body.status == 429)
is_tried (get_healthz ping) a = false
is_tried post_logout a = false
is_tried (get_apps status keyword) a = false
is_tried (change_apps command) a = false
is_tried (post_login body) (replied r) = false
is_tried (post_login body) (apps r) = false
is_tried (post_login body) (changed r) = false

unfoldable pub login_event : LoginRateLimiter → Visit → Route → List Event → List Event
login_event rl v (get_healthz ping) es = es
login_event rl v (post_login body) es = login (client_ip rl v.remote) v.now ∷ es
login_event rl v post_logout es = es
login_event rl v (get_apps status keyword) es = es
login_event rl v (change_apps command) es = es

-- What the limiter sees of it all.
unfoldable pub logins : LoginRateLimiter → List Happening → List Event
logins rl [] = []
logins rl (sweep now ∷ hs) = tick now ∷ logins rl hs
logins rl (request v ∷ hs) = login_event rl v v.route (logins rl hs)

and_parts : (a b : Bool) → (a && b) ≡ true → (a ≡ true) × (b ≡ true)
and_parts a b h = ground arith

both_true : {a b : Bool} → a ≡ true → b ≡ true → (a && b) ≡ true
both_true {a} {b} h k = ground arith

module _ (d : Database) (setup : Setup d) where
  -- The times at which a login that a host sends itself is tried.
  unfoldable pub tried : Text → Site d → List Happening → List ℕ
  tried host s [] = []
  tried host s (sweep now ∷ hs) = tried host (Site.tick d setup s now) hs
  tried host s (request v ∷ hs) =
      let rest = tried host (serve d setup s v).0 hs in
      if is_tried v.route (serve d setup s v).1 && text_eq v.remote.remote_ip host
      then v.now ∷ rest
      else rest

  -- One more on both sides, or only on that of the limiter.
  keep-le :
      (p : ℕ → Bool) (now : ℕ) (few many : List ℕ) (a b : Bool)
      → (a ≡ true → b ≡ true)
      → length (keep p few) ≤ length (keep p many)
      → length (keep p (if a then now ∷ few else few))
        ≤ length (keep p (if b then now ∷ many else many))
  unfolding keep
  keep-le p now few many true true imp h = ground (arith, h)
  keep-le p now few many true false imp h = absurd (ground (arith, imp refl))
  keep-le p now few many false true imp h = ground (arith, h)
  keep-le p now few many false false imp h = h

  -- A login that is tried was allowed.
  tried-is_allowed :
      (rl : LoginRateLimiter) (v : Visit) (body : Option Session.Credentials)
      → is_tried
          (post_login body)
          (with_cookies (login_or_refuse d setup v body (middleware rl v.now v.remote).1))
        ≡ true
      → (is_allowed rl v.now (client_ip rl v.remote)).1 ≡ true
  unfolding is_tried login_or_refuse middleware
  tried-is_allowed rl v body h = elim (Bool-cases (is_allowed rl v.now (client_ip rl v.remote)).1) [
    | inl ok ↦ ok
    | inr stop ↦ absurd (ground arith)
  ]

  client_ip_host :
      (rl : LoginRateLimiter) (host : Text) (v : Visit)
      → listed host rl.trusted_proxies ≡ false
      → text_eq v.remote.remote_ip host ≡ true
      → text_eq (client_ip rl v.remote) host ≡ true
  unfolding client_ip
  client_ip_host rl host v plain same =
      rw ((text_eq_iff v.remote.remote_ip host).0 same, plain) (text_eq_refl host)

  client_ip_same :
      (rl rl' : LoginRateLimiter) (v : Visit)
      → rl.trusted_proxies ≡ rl'.trusted_proxies
      → client_ip rl v.remote ≡ client_ip rl' v.remote
  unfolding client_ip
  client_ip_same rl rl' v e = rw e refl

  abbrev Bounded : Text → ℕ → ℕ → LoginRateLimiter → Site d → List Happening → Type 0
  Bounded host w when rl s hs =
      length (within w when (tried host s hs))
      ≤ length (within w when (granted host s.limiter (logins rl hs)))

  route-Bounded :
      (host : Text) (w when : ℕ) (rl : LoginRateLimiter) (s : Site d) (v : Visit) (rt : Route)
      (hs : List Happening)
      → v.route ≡ rt
      → rl.trusted_proxies ≡ s.limiter.trusted_proxies
      → listed host s.limiter.trusted_proxies ≡ false
      → Bounded host w when rl (route d setup s v rt).0 hs
      → Bounded host w when rl s (request v ∷ hs)
  unfolding route logins tried serve granted within is_tried middleware login_event
  route-Bounded host w when rl s v (get_healthz ping) hs is same plain h = rw is h
  route-Bounded host w when rl s v post_logout hs is same plain h = rw is h
  route-Bounded host w when rl s v (get_apps status keyword) hs is same plain h = rw is h
  route-Bounded host w when rl s v (change_apps command) hs is same plain h = rw is h
  route-Bounded host w when rl s v (post_login body) hs is same plain h =
      rw (is, client_ip_same rl s.limiter v same)
        (keep-le _ v.now _ _ _ _
          (λ e.
            let (tried, host_is) = and_parts _ _ e in
            both_true (tried-is_allowed s.limiter (record v { route = post_login body }) body tried)
              (client_ip_host s.limiter host v plain host_is))
          h)

  route_proxies :
      (s : Site d) (v : Visit) (rt : Route)
      → (route d setup s v rt).0.limiter.trusted_proxies ≡ s.limiter.trusted_proxies
  unfolding route middleware is_allowed store
  route_proxies s v (get_healthz ping) = refl
  route_proxies s v post_logout = refl
  route_proxies s v (get_apps status keyword) = refl
  route_proxies s v (change_apps command) = refl
  route_proxies s v (post_login body) = ground arith

  tried-Bounded :
      (host : Text) (w when : ℕ) (rl : LoginRateLimiter) (s : Site d) (hs : List Happening)
      → rl.trusted_proxies ≡ s.limiter.trusted_proxies
      → listed host s.limiter.trusted_proxies ≡ false
      → Bounded host w when rl s hs
  unfolding tried granted logins within keep Site.tick cleanup
  tried-Bounded host w when rl s [] same plain = omega arith
  tried-Bounded host w when rl s (sweep now ∷ hs) same plain =
      tried-Bounded host w when rl (Site.tick d setup s now) hs same plain
  tried-Bounded host w when rl s (request v ∷ hs) same plain =
      let kept = route_proxies s v v.route in
      route-Bounded host w when rl s v v.route hs refl same plain (
        tried-Bounded host w when rl (route d setup s v v.route).0 hs (same ∙ sym kept)
          (rw kept plain))

  Ordered-weaken : (t t' : ℕ) (es : List Event) → t ≤ t' → Ordered t' es → Ordered t es
  Ordered-weaken t t' [] le o = tt
  Ordered-weaken t t' (e ∷ es) le (first, o) = (omega (arith, le, first), o)

  Ordered-login_event :
      (rl : LoginRateLimiter) (v : Visit) (rt : Route) (t : ℕ) (es : List Event)
      → t ≤ v.now
      → Ordered v.now es
      → Ordered t (login_event rl v rt es)
  unfolding login_event
  Ordered-login_event rl v (get_healthz ping) t es le o = Ordered-weaken t v.now es le o
  Ordered-login_event rl v (post_login body) t es le o = (le, o)
  Ordered-login_event rl v post_logout t es le o = Ordered-weaken t v.now es le o
  Ordered-login_event rl v (get_apps status keyword) t es le o = Ordered-weaken t v.now es le o
  Ordered-login_event rl v (change_apps command) t es le o = Ordered-weaken t v.now es le o

  Ordered-logins :
      (rl : LoginRateLimiter) (t : ℕ) (hs : List Happening)
      → InOrder t hs
      → Ordered t (logins rl hs)
  unfolding logins
  Ordered-logins rl t [] o = tt
  Ordered-logins rl t (sweep now ∷ hs) (le, o) = (le, Ordered-logins rl now hs o)
  Ordered-logins rl t (request v ∷ hs) (le, o) =
      Ordered-login_event rl v v.route t (logins rl hs) le (Ordered-logins rl v.now hs o)

  -- From its start on, and for happenings in the order of their times, the admin service tries no
  -- more than five logins that come from one host in any minute, whatever headers they carry and
  -- whatever else happens, if the host is not a trusted proxy: the others are answered with 429.
  pub length-tried_le :
      (db : d.State) (host : Text) (hs : List Happening) (when : ℕ)
      → InOrder 0 hs
      → listed host setup.cfg.trusted_proxies ≡ false
      → length (within (60 * second) when (tried host (new_site d setup db) hs)) ≤ 5
  unfolding new_site new_login_rate_limiter
  length-tried_le db host hs when o plain =
      let rl = new_login_rate_limiter 5 (60 * second) setup.cfg.trusted_proxies in
      let most =
        granted-bounded 5 (60 * second) setup.cfg.trusted_proxies host (logins rl hs) when
          (Ordered-logins rl 0 hs o) in
      let fewer = tried-Bounded host (60 * second) when rl (new_site d setup db) hs refl plain in
      omega (arith, most, fewer)

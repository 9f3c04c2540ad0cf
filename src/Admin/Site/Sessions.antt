-- ===== src/Admin/Site/Sessions.antt =====
-- Which request to the admin service changes the registry.
use octo_speech.Prelude.{
  ℕ, ◌<◌, ◌≡◌, refl, sym, ap, ◌∙◌, ◌≢◌, true, Option, some, none, List, [], ◌∷◌, Text, inl, inr, In,
  here, there, some-injective,
}
use octo_speech.Prelude.Http.{Reply, Outcome, Outcome-cases, abort, pass}
use octo_speech.Prelude.Hex.{hex_encode}
use octo_speech.Admin.RateLimit.{middleware}
use octo_speech.Admin.Session.{Credentials, login, logout, clear_auth_cookies, protected}
use octo_speech.Admin.Session.Guards.{protected-pass_iff, cookie_value}
use octo_speech.Admin.Session.Tokens.{IsJwt, sign_jwt, verify_jwt, fits_duration}
use octo_speech.Admin.Session.Lifetime.{login_token, session_end, verify_in_time}
use octo_speech.Admin.Apps.{Command}
use octo_speech.Admin.Apps as Apps
use octo_speech.Store.Registry.{Database}
use octo_speech.Admin.Site.{
  Visit, Answer, replied, with_cookies, apps, changed, get_healthz, post_login, post_logout,
  get_apps, change_apps, Setup, Route, Site, new_site, login_or_refuse, logout_as, route, serve,
  tick,
}

-- The session token that an answer sets, none if it sets none.
unfoldable pub token_of : Answer → Option Text
token_of (replied r) = none
token_of (with_cookies a) = cookie_value "token" a.cookies
token_of (apps a) = none
token_of (changed a) = none

-- What came before: the requests with their answers, the last one first.
abbrev pub History : Type 0
History = List (Visit × Answer)

-- Tokens cannot be forged: one that verifies came with an answer before.
abbrev pub IsHeld : (Text → Option Text) → History → Option Text → Type 0
IsHeld verify history token =
    (t username : Text)
    → token ≡ some t
    → verify t ≡ some username
    → (e : Visit × Answer) × In e history × (token_of e.1 ≡ some t)

module _ (d : Database) (setup : Setup d) where
  abbrev verify_at : ℕ → Text → Option Text
  verify_at now token = verify_jwt setup.jwt now token setup.cfg.jwt_secret

  -- The states that the service reaches from a database, in one process or several, with what it
  -- has answered in all of them.
  pub data Run (db : d.State) : History → Site d → Type 0 where
    start : Run db [] (new_site d setup db)
    -- A new process with the same settings, over what the database has become.
    restarted :
        {history : History} {s : Site d} (later : d.State)
        → Run db history s
        → Run db history (new_site d setup later)
    visited :
        {history : History} {s : Site d} (v : Visit)
        → Run db history s
        → IsHeld (verify_at v.now) history v.session.token
        → Run db ((v, (serve d setup s v).1) ∷ history) (serve d setup s v).0
    swept :
        {history : History} {s : Site d} (now : ℕ)
        → Run db history s
        → Run db history (tick d setup s now)

  answered :
      {db : d.State} {history : History} {s : Site d} (e : Visit × Answer)
      → Run db history s
      → In e history
      → (s' : Site d) × (e.1 ≡ (serve d setup s' e.0).1)
  answered e start at = elim at [ ]
  answered e (swept now r) at = answered e r at
  answered e (restarted later r) at = answered e r at
  answered e (visited {s = s} v r held) here = (s, refl)
  answered e (visited v r held) (there at) = answered e r at

  -- A login of the operator, with its token.
  pub record Opened (v : Visit) (token : Text) : Type 0 where
    pub req : Credentials
    pub is_login : v.route ≡ post_login (some req)
    pub name : req.username ≡ setup.cfg.username
    pub password : setup.matches setup.cfg.password_hash req.password ≡ true
    pub signed :
        sign_jwt setup.jwt v.signed_at v.issued_at setup.cfg.username setup.cfg.jwt_secret
          setup.cfg.token_expire
        ≡ some token

  logout_token :
      (o : Outcome Text) (token : Text)
      → cookie_value "token" (logout_as d setup o).cookies ≡ some token
      → token ≡ []
  unfolding logout_as logout clear_auth_cookies cookie_value
  logout_token (abort r) token h = absurd (cc)
  logout_token (pass username) token h = sym (some-injective h)

  refused_token :
      (v : Visit) (body : Option Credentials) (st : Option ℕ) (token : Text)
      → cookie_value "token" (login_or_refuse d setup v body st).cookies ≡ some token
      → cookie_value "token"
          (login setup.matches
            (sign_jwt setup.jwt v.signed_at v.issued_at)
            (hex_encode v.csrf_bytes)
            setup.cfg
            body).cookies
        ≡ some token
  unfolding login_or_refuse cookie_value
  refused_token v body none token h = h
  refused_token v body (some status) token h = absurd (cc)

  route-Opened :
      (s : Site d) (v : Visit) (rt : Route) (token : Text)
      → v.route ≡ rt
      → token_of (route d setup s v rt).1 ≡ some token
      → token ≢ []
      → Opened v token
  unfolding route token_of
  route-Opened s v (get_healthz ping) token is h full = absurd (cc)
  route-Opened s v (get_apps status keyword) token is h full = absurd (cc)
  route-Opened s v (change_apps command) token is h full = absurd (cc)
  route-Opened s v post_logout token is h full = absurd (full (logout_token _ token h))
  route-Opened s v (post_login body) token is h full =
      let (req, given, name, right, signed) =
        login_token setup.matches (sign_jwt setup.jwt v.signed_at v.issued_at)
          (hex_encode v.csrf_bytes) setup.cfg body token
          (refused_token v body (middleware s.limiter v.now v.remote).1 token h) in
      record {
        req = req;
        is_login = is ∙ ap post_login given;
        name = name;
        password = right;
        signed = signed;
      }

  -- Only a login of the operator sets a token that is not empty.
  serve-Opened :
      (s : Site d) (v : Visit) (token : Text)
      → token_of (serve d setup s v).1 ≡ some token
      → token ≢ []
      → Opened v token
  unfolding serve
  serve-Opened s v token h full = route-Opened s v v.route token refl h full

  -- What lets a request change the registry: a session that has not ended.
  pub record Entitled (history : History) (v : Visit) : Type 0 where
    pub command : Command
    pub is_change : v.route ≡ change_apps command
    pub token : Text
    pub carries : v.session.token ≡ some token
    pub opener : Visit × Answer
    pub before : In opener history
    pub opened : Opened opener.0 token
    pub in_time : v.now < session_end setup.cfg opener.0.signed_at

  -- A request that passes the guards carries a session that the operator has opened.
  protected-Entitled :
      (laws : IsJwt setup.jwt) {db : d.State} {history : History} {s : Site d} (v : Visit)
      (command : Command) (operator : Text)
      → fits_duration setup.cfg.token_expire ≡ true
      → Run db history s
      → IsHeld (verify_at v.now) history v.session.token
      → v.route ≡ change_apps command
      → protected (verify_jwt setup.jwt v.now) setup.cfg.jwt_secret v.session ≡ pass operator
      → Entitled history v
  protected-Entitled laws v command operator fits run held is h =
      let (token, cookie, has, full, verified, _, _, _) =
        (protected-pass_iff (verify_jwt setup.jwt v.now) setup.cfg.jwt_secret v.session operator).0
          h in
      let (e, at, given) = held token operator has verified in
      let (s', same) = answered e run at in
      let opened = serve-Opened s' e.0 token (sym (ap token_of same) ∙ given) full in
      record {
        command = command;
        is_change = is;
        token = token;
        carries = has;
        opener = e;
        before = at;
        opened = opened;
        in_time =
            (verify_in_time setup.jwt laws e.0.signed_at e.0.issued_at v.now setup.cfg token
              operator fits opened.signed verified).1;
      }

  guarded :
      (v : Visit) (command : Command) (s : Site d) (refusal : Reply)
      → protected (verify_jwt setup.jwt v.now) setup.cfg.jwt_secret v.session ≡ abort refusal
      → (route d setup s v (change_apps command)).0.server ≡ s.server
  unfolding route Apps.serve Apps.serve_as
  guarded v command s refusal e = rw e refl

  route-Entitled :
      (laws : IsJwt setup.jwt) {db : d.State} {history : History} {s : Site d} (v : Visit)
      (rt : Route)
      → fits_duration setup.cfg.token_expire ≡ true
      → Run db history s
      → IsHeld (verify_at v.now) history v.session.token
      → v.route ≡ rt
      → (route d setup s v rt).0.server ≢ s.server
      → Entitled history v
  unfolding route
  route-Entitled laws v (get_healthz ping) fits run held is differs = absurd (differs refl)
  route-Entitled laws v (post_login body) fits run held is differs = absurd (differs refl)
  route-Entitled laws v post_logout fits run held is differs = absurd (differs refl)
  route-Entitled laws v (get_apps status keyword) fits run held is differs = absurd (differs refl)
  route-Entitled laws {s = s} v (change_apps command) fits run held is differs =
      elim (Outcome-cases (protected (verify_jwt setup.jwt v.now) setup.cfg.jwt_secret v.session)) [
        | inl (refusal, e) ↦ absurd (differs (guarded v command s refusal e))
        | inr (operator, e) ↦ protected-Entitled laws v command operator fits run held is e
      ]

  -- In every run of the admin service, restarts with the same settings included, a request that
  -- changes its database or the cache of its store is one to a route that writes, and carries the
  -- token of an earlier login with the operator's name and a password that bcrypt accepts, whose
  -- hours are not over, provided that the hours of a token fit into a duration, the JWT library
  -- keeps its promises and no token is forged: one that verifies came with an earlier answer.
  pub serve-Entitled :
      (laws : IsJwt setup.jwt) (db : d.State) (history : History) (s : Site d) (v : Visit)
      → fits_duration setup.cfg.token_expire ≡ true
      → Run db history s
      → IsHeld (verify_at v.now) history v.session.token
      → (serve d setup s v).0.server ≢ s.server
      → Entitled history v
  unfolding serve
  serve-Entitled laws db history s v fits run held differs =
      route-Entitled laws v v.route fits run held refl differs

-- ===== src/Admin/Apps/Admit.antt =====
-- How the service answers a request with an API key, by the rows of the registry.
use octo_speech.Prelude.{
  ℕ, ◌+◌, ◌≤◌, ◌≡◌, refl, sym, ap, ◌∙◌, ◌⊎◌, inl, inr, Option, some, none, Option-cases, arith,
  List, ◌++◌, Text, if◌then◌else◌, subst,
}
use octo_speech.Prelude.Http.{reply, Outcome, abort, pass, pass-injective}
use octo_speech.Store.App
use octo_speech.Store.App.{
  AppInfo, AppStore, Row, row, no_rows, db_error, AuthResult, found, absent, failed, cached,
  remember, StoreError,
}
use octo_speech.Store.App.Staleness.{Reach, cached-recent}
use octo_speech.Store.Rows.{AppRow, AuditRow, Tables, add_audit, find_key}
use octo_speech.Store.Registry.{Database, IsDatabase, Server, row_of, authenticate}
use octo_speech.Api.Auth.{bearer, auth_middleware, is_zero}
use octo_speech.Api.Auth.Admission.{auth_middleware-bearer}
use octo_speech.Admin.Apps.{Command, Done, Chance, perform}
use octo_speech.Admin.Apps.Contract.{Describes, Performs, store_after}
use octo_speech.Admin.Apps.Contract.Handlers.{perform-Performs}

-- The middleware's answer for what the database holds of a key.
abbrev pub verdict : Row → Outcome Text
verdict no_rows = abort (reply 401 "invalid api key")
verdict db_error = abort (reply 500 "authentication error")
verdict (row info) =
    if is_zero info.status then abort (reply 403 "application is disabled") else pass info.app_id

module _ (d : Database) (hash : Text → Text) where
  -- A request with an API key at a server with the given database.
  unfoldable pub admit : Server d → ℕ → ℕ → Text → Outcome Text
  admit s now written key =
      auth_middleware (λ k. (authenticate d hash s now written k).1) (bearer ++ key)

  admit-row :
      (s : Server d) (now written : ℕ) (key : Text) (w : Row)
      → cached s.store now (hash key) ≡ none
      → d.select_key s.db (hash key) ≡ w
      → admit s now written key ≡ verdict w
  unfolding admit authenticate App.authenticate
  admit-row s now written key no_rows miss e = rw (auth_middleware-bearer) (rw (miss, e) refl)
  admit-row s now written key db_error miss e = rw (auth_middleware-bearer) (rw (miss, e) refl)
  admit-row s now written key (row info) miss e = rw (auth_middleware-bearer) (rw (miss, e) refl)

  -- The answer is the database's, or 500.
  abbrev pub Answers : Server d → ℕ → ℕ → Text → Outcome Text → Type 0
  Answers s now written key answer =
      (admit s now written key ≡ abort (reply 500 "authentication error"))
      ⊎ (admit s now written key ≡ answer)

  pub admit-Answers :
      (s : Server d) (now written : ℕ) (key : Text) (o : Option AppRow)
      → IsDatabase d
      → cached s.store now (hash key) ≡ none
      → find_key d.same (hash key) (d.tables s.db).apps ≡ o
      → Answers s now written key (verdict (row_of o))
  admit-Answers s now written key o laws miss e = elim (laws.key_answer s.db (hash key)) [
    | inl error ↦ inl (admit-row s now written key db_error miss error)
    | inr answer ↦ inr (admit-row s now written key (row_of o) miss (rw (← e) answer))
  ]

  admit-cached :
      (s : Server d) (now written : ℕ) (key : Text) (info : AppInfo)
      → cached s.store now (hash key) ≡ some info
      → admit s now written key ≡ verdict (row info)
  unfolding admit authenticate App.authenticate
  admit-cached s now written key info hit = rw (auth_middleware-bearer) (rw hit refl)

  -- A process that has queried a database over time answers, once its old answers have run out, by
  -- the rows that stand from a moment on.
  pub settled-Answers :
      (world : ℕ → d.State) (moment delay ttl now written : ℕ) (store : AppStore) (key : Text)
      (rows : List AppRow) (o : Option AppRow)
      → IsDatabase d
      → Reach (λ t k. d.select_key (world t) k) delay ttl store
      → ((t : ℕ) → moment ≤ t → (d.tables (world t)).apps ≡ rows)
      → moment + (delay + ttl) ≤ now
      → find_key d.same (hash key) rows ≡ o
      → Answers (record { db = world now; store = store }) now written key (verdict (row_of o))
  settled-Answers world moment delay ttl now written store key rows o laws r stands late e =
      let s : Server d = record { db = world now; store = store } in
      elim (Option-cases (cached store now (hash key))) [
        | inl miss ↦ admit-Answers s now written key o laws miss (rw (stands now (omega arith)) e)
        | inr (info, hit) ↦
            let (at, answer, life) =
              cached-recent (λ t k. d.select_key (world t) k) delay ttl store now (hash key) info r
                hit in
            elim (laws.key_answer (world at) (hash key)) [
              | inl error ↦ absurd (cc)
              | inr read ↦
                  let rows_at = stands at (omega (arith, late, life)) in
                  let same : row info ≡ row_of o = sym answer ∙ read ∙ rw (rows_at, e) refl in
                  inr (admit-cached s now written key info hit ∙ ap verdict same)
            ]
      ]

-- The rows of applications behind an answer of success.
module _ (d : Database) (hash : Text → Text) (laws : IsDatabase d) (operator : Text) (c : Chance)
    (command : Command) (r : Server d) (done : Done) where
  passed :
      (p : Server d × Outcome Done)
      → Performs d hash r operator command p
      → p.1 ≡ pass done
      → (t : Tables) × (e : AuditRow) × Describes d hash r operator command done t e
        × ((d.tables p.0.db).apps ≡ t.apps)
  unfolding add_audit
  passed (s, abort refusal) h e = cc
  passed (s, pass done') (store, (t, e, described, inl written)) same = (
    t,
    e,
    subst (λ x. Describes d hash r operator command x t e) (pass-injective same) described,
    ap (λ (t : Tables). t.apps) written,
  )
  passed (s, pass done') (store, (t, e, described, inr (there, _, _))) same = (
    t,
    e,
    subst (λ x. Describes d hash r operator command x t e) (pass-injective same) described,
    ap (λ (t : Tables). t.apps) there,
  )

  passed_store :
      (p : Server d × Outcome Done)
      → Performs d hash r operator command p
      → p.1 ≡ pass done
      → p.0.store ≡ store_after d hash command r.store
  passed_store (s, abort refusal) h e = cc
  passed_store (s, pass done') h e = h.0

  pub perform-store_after :
      (perform d hash operator c command r).1 ≡ pass done
      → (perform d hash operator c command r).0.store ≡ store_after d hash command r.store
  perform-store_after =
      passed_store (perform d hash operator c command r)
        (perform-Performs d hash operator c command r laws)

  pub perform-passed :
      (perform d hash operator c command r).1 ≡ pass done
      → (t : Tables) × (e : AuditRow) × Describes d hash r operator command done t e
        × ((d.tables (perform d hash operator c command r).0.db).apps ≡ t.apps)
  perform-passed =
      passed (perform d hash operator c command r)
        (perform-Performs d hash operator c command r laws)

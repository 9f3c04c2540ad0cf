-- ===== src/Admin/Apps/Keys.antt =====
-- Which API keys the service lets in behind a command of the admin service.
use octo_speech.Prelude.{
  ℕ, ◌+◌, ◌≤◌, ◌≡◌, refl, ap, ◌∙◌, true, false, Option, some, none, Text, List, if◌then◌else◌,
  subst,
}
use octo_speech.Prelude.Http.{reply, Outcome, abort, pass}
use octo_speech.Prelude.Int.{ℤ}
use octo_speech.Store.App.{AppStore, cached, lookup, invalidate_cache}
use octo_speech.Store.App.Staleness.{Reach}
use octo_speech.Store.Rows.{
  AppRow, Tables, new_row, add_app, with_status, with_key, without_configs, without_profiles,
  without_apps, find_app, find_key, is_unique,
}
use octo_speech.Store.Rows.Find.{
  find_key-set_status, find_key-inserted, find_key-replaced, find_key-set_key, find_key-deleted,
}
use octo_speech.Store.Registry.{Database, IsDatabase, Server, row_of}
use octo_speech.Store.Registry.Contract.{without}
use octo_speech.Api.Auth.{is_zero}
use octo_speech.Admin.Apps.{
  Command, create_app, set_status, delete_app, reset_key, created, updated, deleted, key_reset,
  Done, Chance, perform,
}
use octo_speech.Admin.Apps.Contract.{store_after}
use octo_speech.Admin.Apps.Admit.{
  verdict, Answers, admit-Answers, settled-Answers, perform-store_after, perform-passed,
}

module _ (d : Database) (hash : Text → Text) (operator : Text) (c : Chance) (r : Server d)
    (store : AppStore) (now written : ℕ) where
  -- A server over the database that a command leaves, with any cache.
  abbrev pub behind : Command → Server d
  behind command = record { db = (perform d hash operator c command r).0.db; store = store }

  behind-Answers :
      (command : Command) (rows : List AppRow) (o : Option AppRow) (key : Text)
      → IsDatabase d
      → cached store now (hash key) ≡ none
      → (d.tables (behind command).db).apps ≡ rows
      → find_key d.same (hash key) rows ≡ o
      → Answers d hash (behind command) now written key (verdict (row_of o))
  behind-Answers command rows o key laws miss same e =
      admit-Answers d hash (behind command) now written key o laws miss (rw same e)

  behind_unique :
      (command : Command) (rows : List AppRow)
      → IsDatabase d
      → (d.tables (behind command).db).apps ≡ rows
      → is_unique d.same rows ≡ true
  behind_unique command rows laws same =
      subst (λ x. is_unique d.same x ≡ true) same (laws.unique (behind command).db)

  -- The API key that CreateApp answers opens the service, for the new application: a request with
  -- it passes the authentication of every server that has no cached answer for the key, unless the
  -- database reports an error.
  pub created-admit :
      (raw id name key time : Text)
      → IsDatabase d
      → (perform d hash operator c (create_app (some raw)) r).1 ≡ pass (created id name key time)
      → cached store now (hash key) ≡ none
      → Answers d hash (behind (create_app (some raw))) now written key (pass id)
  unfolding add_app
  created-admit raw id name key time laws ok miss =
      let (t, e, (n, at, made, _, _, _), apps) =
        perform-passed d hash laws operator c (create_app (some raw)) r (created id name key time)
          ok in
      let row = new_row n at id name (hash key) in
      let rows = apps ∙ ap (λ (t : Tables). t.apps) made in
      behind-Answers (create_app (some raw)) _ (some row) key laws miss rows (
        find_key-inserted d.same laws.same_refl laws.same_sym laws.same_trans row
          (d.tables r.db).apps (behind_unique (create_app (some raw)) _ laws rows))

  -- No key of a deleted application passes the authentication.
  pub deleted-admit :
      (id key : Text) (app : AppRow)
      → IsDatabase d
      → (perform d hash operator c (delete_app id) r).1 ≡ pass deleted
      → find_key d.same (hash key) (d.tables r.db).apps ≡ some app
      → d.same app.app_id id ≡ true
      → cached store now (hash key) ≡ none
      → Answers d hash
          (behind (delete_app id))
          now
          written
          key
          (abort (reply 401 "invalid api key"))
  unfolding without without_apps without_profiles without_configs
  deleted-admit id key app laws ok held is miss =
      let (t, e, (name, made, _, _, _), apps) =
        perform-passed d hash laws operator c (delete_app id) r deleted ok in
      behind-Answers (delete_app id) _ none key laws miss (apps ∙ ap (λ (t : Tables). t.apps) made)
        (find_key-deleted d.same laws.same_refl laws.same_sym laws.same_trans (hash key) id
            (d.tables r.db).apps app (laws.unique r.db) held
          ∙ rw is refl)

-- The service over time: `world` is its database, whose applications stand from `moment` on as the
-- command left them, and `store` is the store of a process of it, whatever its calls have cached.
module _ (d : Database) (hash : Text → Text) (operator : Text) (c : Chance) (r : Server d)
    (world : ℕ → d.State) (moment delay ttl soon now written : ℕ) (store : AppStore) where
  -- The server that has carried the command out.
  abbrev pub done_at : Command → Server d
  done_at command = (perform d hash operator c command r).0

  abbrev pub Stands : Command → Type 0
  Stands command =
      (t : ℕ) → moment ≤ t → (d.tables (world t)).apps ≡ (d.tables (done_at command).db).apps

  -- The answer to a key, at once at the store that has carried the command out, and at `now` at the
  -- process of the service.
  abbrev pub Settled : Command → Text → Outcome Text → Type 0
  Settled command key answer =
      Answers d hash (done_at command) soon soon key answer
      × Answers d hash (record { db = world now; store = store }) now written key answer

  settled :
      (command : Command) (done : Done) (rows : List AppRow) (o : Option AppRow) (key : Text)
      → IsDatabase d
      → (perform d hash operator c command r).1 ≡ pass done
      → store_after d hash command r.store ≡ invalidate_cache r.store
      → Reach (λ t k. d.select_key (world t) k) delay ttl store
      → Stands command
      → moment + (delay + ttl) ≤ now
      → (d.tables (done_at command).db).apps ≡ rows
      → find_key d.same (hash key) rows ≡ o
      → Settled command key (verdict (row_of o))
  unfolding cached invalidate_cache lookup
  settled command done rows o key laws ok clears reached stands late same e =
      let emptied = perform-store_after d hash laws operator c command r done ok ∙ clears in
      let miss : cached (done_at command).store soon (hash key) ≡ none = rw emptied refl in
      (
        admit-Answers d hash (done_at command) soon soon key o laws miss (rw same e),
        settled-Answers d hash world moment delay ttl now written store key _ o laws reached stands
            late (rw same e),
      )

  -- Behind a change of the status each key of the application is refused with 403 if it was
  -- disabled, and lets its application in if it was enabled, unless the database reports an error:
  -- at once where the change was made, and in each process of the service, which may go on with
  -- what it has cached, when its time of life and the delay of a query are over and the
  -- applications still stand as the command left them.
  pub updated-admit :
      (id : Text) (new : ℤ) (key : Text) (app : AppRow)
      → IsDatabase d
      → (perform d hash operator c (set_status id (some new)) r).1 ≡ pass updated
      → find_key d.same (hash key) (d.tables r.db).apps ≡ some app
      → d.same app.app_id id ≡ true
      → Reach (λ t k. d.select_key (world t) k) delay ttl store
      → Stands (set_status id (some new))
      → moment + (delay + ttl) ≤ now
      → Settled
          (set_status id (some new))
          key
          (if is_zero new then abort (reply 403 "application is disabled") else pass app.app_id)
  unfolding with_status
  updated-admit id new key app laws ok held is reached stands late =
      let (t, e, (name, (at, made), _, _, _, _), apps) =
        perform-passed d hash laws operator c (set_status id (some new)) r updated ok in
      let (q, there, same_app, status) =
        find_key-set_status d.same (hash key) id new at (d.tables r.db).apps app held in
      let status' : q.status ≡ new = rw is at status in
      subst (Settled (set_status id (some new)) key) (rw (status', same_app) refl) (
        settled (set_status id (some new)) updated _ (some q) key laws ok refl reached stands late
          (apps ∙ ap (λ (t : Tables). t.apps) made) there)

  -- A replaced key opens nothing, and the key that ResetKey answers opens what the old one opened:
  -- the same application, or 403 if it is disabled; again at once where the key was replaced, and
  -- in each process of the service when the life of what it has cached and the delay of a query are
  -- over and the applications still stand as the command left them, and unless the database reports
  -- an error. The hashes of the two keys are different for the database.
  pub reset-admit :
      (id key old : Text) (app : AppRow)
      → IsDatabase d
      → (perform d hash operator c (reset_key id) r).1 ≡ pass (key_reset key)
      → find_key d.same (hash old) (d.tables r.db).apps ≡ some app
      → find_app d.same id (d.tables r.db).apps ≡ some app
      → d.same app.app_id id ≡ true
      → d.same (hash key) (hash old) ≡ false
      → Reach (λ t k. d.select_key (world t) k) delay ttl store
      → Stands (reset_key id)
      → moment + (delay + ttl) ≤ now
      → Settled (reset_key id) old (abort (reply 401 "invalid api key"))
        × Settled (reset_key id) key (verdict (row_of (some app)))
  unfolding with_key
  reset-admit id key old app laws ok held there_is is other reached stands late =
      let (t, e, (name, (at, made), _, _, _), apps) =
        perform-passed d hash laws operator c (reset_key id) r (key_reset key) ok in
      let rows = apps ∙ ap (λ (t : Tables). t.apps) made in
      let (q, there, same_app, status) =
        find_key-set_key d.same laws.same_refl laws.same_sym laws.same_trans id (hash key) at
          (d.tables r.db).apps app
          (behind_unique d hash operator c r store now written (reset_key id) _ laws rows)
          there_is in
      (
        settled (reset_key id) (key_reset key) _ none old laws ok refl reached stands late rows (
            find_key-replaced d.same laws.same_refl laws.same_sym laws.same_trans (hash old) id
              (hash key) at (d.tables r.db).apps app (laws.unique r.db) held is other),
        subst (Settled (reset_key id) key) (rw (status, same_app) refl) (
            settled (reset_key id) (key_reset key) _ (some q) key laws ok refl reached stands late
              rows there),
      )

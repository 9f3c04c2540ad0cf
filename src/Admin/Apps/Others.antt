-- ===== src/Admin/Apps/Others.antt =====
-- A command on one application against the keys of the others.
use octo_speech.Prelude.{
  ℕ, ◌≡◌, refl, sym, ap, subst, ◌∙◌, inl, inr, Bool, true, false, some, none, Text, List,
}
use octo_speech.Prelude.Http.{Outcome, abort, pass}
use octo_speech.Store.App.{AppStore, cached}
use octo_speech.Store.Rows.{
  AppRow, Tables, add_app, add_audit, with_status, with_key, without_configs, without_profiles,
  without_apps, find_key, is_unique,
}
use octo_speech.Store.Rows.Find.{
  find_key-append, find_key-set_status, find_key-set_key_other, find_key-deleted,
}
use octo_speech.Store.Registry.{Database, IsDatabase, Server, row_of}
use octo_speech.Store.Registry.Contract.{without}
use octo_speech.Admin.Apps.{
  Command, create_app, set_status, delete_app, reset_key, Done, Chance, perform,
}
use octo_speech.Admin.Apps.Contract.{Requested, Performs}
use octo_speech.Admin.Apps.Contract.Handlers.{perform-Performs}
use octo_speech.Admin.Apps.Audited.{Describes-Requested}
use octo_speech.Admin.Apps.Admit.{verdict, Answers, admit-Answers}

-- Whether a command names an application.
abbrev pub names : (Text → Text → Bool) → Command → Text → Bool
names same (create_app body) app = false
names same (set_status id body) app = same app id
names same (delete_app id) app = same app id
names same (reset_key id) app = same app id

module _ (d : Database) (hash : Text → Text) (laws : IsDatabase d) (operator : Text) (r : Server d)
    (key : Text) (app : AppRow) (held : find_key d.same key (d.tables r.db).apps ≡ some app) where
  -- The key still finds the application, with its status.
  abbrev Kept : List AppRow → Type 0
  Kept rows =
      (q : AppRow) × (find_key d.same key rows ≡ some q)
      × (q.app_id ≡ app.app_id)
      × (q.status ≡ app.status)

  Requested-Kept :
      (command : Command) (t : Tables)
      → Requested d hash r command t
      → is_unique d.same t.apps ≡ true
      → names d.same command app.app_id ≡ false
      → Kept t.apps
  unfolding add_app with_status with_key without without_apps without_profiles without_configs
  Requested-Kept (create_app none) t h u other = absurd h
  Requested-Kept (create_app (some name)) t (n, now, id, k, e) u other =
      (app, rw e (find_key-append d.same key (d.tables r.db).apps _ app held), refl, refl)
  Requested-Kept (set_status id none) t h u other = absurd h
  Requested-Kept (set_status id (some new)) t (now, e) u other =
      let (q, there, same_app, status) =
        find_key-set_status d.same key id new now (d.tables r.db).apps app held in
      (q, rw e there, same_app, rw other at status)
  Requested-Kept (delete_app id) t e u other = (
    app,
    rw e (
        find_key-deleted d.same laws.same_refl laws.same_sym laws.same_trans key id
          (d.tables r.db).apps app (laws.unique r.db) held
        ∙ rw other refl),
    refl,
    refl,
  )
  Requested-Kept (reset_key id) t (k, (now, e)) u other = (
    app,
    rw e (
        find_key-set_key_other d.same laws.same_refl laws.same_sym laws.same_trans key id (hash k)
          now (d.tables r.db).apps app (rw e at u) held other),
    refl,
    refl,
  )

  Performs-Kept :
      (command : Command) (p : Server d × Outcome Done)
      → Performs d hash r operator command p
      → names d.same command app.app_id ≡ false
      → Kept (d.tables p.0.db).apps
  unfolding add_audit
  Performs-Kept command (s, abort refusal) (store, inl same) other = (app, rw same held, refl, refl)
  Performs-Kept command (s, abort refusal) (store, inr (_, made)) other =
      Requested-Kept command (d.tables s.db) made (laws.unique s.db) other
  Performs-Kept command (s, pass done) (store, (t, e, described, inl written)) other =
      let apps = ap (λ (t : Tables). t.apps) written in
      subst Kept (sym apps) (
        Requested-Kept command t
          (Describes-Requested d hash r operator command done t e described).0
          (subst (λ x. is_unique d.same x ≡ true) apps (laws.unique s.db)) other)
  Performs-Kept command (s, pass done) (store, (t, e, described, inr (same, _, _))) other =
      let apps = ap (λ (t : Tables). t.apps) same in
      subst Kept (sym apps) (
        Requested-Kept command t
          (Describes-Requested d hash r operator command done t e described).0
          (subst (λ x. is_unique d.same x ≡ true) apps (laws.unique s.db)) other)

-- A command leaves the keys of the applications that it does not name alone, however it ends: behind
-- it a key that belonged to another application is answered by that application's status as
-- before, unless the database reports an error.
pub perform-Answers_other :
    (d : Database) (hash : Text → Text) (operator : Text) (c : Chance) (command : Command)
    (r : Server d) (store : AppStore) (now written : ℕ) (key : Text) (app : AppRow)
    → IsDatabase d
    → find_key d.same (hash key) (d.tables r.db).apps ≡ some app
    → names d.same command app.app_id ≡ false
    → cached store now (hash key) ≡ none
    → Answers d hash
        (record { db = (perform d hash operator c command r).0.db; store = store })
        now
        written
        key
        (verdict (row_of (some app)))
perform-Answers_other d hash operator c command r store now written key app laws held other miss =
    let s : Server d = record { db = (perform d hash operator c command r).0.db; store = store } in
    let (q, there, same_app, status) =
      Performs-Kept d hash laws operator r (hash key) app held command
        (perform d hash operator c command r) (perform-Performs d hash operator c command r laws)
        other in
    subst (λ x. Answers d hash s now written key x) (rw (status, same_app) refl)
      (admit-Answers d hash s now written key (some q) laws miss there)

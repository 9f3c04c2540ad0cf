-- ===== src/Store/Registry/Contract.antt =====
-- What the three writing operations of internal/store/app.go promise about the tables and the
-- cache, by how they end.
use octo_speech.Prelude.{
  ℕ, ◌≡◌, refl, ◌∙◌, ap, ◌⊎◌, inl, inr, Bool, true, false, Text, Option, some, none, ◌==◌, arith,
  Bool-cases,
}
use octo_speech.Prelude.Int.{ℤ}
use octo_speech.Store.App.{StoreError, app_not_found, exec_failed, invalidate_cache, finish_update}
use octo_speech.Store.Rows.{
  Tables, status_changes, key_changes, with_status, with_key, without_configs, without_profiles,
  without_apps,
}
use octo_speech.Store.Rows.Find.{update-unaffected}
use octo_speech.Store.Registry.{
  Database, IsDatabase, Server, update_status, update_api_key, delete, after_commit, after_apps,
  after_profiles, after_configs, after_begin, cache_after,
}

-- What deleting an application does to the tables.
unfoldable pub without : (Text → Text → Bool) → Text → Tables → Tables
without same id t = without_apps same id (without_profiles same id (without_configs same id t))

-- `Q` is the change that was asked for. Without an error it is made, and the cache is emptied; if
-- the application is not found, nothing changes; at any other error it is made as a whole or not
-- at all, and the cache stays.
abbrev pub Settles :
    (d : Database) → Server d → (Tables → Type 0) → Server d × Option StoreError → Type 0
Settles d r Q (s, none) = Q (d.tables s.db) × (s.store ≡ invalidate_cache r.store)
Settles d r Q (s, some app_not_found) = (d.tables s.db ≡ d.tables r.db) × (s.store ≡ r.store)
Settles d r Q (s, some exec_failed) =
    ((d.tables s.db ≡ d.tables r.db) ⊎ Q (d.tables s.db)) × (s.store ≡ r.store)

-- `UpdateStatus` and `UpdateAPIKey` on the answer of their statement.
finished-Settles :
    (d : Database) (r : Server d) (Q : Tables → Type 0) (db : d.State) (n : Option ℕ)
    → ((d.tables db ≡ d.tables r.db) ⊎ Q (d.tables db))
    → ((k : ℕ) → n ≡ some k → Q (d.tables db))
    → (n ≡ some 0 → d.tables db ≡ d.tables r.db)
    → Settles d r Q
        (record { db = db; store = (finish_update r.store n).0 }, (finish_update r.store n).1)
unfolding finish_update
finished-Settles d r Q db none failed done same = (failed, refl)
finished-Settles d r Q db (some k) failed done same = elim (Bool-cases (k == 0)) [
  | inl zero_rows ↦ rw zero_rows (same (ground arith), refl)
  | inr some_rows ↦ rw some_rows (done k refl, refl)
]

-- The changes that the two UPDATEs ask for.
abbrev pub StatusSet : (d : Database) → Server d → Text → ℤ → Tables → Type 0
StatusSet d r id new t = (now : ℕ) × (t ≡ with_status d.same id new now (d.tables r.db))

abbrev pub KeySet : (d : Database) → Server d → Text → Text → Tables → Type 0
KeySet d r id new t = (now : ℕ) × (t ≡ with_key d.same id new now (d.tables r.db))

module _ (d : Database) (laws : IsDatabase d) (r : Server d) (id : Text) where
  pub update_status-Settles :
      (new : ℤ) → Settles d r (StatusSet d r id new) (update_status d r id new)
  unfolding update_status with_status
  update_status-Settles new =
      finished-Settles d r (StatusSet d r id new) (d.update_status r.db id new).0
        (d.update_status r.db id new).1 (laws.status_not_updated r.db id new)
        (λ k e. let law = laws.status_updated r.db id new k e in (law.0, law.1))
        (λ e.
          let law = laws.status_updated r.db id new 0 e in
          law.1
          ∙ ap (λ (apps : _). record (d.tables r.db) { apps = apps })
              (update-unaffected (status_changes d.same id new) _ _ (ground (arith, law.2))))

  pub update_api_key-Settles :
      (new : Text) → Settles d r (KeySet d r id new) (update_api_key d r id new)
  unfolding update_api_key with_key
  update_api_key-Settles new =
      finished-Settles d r (KeySet d r id new) (d.update_key r.db id new).0
        (d.update_key r.db id new).1 (laws.key_not_updated r.db id new)
        (λ k e. let law = laws.key_updated r.db id new k e in (law.0, law.1))
        (λ e.
          let law = laws.key_updated r.db id new 0 e in
          law.1
          ∙ ap (λ (apps : _). record (d.tables r.db) { apps = apps })
              (update-unaffected (key_changes d.same id new) _ _ (ground (arith, law.2))))

-- The same for a run of `Delete` on the database alone.
abbrev Ends : (d : Database) → d.State → (Tables → Type 0) → d.State × Option StoreError → Type 0
Ends d s Q (s', none) = Q (d.tables s')
Ends d s Q (s', some app_not_found) = d.tables s' ≡ d.tables s
Ends d s Q (s', some exec_failed) = (d.tables s' ≡ d.tables s) ⊎ Q (d.tables s')

Ends-Settles :
    (d : Database) (r : Server d) (Q : Tables → Type 0) (p : d.State × Option StoreError)
    → Ends d r.db Q p
    → Settles d r Q (record { db = p.0; store = cache_after d r.store p.1 }, p.1)
unfolding cache_after
Ends-Settles d r Q (s, none) h = (h, refl)
Ends-Settles d r Q (s, some app_not_found) h = (h, refl)
Ends-Settles d r Q (s, some exec_failed) h = (h, refl)

module _ (d : Database) (laws : IsDatabase d) (s : d.State) (id : Text) (Q : Tables → Type 0) where
  after_commit-Ends :
      (t : d.Transaction) (p : d.State × Bool)
      → Q (d.draft t)
      → (p.1 ≡ true → d.tables p.0 ≡ d.draft t)
      → (d.tables p.0 ≡ d.tables s) ⊎ (d.tables p.0 ≡ d.draft t)
      → Ends d s Q (after_commit d t p)
  unfolding after_commit
  after_commit-Ends t (s', true) q done either = rw (laws.rolled_back s' t) (rw (done refl) q)
  after_commit-Ends t (s', false) q done (inl same) = inl (laws.rolled_back s' t ∙ same)
  after_commit-Ends t (s', false) q done (inr made) = inr (rw (laws.rolled_back s' t, made) q)

  after_apps-Ends :
      (t : d.Transaction) (o : Option (d.Transaction × ℕ))
      → ((u : d.Transaction) (n : ℕ) → o ≡ some (u, n) → Q (d.draft u))
      → Ends d s Q (after_apps d s t o)
  unfolding after_apps
  after_apps-Ends t none q = inl (laws.rolled_back s t)
  after_apps-Ends t (some (u, n)) q = elim (Bool-cases (n == 0)) [
    | inl zero_rows ↦ rw zero_rows (laws.rolled_back s u)
    | inr some_rows ↦ rw some_rows (
        after_commit-Ends u (d.commit s u) (q u n refl) (laws.committed s u)
          (laws.not_committed s u))
  ]

  after_profiles-Ends :
      (t : d.Transaction) (o : Option (d.Transaction × ℕ))
      → ((u : d.Transaction) (n : ℕ) → o ≡ some (u, n) → Q (without_apps d.same id (d.draft u)))
      → Ends d s Q (after_profiles d s id t o)
  unfolding after_profiles
  after_profiles-Ends t none q = inl (laws.rolled_back s t)
  after_profiles-Ends t (some (u, n)) q =
      after_apps-Ends u (d.delete_apps u id)
        (λ v m e. rw ((laws.apps_deleted u v id m e).0) (q u n refl))

  after_configs-Ends :
      (t : d.Transaction) (o : Option (d.Transaction × ℕ))
      → ((u : d.Transaction) (n : ℕ)
          → o ≡ some (u, n)
          → Q (without_apps d.same id (without_profiles d.same id (d.draft u))))
      → Ends d s Q (after_configs d s id t o)
  unfolding after_configs
  after_configs-Ends t none q = inl (laws.rolled_back s t)
  after_configs-Ends t (some (u, n)) q =
      after_profiles-Ends u (d.delete_profiles u id)
        (λ v m e. rw (laws.profiles_deleted u v id m e) (q u n refl))

  after_begin-Ends :
      (o : Option d.Transaction)
      → ((t : d.Transaction) → o ≡ some t → Q (without d.same id (d.draft t)))
      → Ends d s Q (after_begin d s id o)
  unfolding after_begin without
  after_begin-Ends none q = inl refl
  after_begin-Ends (some t) q =
      after_configs-Ends t (d.delete_configs t id)
        (λ u n e. rw (laws.configs_deleted t u id n e) (q t refl))

-- `Delete` is all or nothing. Without an error the rows of the application are gone from the three
-- tables, and the cache is emptied; where it reports that there is no such application, nothing
-- changes, not in the other two tables either; at any error of the database, whichever statement meets it, all of
-- the rows are gone or none is.
pub delete-Settles :
    (d : Database) (r : Server d) (id : Text)
    → IsDatabase d
    → Settles d r (λ t. t ≡ without d.same id (d.tables r.db)) (delete d r id)
unfolding delete
delete-Settles d r id laws =
    Ends-Settles d r (λ t. t ≡ without d.same id (d.tables r.db)) _
      (after_begin-Ends d laws r.db id (λ t. t ≡ without d.same id (d.tables r.db))
        (d.begin_tx r.db) (λ t e. rw (laws.begun r.db t e)))

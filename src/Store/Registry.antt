-- ===== src/Store/Registry.antt =====
-- internal/store/app.go on the tables of the database, and internal/store/audit.go. The database
-- and encoding/json are an interface: their statements, and the tables that a state stands for. A
-- statement that reports an error may have been carried out all the same. One call of a handler
-- runs its statements with no other writer between them.
pub mod Contract
pub mod Memory
use octo_speech.Prelude.{
  ℕ, ◌≡◌, ◌⊎◌, inl, inr, Bool, true, false, Text, Option, some, none, ◌==◌, if◌then◌else◌,
}
use octo_speech.Prelude.Int.{ℤ}
use octo_speech.Store.App
use octo_speech.Store.App.{
  AppInfo, AppStore, Row, row, no_rows, db_error, StoreError, app_not_found, exec_failed,
  AuthResult, invalidate_cache,
}
use octo_speech.Store.Rows.{
  AppRow, AuditRow, Tables, add_app, add_audit, affected, find_app, find_key, is_unique, is_app,
  status_changes, key_changes, with_status, with_key, without_configs, without_profiles,
  without_apps,
}

pub record Database : Type 1 where
  pub State : Type 0
  pub Transaction : Type 0
  pub Detail : Type 0
  pub tables : State → Tables
  pub draft : Transaction → Tables
  pub same : Text → Text → Bool
  pub select_key : State → Text → Row
  pub select_app : State → Text → Option (Option AppRow)
  pub insert_app : State → Text → Text → Text → State × Bool
  pub update_status : State → Text → ℤ → State × Option ℕ
  pub update_key : State → Text → Text → State × Option ℕ
  pub insert_audit : State → AuditRow → State × Bool
  pub begin_tx : State → Option Transaction
  pub delete_configs : Transaction → Text → Option (Transaction × ℕ)
  pub delete_profiles : Transaction → Text → Option (Transaction × ℕ)
  pub delete_apps : Transaction → Text → Option (Transaction × ℕ)
  pub commit : State → Transaction → State × Bool
  pub rollback : State → Transaction → State
  pub marshal : Detail → Option Text

-- The answer to `SELECT app_id, status … WHERE api_key = ?`.
abbrev pub row_of : Option AppRow → Row
row_of none = no_rows
row_of (some r) = row (record { app_id = r.app_id; status = r.status })

-- The documented behaviour of the statements.
pub record IsDatabase (d : Database) : Type 0 where
  pub same_refl : (a : Text) → d.same a a ≡ true
  pub same_sym : (a b : Text) → d.same a b ≡ true → d.same b a ≡ true
  pub same_trans : (a b c : Text) → d.same a b ≡ true → d.same b c ≡ true → d.same a c ≡ true
  pub unique : (s : d.State) → is_unique d.same (d.tables s).apps ≡ true
  pub key_answer :
      (s : d.State) (key : Text)
      → (d.select_key s key ≡ db_error)
        ⊎ (d.select_key s key ≡ row_of (find_key d.same key (d.tables s).apps))
  pub app_answer :
      (s : d.State) (id : Text)
      → (d.select_app s id ≡ none)
        ⊎ (d.select_app s id ≡ some (find_app d.same id (d.tables s).apps))
  pub inserted :
      (s : d.State) (id name key : Text)
      → (d.insert_app s id name key).1 ≡ true
      → (n now : ℕ) × (d.tables (d.insert_app s id name key).0
          ≡ add_app n now id name key (d.tables s))
  pub not_inserted :
      (s : d.State) (id name key : Text)
      → (d.tables (d.insert_app s id name key).0 ≡ d.tables s)
        ⊎ ((n now : ℕ) × (d.tables (d.insert_app s id name key).0
              ≡ add_app n now id name key (d.tables s)))
  pub status_updated :
      (s : d.State) (id : Text) (new : ℤ) (n : ℕ)
      → (d.update_status s id new).1 ≡ some n
      → (now : ℕ) × (d.tables (d.update_status s id new).0
          ≡ with_status d.same id new now (d.tables s))
        × (n ≡ affected (status_changes d.same id new) (d.tables s).apps)
  pub status_not_updated :
      (s : d.State) (id : Text) (new : ℤ)
      → (d.tables (d.update_status s id new).0 ≡ d.tables s)
        ⊎ ((now : ℕ) × (d.tables (d.update_status s id new).0
              ≡ with_status d.same id new now (d.tables s)))
  pub key_updated :
      (s : d.State) (id new : Text) (n : ℕ)
      → (d.update_key s id new).1 ≡ some n
      → (now : ℕ) × (d.tables (d.update_key s id new).0 ≡ with_key d.same id new now (d.tables s))
        × (n ≡ affected (key_changes d.same id new) (d.tables s).apps)
  pub key_not_updated :
      (s : d.State) (id new : Text)
      → (d.tables (d.update_key s id new).0 ≡ d.tables s)
        ⊎ ((now : ℕ) × (d.tables (d.update_key s id new).0
              ≡ with_key d.same id new now (d.tables s)))
  pub audit_inserted :
      (s : d.State) (e : AuditRow)
      → (d.insert_audit s e).1 ≡ true
      → d.tables (d.insert_audit s e).0 ≡ add_audit e (d.tables s)
  pub audit_not_inserted :
      (s : d.State) (e : AuditRow)
      → (d.tables (d.insert_audit s e).0 ≡ d.tables s)
        ⊎ (d.tables (d.insert_audit s e).0 ≡ add_audit e (d.tables s))
  pub begun : (s : d.State) (t : d.Transaction) → d.begin_tx s ≡ some t → d.draft t ≡ d.tables s
  pub configs_deleted :
      (t t' : d.Transaction) (id : Text) (n : ℕ)
      → d.delete_configs t id ≡ some (t', n)
      → d.draft t' ≡ without_configs d.same id (d.draft t)
  pub profiles_deleted :
      (t t' : d.Transaction) (id : Text) (n : ℕ)
      → d.delete_profiles t id ≡ some (t', n)
      → d.draft t' ≡ without_profiles d.same id (d.draft t)
  pub apps_deleted :
      (t t' : d.Transaction) (id : Text) (n : ℕ)
      → d.delete_apps t id ≡ some (t', n)
      → (d.draft t' ≡ without_apps d.same id (d.draft t))
        × (n ≡ affected (is_app d.same id) (d.draft t).apps)
  pub committed :
      (s : d.State) (t : d.Transaction)
      → (d.commit s t).1 ≡ true
      → d.tables (d.commit s t).0 ≡ d.draft t
  pub not_committed :
      (s : d.State) (t : d.Transaction)
      → (d.tables (d.commit s t).0 ≡ d.tables s) ⊎ (d.tables (d.commit s t).0 ≡ d.draft t)
  pub rolled_back : (s : d.State) (t : d.Transaction) → d.tables (d.rollback s t) ≡ d.tables s

-- An entry that a handler gives to the log.
pub record AuditEntry (Detail : Type 0) : Type 0 where
  pub action : Text
  pub app_id : Text
  pub app_name : Text
  pub operator : Text
  pub detail : Option Detail

module _ (d : Database) where
  -- The process: the database, and its store with the cache.
  pub record Server : Type 0 where
    pub db : d.State
    pub store : AppStore

  -- `Authenticate`, as one step
  unfoldable pub authenticate : (Text → Text) → Server → ℕ → ℕ → Text → Server × AuthResult
  unfolding App.authenticate
  authenticate hash r now_check now_set api_key =
      let p = App.authenticate hash (d.select_key r.db) r.store now_check now_set api_key in
      (record r { store = p.0 }, p.1)

  -- `Create`; true if there is no error
  unfoldable pub create : Server → Text → Text → Text → Server × Bool
  create r id name key_hash =
      let p = d.insert_app r.db id name key_hash in (record r { db = p.0 }, p.1)

  -- `GetByAppID`
  unfoldable pub get_by_app_id : Server → Text → AppRow ⊎ StoreError
  get_by_app_id r id = elim (d.select_app r.db id) [
    | none ↦ inr exec_failed
    | some none ↦ inr app_not_found
    | some (some app) ↦ inl app
  ]

  unfoldable pub update_status : Server → Text → ℤ → Server × Option StoreError
  unfolding App.update_status
  update_status r id new =
      let p = d.update_status r.db id new in
      let q = App.update_status (λ _ _. p.1) r.store id new in
      (record { db = p.0; store = q.0 }, q.1)

  unfoldable pub update_api_key : Server → Text → Text → Server × Option StoreError
  unfolding App.update_api_key
  update_api_key r id new_hash =
      let p = d.update_key r.db id new_hash in
      let q = App.update_api_key (λ _ _. p.1) r.store id new_hash in
      (record { db = p.0; store = q.0 }, q.1)

  -- `Delete` behind each of its statements, with the deferred `tx.Rollback()`.
  unfoldable pub after_commit : d.Transaction → d.State × Bool → d.State × Option StoreError
  after_commit t (s, true) = (d.rollback s t, none)
  after_commit t (s, false) = (d.rollback s t, some exec_failed)

  unfoldable pub after_apps :
      d.State → d.Transaction → Option (d.Transaction × ℕ) → d.State × Option StoreError
  unfolding after_commit
  after_apps s t none = (d.rollback s t, some exec_failed)
  after_apps s t (some (u, n)) =
      if n == 0 then (d.rollback s u, some app_not_found) else after_commit u (d.commit s u)

  unfoldable pub after_profiles :
      d.State → Text → d.Transaction → Option (d.Transaction × ℕ) → d.State × Option StoreError
  unfolding after_apps
  after_profiles s id t none = (d.rollback s t, some exec_failed)
  after_profiles s id t (some (u, n)) = after_apps s u (d.delete_apps u id)

  unfoldable pub after_configs :
      d.State → Text → d.Transaction → Option (d.Transaction × ℕ) → d.State × Option StoreError
  unfolding after_profiles
  after_configs s id t none = (d.rollback s t, some exec_failed)
  after_configs s id t (some (u, n)) = after_profiles s id u (d.delete_profiles u id)

  unfoldable pub after_begin : d.State → Text → Option d.Transaction → d.State × Option StoreError
  unfolding after_configs
  after_begin s id none = (s, some exec_failed)
  after_begin s id (some t) = after_configs s id t (d.delete_configs t id)

  -- The last statement of `Delete`, on the cache.
  unfoldable pub cache_after : AppStore → Option StoreError → AppStore
  cache_after store none = invalidate_cache store
  cache_after store (some e) = store

  unfoldable pub delete : Server → Text → Server × Option StoreError
  unfolding after_begin cache_after
  delete r id =
      let p = after_begin r.db id (d.begin_tx r.db) in
      (record { db = p.0; store = cache_after r.store p.1 }, p.1)

  -- `AuditStore.Log`; true if there is no error
  unfoldable pub log_marshalled :
      d.State → AuditEntry d.Detail → Option (Option Text) → d.State × Bool
  log_marshalled s e none = (s, false)
  log_marshalled s e (some detail) = d.insert_audit s (record {
    action = e.action;
    app_id = e.app_id;
    app_name = e.app_name;
    operator = e.operator;
    detail = detail;
  })

  unfoldable pub log : d.State → AuditEntry d.Detail → d.State × Bool
  unfolding log_marshalled
  log s e = log_marshalled s e (elim e.detail [
    | none ↦ some none
    | some detail ↦ elim (d.marshal detail) [ none ↦ none | some text ↦ some (some text) ]
  ])

-- ===== src/Admin/Apps/Contract.antt =====
-- What the handlers of internal/admin/handler.go that write promise, by their answers: the change
-- of the tables, the audit entry and the cache.
pub mod Steps
pub mod Handlers
use octo_speech.Prelude.{
  ℕ, ◌≡◌, refl, sym, ap, ◌∙◌, ◌⊎◌, inl, inr, Bool, true, false, Option, some, none, [], Text, codes,
  trim_space, String, arith, Bool-cases, Option-cases, List,
}
use octo_speech.Prelude.Http.{Reply, reply, Outcome, abort, pass}
use octo_speech.Prelude.Int.{ℤ, pos}
use octo_speech.Admin.KeyGen.{generate_app_id, generate_api_key, is_valid_app_id}
use octo_speech.Admin.Session.{Request, protected}
use octo_speech.Store.App.{StoreError, app_not_found, exec_failed, AppStore, invalidate_cache}
use octo_speech.Store.Rows.{AppRow, AuditRow, Tables, add_app, add_audit, find_app, eq_ℤ}
use octo_speech.Store.Rows.Find.{eq_ℤ→eq}
use octo_speech.Store.Registry.{
  Database, IsDatabase, Server, AuditEntry, create, get_by_app_id, update_status, update_api_key,
  delete, log,
}
use octo_speech.Store.Registry.Contract.{
  Settles, StatusSet, KeySet, without, update_status-Settles, update_api_key-Settles,
  delete-Settles,
}
use octo_speech.Admin.Apps.{
  Command, create_app, set_status, delete_app, reset_key, Done, created, updated, deleted,
  key_reset, Chance, store_error, bad_id, name_of, status_action, audit, create_done, create_with,
  create_handler, finish, status_handler, delete_done, delete_handler, reset_with, reset_handler,
  perform, serve, serve_as, bad_name, bad_status,
}

abbrev pub entry : Text → Text → Text → Text → AuditRow
entry action id name operator = record {
  action = action;
  app_id = id;
  app_name = name;
  operator = operator;
  detail = none;
}

-- The name of the application in the given rows, or no name.
abbrev pub Named : (Text → Text → Bool) → List AppRow → Text → Text → Type 0
Named same rows id name =
    (name ≡ []) ⊎ ((app : AppRow) × (find_app same id rows ≡ some app) × (name ≡ app.app_name))

module _ (d : Database) (hash : Text → Text) where
  -- The change of the tables that a command asks for, but for the audit log.
  abbrev pub Requested : Server d → Command → Tables → Type 0
  Requested r (create_app none) t = ⊥
  Requested r (create_app (some name)) t =
      (n now : ℕ) × (id key : Text) × (t
        ≡ add_app n now id (trim_space name) (hash key) (d.tables r.db))
  Requested r (set_status id none) t = ⊥
  Requested r (set_status id (some new)) t = StatusSet d r id new t
  Requested r (delete_app id) t = t ≡ without d.same id (d.tables r.db)
  Requested r (reset_key id) t = (key : Text) × KeySet d r id (hash key) t

  -- A change with its answer and its audit entry: what a command has made of the tables, `t`, what
  -- it answers, and what it logs. No input that the handlers check gets here unchecked.
  abbrev pub Describes : Server d → Text → Command → Done → Tables → AuditRow → Type 0
  Describes r operator (create_app (some raw)) (created id name key time) t e =
      (n now : ℕ) × (t ≡ add_app n now id name (hash key) (d.tables r.db))
      × (name ≡ trim_space raw)
      × (bad_name name ≡ false)
      × (e ≡ entry (codes "create") id name operator)
  Describes r operator (set_status id (some new)) updated t e =
      (name : Text) × StatusSet d r id new t
      × (is_valid_app_id id ≡ true)
      × ((new ≡ pos 0) ⊎ (new ≡ pos 1))
      × (e ≡ entry (status_action new) id name operator)
      × Named d.same t.apps id name
  Describes r operator (delete_app id) deleted t e =
      (name : Text) × (t ≡ without d.same id (d.tables r.db))
      × (is_valid_app_id id ≡ true)
      × (e ≡ entry (codes "delete") id name operator)
      × Named d.same (d.tables r.db).apps id name
  Describes r operator (reset_key id) (key_reset key) t e =
      (name : Text) × KeySet d r id (hash key) t
      × (is_valid_app_id id ≡ true)
      × (e ≡ entry (codes "reset_key") id name operator)
      × Named d.same t.apps id name
  Describes r operator _ _ t e = ⊥

  abbrev pub store_after : Command → AppStore → AppStore
  store_after (create_app body) s = s
  store_after (set_status id body) s = invalidate_cache s
  store_after (delete_app id) s = invalidate_cache s
  store_after (reset_key id) s = invalidate_cache s

  -- A refusal leaves the tables and the cache as they were; only behind an answer with status 500
  -- the change may have been made all the same, as a whole, and then with no audit entry. An answer
  -- of success has made the change, and added its one audit entry, unless the database reported an
  -- error for the entry.
  abbrev pub Performs : Server d → Text → Command → Server d × Outcome Done → Type 0
  Performs r operator command (s, abort refusal) =
      (s.store ≡ r.store)
      × ((d.tables s.db ≡ d.tables r.db)
          ⊎ ((refusal.status ≡ 500) × Requested r command (d.tables s.db)))
  Performs r operator command (s, pass done) =
      (s.store ≡ store_after command r.store)
      × ((t : Tables) × (e : AuditRow) × Describes r operator command done t e
          × ((d.tables s.db ≡ add_audit e t)
              ⊎ ((d.tables s.db ≡ t) × (u : d.State) × ((d.insert_audit u e).1 ≡ false))))

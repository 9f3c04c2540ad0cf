-- ===== src/Admin/Apps.antt =====
-- The handlers CreateApp, ListApps, UpdateStatus, DeleteApp and ResetKey of
-- internal/admin/handler.go, behind the guards of cmd/admin/main.go. A handler takes the state of
-- the process and gives the new one with its answer; log lines are left out.
pub mod Contract
pub mod Audited
pub mod Admit
pub mod Keys
pub mod Others
mod Tests
use octo_speech.Prelude.{
  ℕ, Bool, true, false, not, ◌||◌, ◌&&◌, Option, some, none, Text, codes, trim_space, is_empty,
  length, ltb, if◌then◌else◌, ◌⊎◌, inl, inr, List, map, ◌==◌, String, text_eq,
}
use octo_speech.Prelude.Http.{Reply, reply, Outcome, abort, pass, ◌>>=◌}
use octo_speech.Prelude.Int.{ℤ, pos}
use octo_speech.Admin.KeyGen.{generate_app_id, generate_api_key, is_valid_app_id}
use octo_speech.Admin.Session.{Request, protected}
use octo_speech.Store.App.{StoreError, app_not_found, exec_failed}
use octo_speech.Store.Rows.{AppRow, eq_ℤ}
use octo_speech.Store.Registry.{
  Database, Server, AuditEntry, create, get_by_app_id, update_status, update_api_key, delete, log,
}

-- The routes that change the registry, with what the handlers read: the path parameter app_id, and
-- the field of the JSON body, none if the body does not bind or leaves the status out.
pub data Command : Type 0 where
  create_app : Option Text → Command
  set_status : Text → Option ℤ → Command
  delete_app reset_key : Text → Command

-- The body of an answer with status 201 or 200.
pub data Done : Type 0 where
  created : Text → Text → Text → Text → Done
  updated deleted : Done
  key_reset : Text → Done

-- The randomness of the two generators, and the formatted time.
pub record Chance : Type 0 where
  pub id_draw : ℕ → Option ℕ
  pub key_draw : ℕ → Option ℕ
  pub now : Text

-- The answer to an error of the store.
abbrev pub store_error : String → StoreError → Reply
store_error msg app_not_found = reply 404 "app not found"
store_error msg exec_failed = reply 500 msg

abbrev pub bad_id : Reply
bad_id = reply 400 "invalid app_id format"

abbrev pub bad_body : Reply
bad_body = reply 400 "invalid request body"

-- The name for the audit log; an error leaves it empty.
abbrev pub name_of : AppRow ⊎ StoreError → Text
name_of (inl app) = app.app_name
name_of (inr e) = codes ""

unfoldable pub status_action : ℤ → Text
status_action new = if eq_ℤ new (pos 0) then codes "disable" else codes "enable"

-- `*req.Status != 0 && *req.Status != 1`
unfoldable pub bad_status : ℤ → Bool
bad_status new = not (eq_ℤ new (pos 0)) && not (eq_ℤ new (pos 1))

-- `appName == "" || len([]rune(appName)) > 100`
unfoldable pub bad_name : Text → Bool
bad_name name = is_empty name || ltb 100 (length name)

module _ (d : Database) (hash : Text → Text) where
  -- Writes the audit entry; an error is only logged.
  unfoldable pub audit : Text → Text → Text → Text → Server d → Server d
  audit action id name operator r = record r {
    db =
        (log d r.db (record {
          action = action;
          app_id = id;
          app_name = name;
          operator = operator;
          detail = none;
        })).0;
  }

  -- `CreateApp` behind `Create`, and behind the two generators.
  unfoldable pub create_done :
      Text → Text → Text → Text → Text → Server d × Bool → Server d × Outcome Done
  unfolding audit
  create_done operator now id name key (r, false) = (r, abort (reply 500 "failed to create app"))
  create_done operator now id name key (r, true) =
      (audit (codes "create") id name operator r, pass (created id name key now))

  unfoldable pub create_with :
      Text → Text → Text → Server d → Option Text → Option Text → Server d × Outcome Done
  unfolding create_done
  create_with operator now name r none key = (r, abort (reply 500 "failed to generate app ID"))
  create_with operator now name r (some id) none =
      (r, abort (reply 500 "failed to generate API key"))
  create_with operator now name r (some id) (some key) =
      create_done operator now id name key (create d r id name (hash key))

  -- `CreateApp`
  unfoldable pub create_handler : Text → Chance → Option Text → Server d → Server d × Outcome Done
  unfolding create_with bad_name
  create_handler operator c none r = (r, abort bad_body)
  create_handler operator c (some app_name) r =
      let name = trim_space app_name in
      if bad_name name
      then (r, abort (reply 400 "app_name must be 1-100 characters"))
      else create_with operator c.now name r (generate_app_id c.id_draw)
          (generate_api_key c.key_draw)

  -- The tail that UpdateStatus and ResetKey share: the answer to an error, or the name of the
  -- application, the audit entry and the answer.
  unfoldable pub finish :
      Text → Text → Text → String → Done → Server d × Option StoreError → Server d × Outcome Done
  unfolding audit
  finish operator action id msg done (r, some e) = (r, abort (store_error msg e))
  finish operator action id msg done (r, none) =
      (audit action id (name_of (get_by_app_id d r id)) operator r, pass done)

  -- `UpdateStatus`
  unfoldable pub status_handler : Text → Text → Option ℤ → Server d → Server d × Outcome Done
  unfolding finish bad_status status_action
  status_handler operator id body r =
      if not (is_valid_app_id id) then (r, abort bad_id) else elim body [
        | none ↦ (r, abort bad_body)
        | some new ↦
            if bad_status new
            then (r, abort (reply 400 "status must be 0 or 1"))
            else finish operator (status_action new) id "failed to update status" updated
                (update_status d r id new)
      ]

  -- `DeleteApp` behind `Delete`; the name was read before.
  unfoldable pub delete_done :
      Text → Text → Text → Server d × Option StoreError → Server d × Outcome Done
  unfolding audit
  delete_done operator id name (r, some e) = (r, abort (store_error "failed to delete app" e))
  delete_done operator id name (r, none) = (audit (codes "delete") id name operator r, pass deleted)

  -- `DeleteApp`
  unfoldable pub delete_handler : Text → Text → Server d → Server d × Outcome Done
  unfolding delete_done
  delete_handler operator id r =
      if not (is_valid_app_id id)
      then (r, abort bad_id)
      else delete_done operator id (name_of (get_by_app_id d r id)) (delete d r id)

  -- `ResetKey`
  unfoldable pub reset_with : Text → Text → Server d → Option Text → Server d × Outcome Done
  unfolding finish
  reset_with operator id r none = (r, abort (reply 500 "failed to generate API key"))
  reset_with operator id r (some key) =
      finish operator (codes "reset_key") id "failed to reset key" (key_reset key)
        (update_api_key d r id (hash key))

  unfoldable pub reset_handler : Text → Chance → Text → Server d → Server d × Outcome Done
  unfolding reset_with
  reset_handler operator c id r =
      if not (is_valid_app_id id)
      then (r, abort bad_id)
      else reset_with operator id r (generate_api_key c.key_draw)

  unfoldable pub perform : Text → Chance → Command → Server d → Server d × Outcome Done
  unfolding create_handler status_handler delete_handler reset_handler
  perform operator c (create_app body) r = create_handler operator c body r
  perform operator c (set_status id body) r = status_handler operator id body r
  perform operator c (delete_app id) r = delete_handler operator id r
  perform operator c (reset_key id) r = reset_handler operator c id r

  -- A request to one of the four routes: the handler runs under the username that the guards found.
  unfoldable pub serve_as : Chance → Command → Server d → Outcome Text → Server d × Outcome Done
  unfolding perform
  serve_as c command r (abort refusal) = (r, abort refusal)
  serve_as c command r (pass operator) = perform operator c command r

  unfoldable pub serve :
      (Text → Text → Option Text)
      → Text
      → Chance
      → Request
      → Command
      → Server d
      → Server d × Outcome Done
  unfolding serve_as protected
  serve verify secret c request command r = serve_as c command r (protected verify secret request)

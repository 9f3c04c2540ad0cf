-- ===== src/Admin/Apps/Tests.antt =====
-- An application that is created, disabled, given a new key and deleted, in the database in memory.
use octo_speech.Prelude.{
  ℕ, ◌≤◌, ◌≡◌, ltb, if◌then◌else◌, arith, ◌⊎◌, refl, true, false, Option, some, none, [], ◌∷◌, Text,
  codes, trim_space, trim_left, trim_right, is_space, text_eq, has_prefix, keep,
}
use octo_speech.Prelude.Http.{Reply, reply, abort, pass}
use octo_speech.Prelude.Int.{pos}
use octo_speech.Admin.KeyGen.{
  generate_app_id, generate_api_key, random_base62, char_of, is_valid_app_id, byte_length, rune_len,
  is_alnum, all_alnum,
}
use octo_speech.Admin.Session.{Request, protected}
use octo_speech.Store.App.{AppStore, new_app_store, cached, remember, lookup, finish_update}
use octo_speech.Store.App.Staleness.{Reach, start, write}
use octo_speech.Store.Rows.{
  AppRow, Tables, new_row, add_app, add_audit, update, affected, find_app, find_key, is_fresh,
  is_unique, with_status, with_key, without_configs, without_profiles, without_apps,
}
use octo_speech.Store.Registry.{Server, delete, create, update_status, update_api_key, log}
use octo_speech.Store.Registry.Contract.{Settles, without, delete-Settles}
use octo_speech.Store.Registry.Memory.{
  Memory, memory, empty_memory, put, counted, memory-IsDatabase,
}
use octo_speech.Admin.Apps.{
  Command, create_app, set_status, delete_app, reset_key, created, updated, deleted, key_reset,
  Chance, perform, serve,
}
use octo_speech.Admin.Apps.Contract.{Performs}
use octo_speech.Admin.Apps.Contract.Handlers.{perform-Performs}
use octo_speech.Admin.Apps.Audited.{Logs, serve-Logs}
use octo_speech.Admin.Apps.Admit.{Answers}
use octo_speech.Admin.Apps.Keys.{behind, created-admit, Settled, updated-admit, reset-admit}
use octo_speech.Admin.Apps.Others.{perform-Answers_other}

-- In place of SHA-256.
abbrev hash : Text → Text
hash key = b'h' ∷ key

abbrev draws : ℕ → Chance
draws n = record { id_draw = λ i. some n; key_draw = λ i. some n; now = codes "2025-01-01" }

abbrev boss : Text
boss = codes "admin"

abbrev started : Server memory
started = record { db = empty_memory; store = new_app_store 60 }

abbrev made : Server memory
made = (perform memory hash boss (draws 1) (create_app (some (codes " octo "))) started).0

abbrev app_id : Text
app_id = codes "app_BBBBBBBBBBBBBBBB"

abbrev key : Text
key = codes "sk-BBBBBBBBBBBBBBBBBBBBBBBBBBBBB"

abbrev app : AppRow
app = new_row 1 7 app_id (codes "octo") (hash key)

created_run :
    (perform memory hash boss (draws 1) (create_app (some (codes " octo "))) started).1
    ≡ pass (created app_id (codes "octo") key (codes "2025-01-01"))
unfolding perform generate_app_id generate_api_key random_base62 char_of trim_space trim_left
    trim_right is_space create put add_app is_fresh is_unique text_eq
created_run = refl

held : find_key text_eq (hash key) (memory.tables made.db).apps ≡ some app
unfolding perform generate_app_id generate_api_key random_base62 char_of trim_space trim_left
    trim_right is_space create put add_app is_fresh is_unique text_eq log find_key add_audit
held = refl

-- The registry with that application, its vocabulary, and the settings of two applications.
abbrev one_app : Tables
one_app = record {
  apps = app ∷ [];
  configs = app_id ∷ codes "app_other" ∷ [];
  profiles = app_id ∷ [];
  audits = [];
}

one_app_unique : is_unique text_eq one_app.apps ≡ true
unfolding is_unique is_fresh
one_app_unique = refl

abbrev one : Server memory
one = record { db = (one_app, one_app_unique); store = new_app_store 60 }

one_held : find_key text_eq (hash key) one_app.apps ≡ some app
unfolding find_key text_eq
one_held = refl

one_found : find_app text_eq app_id one_app.apps ≡ some app
unfolding find_app text_eq
one_found = refl

is_app : text_eq app_id app_id ≡ true
unfolding text_eq
is_app = refl

miss : (k : Text) → cached (new_app_store 60) 5 k ≡ none
unfolding cached new_app_store lookup
miss k = refl

disabled_run :
    (perform memory hash boss (draws 2) (set_status app_id (some (pos 0))) one).1 ≡ pass updated
unfolding perform is_valid_app_id byte_length rune_len is_alnum all_alnum has_prefix update_status
    finish_update counted put with_status update affected keep is_fresh text_eq
disabled_run = refl

deleted_run : (perform memory hash boss (draws 2) (delete_app app_id) one).1 ≡ pass deleted
unfolding perform is_valid_app_id byte_length rune_len is_alnum all_alnum has_prefix delete put
    without_configs without_profiles without_apps affected keep is_fresh text_eq
deleted_run = refl

abbrev new_key : Text
new_key = codes "sk-CCCCCCCCCCCCCCCCCCCCCCCCCCCCC"

reset_run : (perform memory hash boss (draws 2) (reset_key app_id) one).1 ≡ pass (key_reset new_key)
unfolding perform is_valid_app_id byte_length rune_len is_alnum all_alnum has_prefix update_api_key
    finish_update counted put with_key update affected keep is_fresh text_eq generate_api_key
    random_base62 char_of
reset_run = refl

other_key : text_eq (hash new_key) (hash key) ≡ false
unfolding text_eq
other_key = refl

perform-Performs_example :
    Performs memory hash one boss
      (delete_app app_id)
      (perform memory hash boss (draws 2) (delete_app app_id) one)
perform-Performs_example =
    perform-Performs memory hash boss (draws 2) (delete_app app_id) one memory-IsDatabase

delete-Settles_example :
    Settles memory one (λ t. t ≡ without text_eq app_id one_app) (delete memory one app_id)
delete-Settles_example = delete-Settles memory one app_id memory-IsDatabase

-- A session token that verifies, with the CSRF token in the header.
abbrev verify : Text → Text → Option Text
verify token secret = some boss

abbrev session : Request
session = record {
  token = some (codes "jwt");
  csrf_token = some (codes "c");
  x_csrf_token = codes "c";
}

serve-Logs_example :
    ((refusal : Reply) × (protected verify (codes "s") session ≡ abort refusal)
      × (serve memory hash verify (codes "s") (draws 2) session (delete_app app_id) one
          ≡ (one, abort refusal)))
    ⊎ ((operator : Text) × (protected verify (codes "s") session ≡ pass operator)
        × Logs memory hash one operator
            (serve memory hash verify (codes "s") (draws 2) session (delete_app app_id) one))
serve-Logs_example =
    serve-Logs memory hash verify (codes "s") (draws 2) session (delete_app app_id) one
      memory-IsDatabase

created-admit_example :
    Answers memory hash
      (behind memory hash boss
        (draws 1)
        started
        (new_app_store 60)
        5
        6
        (create_app (some (codes " octo "))))
      5
      6
      key
      (pass app_id)
created-admit_example =
    created-admit memory hash boss (draws 1) started (new_app_store 60) 5 6 (codes " octo ") app_id
      (codes "octo") key (codes "2025-01-01") memory-IsDatabase created_run (miss (hash key))

-- A process that queried the database at the time 5, before a command changed it at 10, and has
-- written the answer to its cache at 6, with a life of 60.
abbrev world_of : Command → ℕ → Memory
world_of command t =
    if ltb t 10 then one.db else (perform memory hash boss (draws 2) command one).0.db

abbrev service : AppStore
service = remember (new_app_store 60) 6 (hash key) (record { app_id = app_id; status = pos 1 })

service-Reach :
    (command : Command) → Reach (λ t k. memory.select_key (world_of command t) k) 2 60 service
unfolding find_key text_eq
service-Reach command = write 5 6 (hash key) _ start (λ h. cc) refl (omega arith)

stands :
    (command : Command) (t : ℕ)
    → 10 ≤ t
    → (memory.tables (world_of command t)).apps
      ≡ (memory.tables (perform memory hash boss (draws 2) command one).0.db).apps
stands command t h = let over : ltb t 10 ≡ false = ground arith in rw over refl

abbrev disable : Command
disable = set_status app_id (some (pos 0))

updated-admit_example :
    Settled memory hash boss
      (draws 2)
      one
      (world_of disable)
      10
      2
      60
      11
      72
      73
      service
      disable
      key
      (abort (reply 403 "application is disabled"))
updated-admit_example =
    updated-admit memory hash boss (draws 2) one (world_of disable) 10 2 60 11 72 73 service app_id
      (pos 0) key app memory-IsDatabase disabled_run one_held is_app (service-Reach disable)
      (stands disable) (omega arith)

abbrev reset : Command
reset = reset_key app_id

reset-admit_example :
    Settled memory hash boss
      (draws 2)
      one
      (world_of reset)
      10
      2
      60
      11
      72
      73
      service
      reset
      key
      (abort (reply 401 "invalid api key"))
    × Settled memory hash boss
        (draws 2)
        one
        (world_of reset)
        10
        2
        60
        11
        72
        73
        service
        reset
        new_key
        (pass app_id)
reset-admit_example =
    reset-admit memory hash boss (draws 2) one (world_of reset) 10 2 60 11 72 73 service app_id
      new_key key app memory-IsDatabase reset_run one_held one_found is_app other_key
      (service-Reach reset) (stands reset) (omega arith)

another : text_eq app_id (codes "app_CCCCCCCCCCCCCCCC") ≡ false
unfolding text_eq
another = refl

perform-Answers_other_example :
    Answers memory hash
      (record {
        db =
            (perform memory hash boss
              (draws 2)
              (delete_app (codes "app_CCCCCCCCCCCCCCCC"))
              one).0.db;
        store = new_app_store 60;
      })
      5
      6
      key
      (pass app_id)
perform-Answers_other_example =
    perform-Answers_other memory hash boss (draws 2) (delete_app (codes "app_CCCCCCCCCCCCCCCC")) one
      (new_app_store 60) 5 6 key app memory-IsDatabase one_held another (miss (hash key))

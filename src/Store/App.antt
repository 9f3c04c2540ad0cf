-- ===== src/Store/App.antt =====
-- internal/store/app.go: the registry of applications with its cache of authentications. The
-- database, SHA-256 and the clock are arguments; each stretch under the mutex is one step. The map
-- of the cache is the list of its entries, in the order in which the program would range over it.
pub mod Keys
pub mod Cache
pub mod Staleness
pub mod Order
pub mod Status
mod Tests
use octo_speech.Prelude.{
  ℕ, ◌+◌, Bool, true, false, ◌||◌, List, [], ◌∷◌, Text, text_eq, is_empty, length, ltb, leb,
  if◌then◌else◌, Option, some, none, ◌==◌,
}
use octo_speech.Prelude.Int.{ℤ, pos}

pub record AppInfo : Type 0 where
  pub app_id : Text
  pub status : ℤ

pub record CacheEntry : Type 0 where
  pub info : AppInfo
  pub expires_at : ℕ

abbrev pub Entries : Type 0
Entries = List (Text × CacheEntry)

pub record AppStore : Type 0 where
  pub cache : Entries
  pub ttl : ℕ
  pub max_size : ℕ

unfoldable pub new_app_store : ℕ → AppStore
new_app_store ttl = record { cache = []; ttl = ttl; max_size = 10_000 }

-- `s.cache[key]`
unfoldable pub lookup : Text → Entries → Option CacheEntry
lookup key [] = none
lookup key ((k, v) ∷ m) = if text_eq k key then some v else lookup key m

-- `s.cache[key] = entry`
unfoldable pub insert : Text → CacheEntry → Entries → Entries
insert key entry [] = (key, entry) ∷ []
insert key entry ((k, v) ∷ m) =
    if text_eq k key then (key, entry) ∷ m else (k, v) ∷ insert key entry m

-- `delete(s.cache, key)`
unfoldable pub delete : Text → Entries → Entries
delete key [] = []
delete key ((k, v) ∷ m) = if text_eq k key then m else (k, v) ∷ delete key m

-- The loop of `evictOldest` over the entries that are left.
unfoldable pub oldest_key : Text → ℕ → Bool → Entries → Text
oldest_key key time first [] = key
oldest_key key time first ((k, v) ∷ m) =
    let older = oldest_key k v.expires_at false m in
    let same = oldest_key key time first m in if first || ltb v.expires_at time then older else same

unfoldable pub evict_oldest : Entries → Entries
evict_oldest cache =
    let key = oldest_key [] 0 true cache in if is_empty key then cache else delete key cache

-- The stretch of `Authenticate` under the read lock: the entry that is served at `now`.
unfoldable pub cached : AppStore → ℕ → Text → Option AppInfo
cached s now key = elim (lookup key s.cache) [
  | none ↦ none
  | some entry ↦ if ltb now entry.expires_at then some entry.info else none
]

-- The stretch of `Authenticate` under the write lock, at `now`.
unfoldable pub remember : AppStore → ℕ → Text → AppInfo → AppStore
remember s now key info =
    let room = if leb s.max_size (length s.cache) then evict_oldest s.cache else s.cache in
    record s { cache = insert key (record { info = info; expires_at = now + s.ttl }) room }

-- What `SELECT app_id, status … WHERE api_key = ?` gives.
pub data Row : Type 0 where
  no_rows db_error : Row
  row : AppInfo → Row

pub data AuthResult : Type 0 where
  found : AppInfo → AuthResult
  absent failed : AuthResult

-- `Authenticate`, where no other call comes between its two stretches. `answer` is the database at
-- the time of the query.
unfoldable pub authenticate :
    (Text → Text) → (Text → Row) → AppStore → ℕ → ℕ → Text → AppStore × AuthResult
authenticate hash answer s now_check now_set api_key =
    let key = hash api_key in
    elim (cached s now_check key) [
      | some info ↦ (s, found info)
      | none ↦ elim (answer key) [
        | no_rows ↦ (s, absent)
        | db_error ↦ (s, failed)
        | row info ↦ (remember s now_set key info, found info)
      ]
    ]

unfoldable pub invalidate_cache : AppStore → AppStore
invalidate_cache s = record s { cache = [] }

pub data StoreError : Type 0 where
  app_not_found exec_failed : StoreError

-- `UpdateStatus`, `UpdateAPIKey` and the last statement of `Delete` with its commit: `affected` is
-- the number of rows that the statement reports, `none` for an error of the database.
unfoldable pub finish_update : AppStore → Option ℕ → AppStore × Option StoreError
finish_update s none = (s, some exec_failed)
finish_update s (some affected) =
    if affected == 0 then (s, some app_not_found) else (invalidate_cache s, none)

-- `UpdateStatus`; `exec id status` is the answer to its statement.
unfoldable pub update_status :
    (Text → ℤ → Option ℕ) → AppStore → Text → ℤ → AppStore × Option StoreError
unfolding finish_update
update_status exec s id status = finish_update s (exec id status)

-- `UpdateAPIKey`
unfoldable pub update_api_key :
    (Text → Text → Option ℕ) → AppStore → Text → Text → AppStore × Option StoreError
unfolding finish_update
update_api_key exec s id new_key_hash = finish_update s (exec id new_key_hash)

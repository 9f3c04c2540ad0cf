-- ===== src/Store/App/Staleness.antt =====
-- How old an answer of the cache can be, whatever the calls of `Authenticate` interleave.
use octo_speech.Prelude.{
  ℕ, ◌+◌, ◌≤◌, ◌<◌, ◌≡◌, refl, ◌∙◌, ap, ◌⊎◌, ◌≢◌, inl, inr, Bool, true, false, [], ◌∷◌, Text,
  text_eq, text_eq_iff, length, some, arith, Bool-cases, Option-cases, if◌then◌else◌, is_empty, All,
}
use octo_speech.Store.App.{
  AppInfo, CacheEntry, Entries, AppStore, new_app_store, lookup, insert, delete, oldest_key,
  evict_oldest, cached, remember, Row, row, found, authenticate, invalidate_cache,
}
use octo_speech.Store.App.Cache.{IsSized, remember-IsSized}

-- `db t key` is the answer of the database at the time `t`, `delay` the longest time from a query
-- to the write of its result. A step is one stretch under the mutex; the queries of several calls
-- may lie before any of their writes.
pub data Reach (db : ℕ → Text → Row) (delay ttl : ℕ) : AppStore → Type 0 where
  start : Reach db delay ttl (new_app_store ttl)
  write :
      {s : AppStore} (queried now : ℕ) (key : Text) (info : AppInfo)
      → Reach db delay ttl s
      → key ≢ []
      → db queried key ≡ row info
      → now ≤ queried + delay
      → Reach db delay ttl (remember s now key info)
  clear : {s : AppStore} → Reach db delay ttl s → Reach db delay ttl (invalidate_cache s)

-- An entry was the database's answer at most `delay + ttl` before it runs out.
abbrev Grounded : (ℕ → Text → Row) → ℕ → Text × CacheEntry → Type 0
Grounded db life e = (at : ℕ) × (db at e.0 ≡ row e.1.info) × (e.1.expires_at ≤ at + life)

module _ (db : ℕ → Text → Row) (life : ℕ) where
  All-insert :
      (key : Text) (v : CacheEntry) (m : Entries)
      → Grounded db life (key, v)
      → All (Grounded db life) m
      → All (Grounded db life) (insert key v m)
  unfolding insert
  All-insert key v [] h a = (h, tt)
  All-insert key v ((j, w) ∷ m) h (here, a) = elim (Bool-cases (text_eq j key)) [
    | inl same ↦ rw same (h, a)
    | inr other ↦ rw other (here, All-insert key v m h a)
  ]

  All-delete :
      (key : Text) (m : Entries) → All (Grounded db life) m → All (Grounded db life) (delete key m)
  unfolding delete
  All-delete key [] a = tt
  All-delete key ((j, w) ∷ m) (here, a) = elim (Bool-cases (text_eq j key)) [
    | inl same ↦ rw same a
    | inr other ↦ rw other (here, All-delete key m a)
  ]

  All-evict_oldest :
      (m : Entries) → All (Grounded db life) m → All (Grounded db life) (evict_oldest m)
  unfolding evict_oldest
  All-evict_oldest m a = elim (Bool-cases (is_empty (oldest_key [] 0 true m))) [
    | inl nothing ↦ rw nothing a
    | inr some_key ↦ rw some_key (All-delete (oldest_key [] 0 true m) m a)
  ]

  All-evicted :
      (b : Bool) (m : Entries)
      → All (Grounded db life) m
      → All (Grounded db life) (if b then evict_oldest m else m)
  All-evicted true m a = All-evict_oldest m a
  All-evicted false m a = a

  All-lookup :
      (key : Text) (m : Entries) (v : CacheEntry)
      → All (Grounded db life) m
      → lookup key m ≡ some v
      → Grounded db life (key, v)
  unfolding lookup
  All-lookup key [] v a h = absurd (ground arith)
  All-lookup key ((j, w) ∷ m) v (here, a) h = elim (Bool-cases (text_eq j key)) [
    | inl same ↦
        let e : w ≡ v = ground arith in let k = (text_eq_iff j key).0 same in rw (← e, ← k) here
    | inr other ↦ All-lookup key m v a (ground arith)
  ]

remember_settings :
    (s : AppStore) (now : ℕ) (key : Text) (info : AppInfo)
    → ((remember s now key info).ttl ≡ s.ttl) × ((remember s now key info).max_size ≡ s.max_size)
unfolding remember
remember_settings s now key info = (refl, refl)

module _ {db : ℕ → Text → Row} {delay ttl : ℕ} where
  Reach-ttl : {s : AppStore} → Reach db delay ttl s → s.ttl ≡ ttl
  unfolding new_app_store invalidate_cache
  Reach-ttl start = refl
  Reach-ttl (write {s} queried now key info r full answer soon) =
      (remember_settings s now key info).0 ∙ Reach-ttl r
  Reach-ttl (clear r) = Reach-ttl r

  Reach-Grounded : {s : AppStore} → Reach db delay ttl s → All (Grounded db (delay + ttl)) s.cache
  unfolding new_app_store invalidate_cache remember
  Reach-Grounded start = tt
  Reach-Grounded (write {s} queried now key info r full answer soon) =
      All-insert db (delay + ttl) key _ _ (queried, answer, omega (arith, Reach-ttl r))
        (All-evicted db (delay + ttl) _ s.cache (Reach-Grounded r))
  Reach-Grounded (clear r) = tt

-- However the calls of `Authenticate` and the invalidations interleave, if a result is written at
-- most `delay` after its query, what the cache serves at a time was the answer of the database for
-- that key at some moment less than `delay + ttl` before. So a disabled or deleted application, or
-- a replaced key, is served from the cache for less than that long.
pub cached-recent :
    (db : ℕ → Text → Row) (delay ttl : ℕ) (s : AppStore) (now : ℕ) (key : Text) (info : AppInfo)
    → Reach db delay ttl s
    → cached s now key ≡ some info
    → (at : ℕ) × (db at key ≡ row info) × (now < at + (delay + ttl))
unfolding cached
cached-recent db delay ttl s now key info r h = elim (Option-cases (lookup key s.cache)) [
  | inl missing ↦ absurd (ground arith)
  | inr (v, e) ↦
      let (at, answer, life) = All-lookup db (delay + ttl) key s.cache v (Reach-Grounded r) e in
      let served : v.info ≡ info = ground arith in (at, answer ∙ ap row served, ground arith)
]

-- The same for a whole call of `Authenticate` that queries the database at `queried`, not before
-- it looked into the cache at `now`: an application that it finds was the database's answer for
-- the key's hash at some moment, and less than `delay + ttl` before `now`, or at `queried`.
pub authenticate-recent :
    (hash : Text → Text) (db : ℕ → Text → Row) (delay ttl : ℕ) (s : AppStore)
    (now queried written : ℕ) (api_key : Text) (info : AppInfo)
    → Reach db delay ttl s
    → (authenticate hash (db queried) s now written api_key).1 ≡ found info
    → (at : ℕ) × (db at (hash api_key) ≡ row info) × ((at ≡ queried) ⊎ (now < at + (delay + ttl)))
unfolding authenticate
authenticate-recent hash db delay ttl s now queried written api_key info r h =
    elim (Option-cases (cached s now (hash api_key))) [
      | inl miss ↦ (queried, ground arith, inl refl)
      | inr (served, hit) ↦
          let same : served ≡ info = ground arith in
          let (at, answer, life) =
            cached-recent db delay ttl s now (hash api_key) info r (hit ∙ ap some same) in
          (at, answer, inr life)
    ]

Reach-IsSized :
    {db : ℕ → Text → Row} {delay ttl : ℕ} {s : AppStore} → Reach db delay ttl s → IsSized s
unfolding new_app_store invalidate_cache
Reach-IsSized start = record { room = omega arith; fits = omega arith; keyed = tt; distinct = tt }
Reach-IsSized (write {s} queried now key info r full answer soon) =
    remember-IsSized s now key info full (Reach-IsSized r)
Reach-IsSized (clear r) =
    let i = Reach-IsSized r in
    record { room = i.room; fits = omega arith; keyed = tt; distinct = tt }

Reach-max_size :
    {db : ℕ → Text → Row} {delay ttl : ℕ} {s : AppStore}
    → Reach db delay ttl s
    → s.max_size ≡ 10_000
unfolding new_app_store invalidate_cache
Reach-max_size start = refl
Reach-max_size (write {s} queried now key info r full answer soon) =
    (remember_settings s now key info).1 ∙ Reach-max_size r
Reach-max_size (clear r) = Reach-max_size r

-- However the calls interleave, the cache never holds more than its 10,000 entries.
pub length-cache-le :
    (db : ℕ → Text → Row) (delay ttl : ℕ) (s : AppStore)
    → Reach db delay ttl s
    → length s.cache ≤ 10_000
length-cache-le db delay ttl s r = rw (Reach-max_size r) at ((Reach-IsSized r).fits)

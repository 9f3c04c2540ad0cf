-- ===== src/Store/App/Order.antt =====
-- What `evictOldest` of internal/store/app.go does to the cache as a Go map, whatever the order in
-- which the program ranges over it.
use octo_speech.Prelude.{
  ℕ, ◌+◌, ◌≤◌, ◌<◌, ◌≡◌, refl, sym, ◌∙◌, inl, inr, true, false, [], ◌∷◌, Text, text_eq, length, leb,
  ltb, if◌then◌else◌, some, none, arith, Bool-cases, In, here, there,
}
use octo_speech.Store.App.{
  AppInfo, AppStore, CacheEntry, Entries, lookup, oldest_key, evict_oldest, remember,
}
use octo_speech.Store.App.Keys.{Distinct, lookup-delete, lookup-insert, lookup-In, In-lookup}
use octo_speech.Store.App.Cache.{
  Keyed, IsSized, oldest_key-nil, oldest_key-cons, HasKey-ne_nil, oldest_key-HasKey,
}

-- No entry expires before `time`.
abbrev NoneBefore : ℕ → Entries → Type 0
NoneBefore time m = (j : Text) (w : CacheEntry) → In (j, w) m → time ≤ w.expires_at

NoneBefore-cons :
    (time : ℕ) (k : Text) (v : CacheEntry) (m : Entries)
    → time ≤ v.expires_at
    → NoneBefore time m
    → NoneBefore time ((k, v) ∷ m)
NoneBefore-cons time k v m le least j w here = le
NoneBefore-cons time k v m le least j w (there at) = least j w at

-- The loop ends with the key that it began with, or with one of the entries, and no entry expires
-- before it.
data Ends (key : Text) (time : ℕ) (m : Entries) (r : Text) : Type 0 where
  begun : r ≡ key → NoneBefore time m → Ends key time m r
  entered :
      (v : CacheEntry)
      → In (r, v) m
      → v.expires_at ≤ time
      → NoneBefore v.expires_at m
      → Ends key time m r

oldest_key-Ends :
    (key : Text) (time : ℕ) (m : Entries) → Ends key time m (oldest_key key time false m)
oldest_key-Ends key time [] = begun (oldest_key-nil key time false) (λ j w at. elim at [ ])
oldest_key-Ends key time ((k, v) ∷ m) = elim (Bool-cases (ltb v.expires_at time)) [
  | inl older ↦
      rw (oldest_key-cons, older)
        (elim (oldest_key-Ends k v.expires_at m) [
          | begun e least ↦
              entered v (rw e here) (ground arith)
                (NoneBefore-cons v.expires_at k v m (omega arith) least)
          | entered u at le least ↦
              entered u (there at) (ground arith) (NoneBefore-cons u.expires_at k v m le least)
        ])
  | inr newer ↦
      rw (oldest_key-cons, newer)
        (elim (oldest_key-Ends key time m) [
          | begun e least ↦ begun e (NoneBefore-cons time k v m (ground arith) least)
          | entered u at le least ↦
              entered u (there at) le (NoneBefore-cons u.expires_at k v m (ground arith) least)
        ])
]

-- The first key that the program meets is taken, so the loop ends with an entry.
oldest_entry :
    (e : Text × CacheEntry) (m : Entries)
    → (v : CacheEntry) × In (oldest_key [] 0 true (e ∷ m), v) (e ∷ m)
      × NoneBefore v.expires_at (e ∷ m)
oldest_entry (k, v) m = rw (oldest_key-cons) (elim (oldest_key-Ends k v.expires_at m) [
  | begun e least ↦ (v, rw e here, NoneBefore-cons v.expires_at k v m (omega arith) least)
  | entered u at le least ↦ (u, there at, NoneBefore-cons u.expires_at k v m le least)
])

-- What an eviction does to the cache as a map: one entry goes, none expires before it, and every
-- other key keeps its entry.
pub record Evicts (m n : Entries) : Type 0 where
  pub key : Text
  pub entry : CacheEntry
  pub held : lookup key m ≡ some entry
  pub oldest : (j : Text) (w : CacheEntry) → lookup j m ≡ some w → entry.expires_at ≤ w.expires_at
  pub rest : (j : Text) → lookup j n ≡ (if text_eq key j then none else lookup j m)

pub evict_oldest-Evicts :
    (e : Text × CacheEntry) (m : Entries)
    → Distinct (e ∷ m)
    → Keyed (e ∷ m)
    → Evicts (e ∷ m) (evict_oldest (e ∷ m))
unfolding evict_oldest
evict_oldest-Evicts (k, v) m distinct keyed =
    let all = (k, v) ∷ m in
    let oldest = oldest_entry (k, v) m in
    let key = oldest_key [] 0 true all in
    let full = HasKey-ne_nil key (oldest_key-HasKey k v m) keyed in
    record {
      key = key;
      entry = oldest.0;
      held = In-lookup key oldest.0 all distinct oldest.1;
      oldest = λ j w at. oldest.2 j w (lookup-In j w all at);
      rest = λ j. ground (arith, lookup-delete key j all distinct);
    }

full-Evicts : (m : Entries) → 0 < length m → Distinct m → Keyed m → Evicts m (evict_oldest m)
full-Evicts [] h d k = absurd (omega arith)
full-Evicts (e ∷ m) h d k = evict_oldest-Evicts e m d k

-- What `remember` does to the cache as a map: the new entry stands under its key; below
-- `max_size` every other key keeps its entry, else an entry that no other expires before is gone.
pub data Remembers (s : AppStore) (key : Text) (entry : CacheEntry) (n : Entries) : Type 0 where
  with_room :
      length s.cache < s.max_size
      → ((j : Text) → lookup j n ≡ (if text_eq key j then some entry else lookup j s.cache))
      → Remembers s key entry n
  when_full :
      s.max_size ≤ length s.cache
      → (m : Entries) → Evicts s.cache m
      → ((j : Text) → lookup j n ≡ (if text_eq key j then some entry else lookup j m))
      → Remembers s key entry n

-- What `Authenticate` writes to the cache, seen as a map: the new entry stands under its key; below
-- `max_size` entries every other key keeps its entry, and else one entry that no other expires
-- before goes first and the rest stays, if the cache fits and has each key once and none empty.
pub remember-Remembers :
    (s : AppStore) (now : ℕ) (key : Text) (info : AppInfo)
    → IsSized s
    → Remembers s key
        (record { info = info; expires_at = now + s.ttl })
        ((remember s now key info).cache)
unfolding remember
remember-Remembers s now key info i = elim (Bool-cases (leb s.max_size (length s.cache))) [
  | inl full ↦
      let some_entry = i.room in
      let size : s.max_size ≤ length s.cache = ground arith in
      let evicted = full-Evicts s.cache (omega arith) i.distinct i.keyed in
      when_full size (evict_oldest s.cache) evicted (λ j. rw full (
        lookup-insert key j (record { info = info; expires_at = now + s.ttl })
          (evict_oldest s.cache)))
  | inr room ↦ with_room (ground arith) (λ j.
      rw room (lookup-insert key j (record { info = info; expires_at = now + s.ttl }) s.cache))
]

-- Two listings of one map, in which no two entries expire at the same time, lose the same entry.
evict_oldest-order :
    (e f : Text × CacheEntry) (m n : Entries)
    → Distinct (e ∷ m)
    → Keyed (e ∷ m)
    → Distinct (f ∷ n)
    → Keyed (f ∷ n)
    → ((j : Text) → lookup j (e ∷ m) ≡ lookup j (f ∷ n))
    → ((i j : Text) (v w : CacheEntry)
        → lookup i (e ∷ m) ≡ some v
        → lookup j (e ∷ m) ≡ some w
        → v.expires_at ≡ w.expires_at
        → i ≡ j)
    → (j : Text) → lookup j (evict_oldest (e ∷ m)) ≡ lookup j (evict_oldest (f ∷ n))
evict_oldest-order e f m n dm km dn kn same ties j =
    let a = evict_oldest-Evicts e m dm km in
    let b = evict_oldest-Evicts f n dn kn in
    let held = same b.key ∙ b.held in
    let le = a.oldest b.key b.entry held in
    let ge = b.oldest a.key a.entry (sym (same a.key) ∙ a.held) in
    let one = ties a.key b.key a.entry b.entry a.held held (omega arith) in
    rw (a.rest, b.rest, one, same) refl

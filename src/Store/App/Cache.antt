-- ===== src/Store/App/Cache.antt =====
-- The size of the cache of internal/store/app.go.
use octo_speech.Prelude.{
  ℕ, suc, ◌+◌, ◌≤◌, ◌<◌, ◌≡◌, refl, sym, ◌≢◌, inl, inr, ◌⊎◌, Bool, true, false, ◌||◌, [], ◌∷◌, Text,
  text_eq, text_eq_iff, is_empty, length, All, ltb, leb, if◌then◌else◌, arith, Bool-cases,
}
use octo_speech.Store.App.{
  AppInfo, CacheEntry, Entries, AppStore, insert, delete, oldest_key, evict_oldest, remember,
}
use octo_speech.Store.App.Keys.{Distinct, Distinct-insert, Distinct-delete}

-- No entry has the empty key, which `evictOldest` takes for no entry at all.
abbrev pub Keyed : Entries → Type 0
Keyed = All (λ e. e.0 ≢ [])

length-insert :
    (key : Text) (v : CacheEntry) (m : Entries) → length (insert key v m) ≤ suc (length m)
unfolding insert
length-insert key v [] = omega arith
length-insert key v ((k, w) ∷ m) = ground (arith, length-insert key v m)

Keyed-insert :
    (key : Text) (v : CacheEntry) (m : Entries) → key ≢ [] → Keyed m → Keyed (insert key v m)
unfolding insert
Keyed-insert key v [] h k = (h, tt)
Keyed-insert key v ((j, w) ∷ m) h (a, k) = elim (Bool-cases (text_eq j key)) [
  | inl same ↦ rw same (h, k)
  | inr other ↦ rw other (a, Keyed-insert key v m h k)
]

Keyed-delete : (key : Text) (m : Entries) → Keyed m → Keyed (delete key m)
unfolding delete
Keyed-delete key [] k = tt
Keyed-delete key ((j, w) ∷ m) (a, k) = elim (Bool-cases (text_eq j key)) [
  | inl same ↦ rw same k
  | inr other ↦ rw other (a, Keyed-delete key m k)
]

-- A key of the entries.
pub data HasKey (key : Text) : Entries → Type 0 where
  first_entry : {k : Text} {v : CacheEntry} {m : Entries} → k ≡ key → HasKey key ((k, v) ∷ m)
  later_entry : {k : Text} {v : CacheEntry} {m : Entries} → HasKey key m → HasKey key ((k, v) ∷ m)

length-delete : (key : Text) {m : Entries} → HasKey key m → suc (length (delete key m)) ≡ length m
unfolding delete
length-delete key (first_entry {k} e) = ground (arith, text_eq_iff k key)
length-delete key (later_entry {k} h) = ground (arith, length-delete key h)

pub oldest_key-nil : (key : Text) (time : ℕ) (first : Bool) → oldest_key key time first [] ≡ key
unfolding oldest_key
oldest_key-nil key time first = refl

pub oldest_key-cons :
    (key : Text) (time : ℕ) (first : Bool) (k : Text) (v : CacheEntry) (m : Entries)
    → oldest_key key time first ((k, v) ∷ m) ≡ (
        if first || ltb v.expires_at time
        then oldest_key k v.expires_at false m
        else oldest_key key time first m)
unfolding oldest_key
oldest_key-cons key time first k v m = refl

oldest_key_cases :
    (key : Text) (time : ℕ) (first : Bool) (m : Entries)
    → (oldest_key key time first m ≡ key) ⊎ HasKey (oldest_key key time first m) m
oldest_key_cases key time first [] = inl (oldest_key-nil key time first)
oldest_key_cases key time first ((k, v) ∷ m) = elim (Bool-cases (first || ltb v.expires_at time)) [
  | inl older ↦
      rw (oldest_key-cons, older)
        (elim (oldest_key_cases k v.expires_at false m) [
          | inl here ↦ inr (first_entry (sym here))
          | inr later ↦ inr (later_entry later)
        ])
  | inr newer ↦
      rw (oldest_key-cons, newer)
        (elim (oldest_key_cases key time first m) [
          | inl same ↦ inl same
          | inr later ↦ inr (later_entry later)
        ])
]

pub HasKey-ne_nil : (key : Text) {m : Entries} → HasKey key m → Keyed m → key ≢ []
HasKey-ne_nil key (first_entry e) (a, k) = rw (← e) a
HasKey-ne_nil key (later_entry h) (a, k) = HasKey-ne_nil key h k

pub oldest_key-HasKey :
    (k : Text) (v : CacheEntry) (m : Entries)
    → HasKey (oldest_key [] 0 true ((k, v) ∷ m)) ((k, v) ∷ m)
oldest_key-HasKey k v m = rw (oldest_key-cons) (elim (oldest_key_cases k v.expires_at false m) [
  | inl here ↦ first_entry (sym here)
  | inr later ↦ later_entry later
])

length-evict_oldest :
    (e : Text × CacheEntry) (m : Entries)
    → Keyed (e ∷ m)
    → suc (length (evict_oldest (e ∷ m))) ≡ length (e ∷ m)
unfolding evict_oldest
length-evict_oldest (k, v) m keyed =
    let has = oldest_key-HasKey k v m in
    let key = oldest_key [] 0 true ((k, v) ∷ m) in
    let full = HasKey-ne_nil key has keyed in ground (arith, length-delete key has)

Keyed-evict_oldest : (m : Entries) → Keyed m → Keyed (evict_oldest m)
unfolding evict_oldest
Keyed-evict_oldest m k = elim (Bool-cases (is_empty (oldest_key [] 0 true m))) [
  | inl nothing ↦ rw nothing k
  | inr some_key ↦ rw some_key (Keyed-delete (oldest_key [] 0 true m) m k)
]

Distinct-evict_oldest : (m : Entries) → Distinct m → Distinct (evict_oldest m)
unfolding evict_oldest
Distinct-evict_oldest m d = elim (Bool-cases (is_empty (oldest_key [] 0 true m))) [
  | inl nothing ↦ rw nothing d
  | inr some_key ↦ rw some_key (Distinct-delete (oldest_key [] 0 true m) m d)
]

-- The cache fits, each key stands once in it, and `evictOldest` can name its entries.
pub record IsSized (s : AppStore) : Type 0 where
  pub room : 0 < s.max_size
  pub fits : length s.cache ≤ s.max_size
  pub keyed : Keyed s.cache
  pub distinct : Distinct s.cache

evicted-fits :
    (m : Entries) (max : ℕ)
    → 0 < max
    → length m ≤ max
    → Keyed m
    → suc (length (if leb max (length m) then evict_oldest m else m)) ≤ max
evicted-fits [] max r f k = ground arith
evicted-fits (e ∷ m) max r f k = ground (arith, length-evict_oldest e m k)

evicted-Keyed : (m : Entries) (b : Bool) → Keyed m → Keyed (if b then evict_oldest m else m)
evicted-Keyed m true k = Keyed-evict_oldest m k
evicted-Keyed m false k = k

evicted-Distinct :
    (m : Entries) (b : Bool) → Distinct m → Distinct (if b then evict_oldest m else m)
evicted-Distinct m true d = Distinct-evict_oldest m d
evicted-Distinct m false d = d

pub remember-IsSized :
    (s : AppStore) (now : ℕ) (key : Text) (info : AppInfo)
    → key ≢ []
    → IsSized s
    → IsSized (remember s now key info)
unfolding remember
remember-IsSized s now key info h i =
    let full = leb s.max_size (length s.cache) in
    let room = if full then evict_oldest s.cache else s.cache in
    let entry : CacheEntry = record { info = info; expires_at = now + s.ttl } in
    record {
      room = i.room;
      fits = omega (
        arith,
        length-insert key entry room,
        evicted-fits s.cache s.max_size i.room i.fits i.keyed,
      );
      keyed = Keyed-insert key entry room h (evicted-Keyed s.cache full i.keyed);
      distinct = Distinct-insert key entry room (evicted-Distinct s.cache full i.distinct);
    }

-- ===== src/Store/App/Tests.antt =====
-- A registry with one application.
use octo_speech.Prelude.{
  ℕ, zero, suc, ◌+◌, ◌≡◌, ◌<◌, ◌⊎◌, ◌↔◌, refl, Bool, true, false, [], ◌∷◌, Text, codes, arith,
  Option, some, none, text_eq, if◌then◌else◌, ltb,
}
use octo_speech.Prelude.Int.{ℤ, pos, negsuc}
use octo_speech.Store.App.{
  AppInfo, AppStore, Row, row, found, app_not_found, new_app_store, remember, cached, authenticate,
  lookup, insert, update_status, oldest_key, evict_oldest, CacheEntry, delete,
}
use octo_speech.Store.App.Staleness.{Reach, start, write, cached-recent, authenticate-recent}
use octo_speech.Store.App.Cache.{IsSized}
use octo_speech.Store.App.Order.{Remembers, remember-Remembers}
use octo_speech.Store.App.Status.{CountsChanges, update_status-not_found_iff}

abbrev enabled : AppInfo
enabled = record { app_id = codes "app_1"; status = pos 1 }

abbrev disabled : AppInfo
disabled = record { app_id = codes "app_1"; status = pos 0 }

-- The application is disabled at the time 10.
abbrev database : ℕ → Text → Row
database t key = if ltb t 10 then row enabled else row disabled

abbrev hash : Text → Text
hash key = codes "h"

-- The key was authenticated at the time 5, and its result written at 6.
abbrev seen : AppStore
seen = remember (new_app_store 60) 6 (codes "h") enabled

seen-Reach : Reach database 2 60 seen
seen-Reach = write 5 6 (codes "h") enabled start (ground arith) refl (omega arith)

served : cached seen 50 (codes "h") ≡ some enabled
unfolding cached remember new_app_store lookup insert text_eq
served = refl

forgotten : cached seen 66 (codes "h") ≡ none
unfolding cached remember new_app_store lookup insert text_eq
forgotten = refl

cached-recent_example : (at : ℕ) × (database at (codes "h") ≡ row enabled) × (50 < at + (2 + 60))
cached-recent_example = cached-recent database 2 60 seen 50 (codes "h") enabled seen-Reach served

authenticated : (authenticate hash (database 50) seen 50 51 (codes "sk-1")).1 ≡ found enabled
unfolding authenticate cached remember new_app_store lookup insert text_eq
authenticated = refl

authenticate-recent_example :
    (at : ℕ) × (database at (codes "h") ≡ row enabled) × ((at ≡ 50) ⊎ (50 < at + (2 + 60)))
authenticate-recent_example =
    authenticate-recent hash database 2 60 seen 50 50 51 (codes "sk-1") enabled seen-Reach
      authenticated

abbrev key_at : Text → ℕ → Text × CacheEntry
key_at key expires_at = (key, record { info = enabled; expires_at = expires_at })

evicts_oldest :
    evict_oldest (key_at (codes "a") 9 ∷ key_at (codes "b") 7 ∷ key_at (codes "c") 8 ∷ [])
    ≡ key_at (codes "a") 9 ∷ key_at (codes "c") 8 ∷ []
unfolding evict_oldest oldest_key delete text_eq
evicts_oldest = refl

-- One application, enabled; a statement counts the row that it changes.
abbrev status_of : Text → Option ℤ
status_of id = if text_eq id (codes "app_1") then some (pos 1) else none

abbrev is_one : ℤ → Bool
is_one (pos zero) = false
is_one (pos (suc zero)) = true
is_one (pos (suc (suc n))) = false
is_one (negsuc n) = false

abbrev exec : Text → ℤ → Option ℕ
exec id new = if text_eq id (codes "app_1") then (if is_one new then some 0 else some 1) else some 0

is_one_of_eq : (z : ℤ) → (is_one z ≡ true) ↔ (z ≡ pos 1)
is_one_of_eq (pos zero) = (λ h. cc, λ e. cc)
is_one_of_eq (pos (suc zero)) = (λ _. refl, λ _. refl)
is_one_of_eq (pos (suc (suc n))) = (λ h. cc, λ e. cc)
is_one_of_eq (negsuc n) = (λ h. cc, λ e. cc)

exec-CountsChanges : CountsChanges status_of exec
exec-CountsChanges = record {
  none_missing = λ id new n missing h. ground arith;
  none_same = λ id new n same h. ground (arith, is_one_of_eq new);
  one_changed = λ id old new n there other h. ground (arith, is_one_of_eq new);
}

found_one : exec (codes "app_1") (pos 1) ≡ some 0
unfolding text_eq
found_one = refl

update_status-not_found_iff_example :
    ((update_status exec seen (codes "app_1") (pos 1)).1 ≡ some app_not_found)
    ↔ ((status_of (codes "app_1") ≡ none) ⊎ (status_of (codes "app_1") ≡ some (pos 1)))
update_status-not_found_iff_example =
    update_status-not_found_iff status_of exec exec-CountsChanges seen (codes "app_1") (pos 1) 0
      found_one

-- A cache with room for three, full when the key "d" comes.
abbrev crowded : AppStore
crowded = record (new_app_store 60) {
  max_size = 3;
  cache = key_at (codes "a") 9 ∷ key_at (codes "b") 7 ∷ key_at (codes "c") 8 ∷ [];
}

crowded-IsSized : IsSized crowded
unfolding new_app_store lookup text_eq
crowded-IsSized = record {
  room = omega arith;
  fits = omega arith;
  keyed = ((λ h. cc), ((λ h. cc), ((λ h. cc), tt)));
  distinct = (refl, (refl, (refl, tt)));
}

remember-Remembers_example :
    Remembers crowded
      (codes "d")
      (record { info = enabled; expires_at = 5 + crowded.ttl })
      ((remember crowded 5 (codes "d") enabled).cache)
remember-Remembers_example = remember-Remembers crowded 5 (codes "d") enabled crowded-IsSized

-- ===== src/AsrLog/Cleaner.antt =====
-- internal/asrlog/cleaner.go: the removal of old directories of the log. The file system and
-- package time are arguments. Times are seconds since the beginning of the year 0, UTC, which is the
-- first that a name of a directory can give.
pub mod Retention
pub mod Lifetime
mod Tests
use octo_speech.Prelude.{
  ℕ, ◌+◌, ◌-◌, ◌*◌, ◌≡◌, ◌≢◌, Bool, true, false, Option, some, none, List, [], ◌∷◌, Text, ltb,
  if◌then◌else◌,
}
use octo_speech.Prelude.Int.{ℤ, pos, negsuc}

-- The base directory: `read_dir` lists the names in it, with true for a directory; `remove_all`
-- gives true for no error; `dir` is what a name holds.
pub record Folder (S : Type 0) : Type 1 where
  pub Content : Type 0
  pub read_dir : S → Option (List (Text × Bool))
  pub remove_all : S → Text → S × Bool
  pub dir : S → Text → Option Content

-- A removal, also one that fails, touches no other name; one that succeeds removes its name.
pub record IsFolder {S : Type 0} (folder : Folder S) : Type 0 where
  pub dir-remove_all_other :
      (s : S) (name other : Text)
      → name ≢ other
      → folder.dir (folder.remove_all s name).0 other ≡ folder.dir s other
  pub dir-remove_all :
      (s : S) (name : Text)
      → (folder.remove_all s name).1 ≡ true
      → folder.dir (folder.remove_all s name).0 name ≡ none

abbrev pub day : ℕ
day = 86_400

-- `time.Now().UTC().AddDate(0, 0, -c.retentionDays)`. Where it lies before the year 0, no directory
-- is older, and none is older than the year 0 either.
unfoldable pub cutoff : ℤ → ℕ → ℕ
cutoff (pos n) now = now - n * day
cutoff (negsuc n) now = now + (n + 1) * day

-- `time.Parse("2006-01-02", name)` and `t.Before(cutoff)`, for a directory.
unfoldable pub is_old : (Text → Option ℕ) → ℕ → Text × Bool → Bool
is_old parse_date limit (name, false) = false
is_old parse_date limit (name, true) = elim (parse_date name) [
  | none ↦ false
  | some t ↦ ltb t limit
]

module _ {S : Type 0} (folder : Folder S) (parse_date : Text → Option ℕ) where
  -- The loop of `clean`.
  unfoldable pub remove_old : ℕ → S → List (Text × Bool) → S
  remove_old limit s [] = s
  remove_old limit s (e ∷ entries) =
      remove_old limit (if is_old parse_date limit e then (folder.remove_all s e.0).0 else s)
        entries

  unfoldable pub clean : ℤ → S → ℕ → S
  unfolding remove_old cutoff
  clean retention_days s now = elim (folder.read_dir s) [
    | none ↦ s
    | some entries ↦ remove_old (cutoff retention_days now) s entries
  ]

  -- The cleans of `run`: one when it starts, and one for each tick that the select takes before it
  -- takes the end of the context.
  unfoldable pub run_ticks : ℤ → S → List ℕ → S
  unfolding clean
  run_ticks retention_days s [] = s
  run_ticks retention_days s (now ∷ ticks) =
      run_ticks retention_days (clean retention_days s now) ticks

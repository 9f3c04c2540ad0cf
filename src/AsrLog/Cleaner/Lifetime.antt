-- ===== src/AsrLog/Cleaner/Lifetime.antt =====
-- The goroutine of internal/asrlog/cleaner.go from NewCleaner to Close, in every order of its ticks
-- and of the calls. The times of a run are those at which it cleans.
-- Nothing else writes in the folder between two cleans.
use octo_speech.Prelude.{
  ℕ, ◌+◌, ◌*◌, ◌≤◌, ◌<◌, ◌≡◌, refl, sym, Bool, true, false, ◌⊎◌, inl, inr, Option, some, List, [],
  ◌∷◌, ◌++◌, Text, All, length, arith,
}
use octo_speech.Prelude.Int.{ℤ, pos}
use octo_speech.AsrLog.{AsrEntry}
use octo_speech.AsrLog.Cleaner.{Folder, IsFolder, day, clean, run_ticks}
use octo_speech.AsrLog.Cleaner.Retention.{run_ticks-keeps}
use octo_speech.AsrLog.Files.{Formats, date_dir, time_of}

-- Where the goroutine stands: not started, before its first clean, in the select, returned.
pub data Standing : Type 0 where
  created started selecting returned : Standing

pub record Cleaner (S : Type 0) : Type 0 where
  pub files : S
  pub phase : Standing
  -- The context is cancelled.
  pub cancelled : Bool

-- `NewCleaner`
abbrev pub new_cleaner : {S : Type 0} → S → Cleaner S
new_cleaner s = record { files = s; phase = created; cancelled = false }

phase-cases : (p : Standing) → (p ≡ created) ⊎ (p ≡ started) ⊎ (p ≡ selecting) ⊎ (p ≡ returned)
phase-cases created = inl refl
phase-cases started = inr (inl refl)
phase-cases selecting = inr (inr (inl refl))
phase-cases returned = inr (inr (inr refl))

module _ {S : Type 0} (folder : Folder S) (parse_date : Text → Option ℕ) (retention_days : ℤ) where
  -- `Start`, the stretches of `run`, and the first statement of `Close`; where a tick is there and
  -- the context is cancelled, the select takes either.
  pub data Turn (c : Cleaner S) : List ℕ → Cleaner S → Type 0 where
    start : c.phase ≡ created → Turn c [] (record c { phase = started })
    first_clean :
        (now : ℕ)
        → c.phase ≡ started
        → Turn c (now ∷ []) (record c {
          files = clean folder parse_date retention_days c.files now;
          phase = selecting;
        })
    tick :
        (now : ℕ)
        → c.phase ≡ selecting
        → Turn c
            (now ∷ [])
            (record c { files = clean folder parse_date retention_days c.files now })
    cancel : Turn c [] (record c { cancelled = true })
    leave : c.phase ≡ selecting → c.cancelled ≡ true → Turn c [] (record c { phase = returned })

  pub data Runs (c : Cleaner S) : List ℕ → Cleaner S → Type 0 where
    begin : Runs c [] c
    next :
        {times more : List ℕ} {d e : Cleaner S}
        → Runs c times d
        → Turn d more e
        → Runs c (times ++ more) e

  run_ticks-append :
      (s : S) (a b : List ℕ)
      → run_ticks folder parse_date retention_days s (a ++ b)
        ≡ run_ticks folder parse_date retention_days
            (run_ticks folder parse_date retention_days s a)
            b
  unfolding run_ticks
  run_ticks-append s [] b = refl
  run_ticks-append s (now ∷ a) b =
      run_ticks-append (clean folder parse_date retention_days s now) a b

  files-Turn :
      {c d : Cleaner S} {times : List ℕ}
      → Turn c times d
      → d.files ≡ run_ticks folder parse_date retention_days c.files times
  unfolding run_ticks
  files-Turn (start h) = refl
  files-Turn (first_clean now h) = refl
  files-Turn (tick now h) = refl
  files-Turn cancel = refl
  files-Turn (leave h cancelled) = refl

  -- The goroutine does what `run` does at the times at which it cleans.
  pub files-Runs :
      {c d : Cleaner S} {times : List ℕ}
      → Runs c times d
      → d.files ≡ run_ticks folder parse_date retention_days c.files times
  unfolding run_ticks
  files-Runs begin = refl
  files-Runs {c} (next {times} {more} r s) =
      rw (files-Turn s, files-Runs r) (sym (run_ticks-append c.files times more))

  -- The goroutine has not been started, or it returns from here with one more clean at most.
  abbrev pub CanReturn : Cleaner S → Type 0
  CanReturn c =
      (c.phase ≡ created)
      ⊎ ((more : List ℕ) × (d : Cleaner S) × Runs c more d
          × (d.phase ≡ returned)
          × (length more ≤ 1))

  pub can_return : (c : Cleaner S) → CanReturn c
  can_return c = elim (phase-cases c.phase) [
    | inl h ↦ inl h
    | inr (inl h) ↦ inr (
      0 ∷ [],
      _,
      next (next (next begin cancel) (first_clean 0 h)) (leave refl refl),
      refl,
      omega arith,
    )
    | inr (inr (inl h)) ↦ inr ([], _, next (next begin cancel) (leave h refl), refl, omega arith)
    | inr (inr (inr h)) ↦ inr ([], c, begin, h, omega arith)
  ]

  turn_returned :
      {c d : Cleaner S} {times : List ℕ}
      → c.phase ≡ returned
      → Turn c times d
      → (d.phase ≡ returned) × (times ≡ [])
  turn_returned h (start at) = absurd (cc)
  turn_returned h (first_clean now at) = absurd (cc)
  turn_returned h (tick now at) = absurd (cc)
  turn_returned h cancel = (h, refl)
  turn_returned h (leave at over) = absurd (cc)

  -- Behind the return of the goroutine nothing is cleaned.
  pub returned-ends :
      {c d : Cleaner S} {times : List ℕ}
      → c.phase ≡ returned
      → Runs c times d
      → (d.phase ≡ returned) × (times ≡ [])
  returned-ends h begin = (h, refl)
  returned-ends h (next r s) =
      let before = returned-ends h r in
      let (at, none_more) = turn_returned before.0 s in (at, rw (before.1, none_more) refl)

-- From NewCleaner on, in every order of the ticks and of Start and Close: if the cleaner cleans only
-- while an entry is less than the days of retention less one old, it leaves the directory of the
-- entry's date as it is, provided that its name is that of a day which holds the time of the entry.
-- It has not been started, or can return with one more clean at most.
pub Runs-keeps :
    {S : Type 0} (folder : Folder S) (parse_date : Text → Option ℕ) (formats : Formats)
    (entry : AsrEntry) (midnight retention_days : ℕ) (times : List ℕ) (s : S) (c : Cleaner S)
    → IsFolder folder
    → parse_date (date_dir formats entry) ≡ some midnight
    → time_of formats entry < midnight + day
    → Runs folder parse_date (pos retention_days) (new_cleaner s) times c
    → All (λ now. now + day ≤ time_of formats entry + retention_days * day) times
    → (folder.dir c.files (date_dir formats entry) ≡ folder.dir s (date_dir formats entry))
      × CanReturn folder parse_date (pos retention_days) c
Runs-keeps folder parse_date formats entry midnight retention_days times s c laws named within runs
      soon =
    (
      rw (files-Runs folder parse_date (pos retention_days) runs) (
          run_ticks-keeps folder parse_date formats entry midnight retention_days times s laws named
            within soon),
      can_return folder parse_date (pos retention_days) c,
    )

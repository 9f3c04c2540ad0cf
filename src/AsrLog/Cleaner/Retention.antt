-- ===== src/AsrLog/Cleaner/Retention.antt =====
-- How long the cleaner keeps the directory of an entry.
use octo_speech.Prelude.{
  ℕ, ◌+◌, ◌*◌, ◌≤◌, ◌<◌, ◌≡◌, ◌≢◌, refl, sym, ◌∙◌, Bool, true, false, Option, some, none, List, [],
  ◌∷◌, Text, All, arith, if◌then◌else◌, text_eq, text_eq_iff, Bool-cases, Option-cases, inl, inr,
  subst, ◌++◌, some-injective,
}
use octo_speech.Prelude.Int.{ℤ, pos}
use octo_speech.AsrLog.Cleaner.{Folder, IsFolder, day, cutoff, is_old, remove_old, clean, run_ticks}
use octo_speech.AsrLog.{AsrEntry}
use octo_speech.AsrLog.Files.{Formats, date_dir, time_of}

module _ {S : Type 0} (folder : Folder S) (parse_date : Text → Option ℕ)
    (laws : IsFolder folder) where
  -- A name that is not the date of a day before the limit.
  abbrev Recent : ℕ → Text → Type 0
  Recent limit name = (t : ℕ) → parse_date name ≡ some t → limit ≤ t

  is_old-Recent :
      (limit : ℕ) (e : Text × Bool) (name : Text)
      → Recent limit name
      → is_old parse_date limit e ≡ true
      → e.0 ≢ name
  unfolding is_old
  is_old-Recent limit (n, false) name recent old same = absurd (ground arith)
  is_old-Recent limit (n, true) name recent old same = elim (Option-cases (parse_date n)) [
    | inl undated ↦ absurd (ground arith)
    | inr (t, e) ↦ let late = recent t (rw (← same) e) in absurd (ground arith)
  ]

  dir-remove_old :
      (limit : ℕ) (s : S) (entries : List (Text × Bool)) (name : Text)
      → Recent limit name
      → folder.dir (remove_old folder parse_date limit s entries) name ≡ folder.dir s name
  unfolding remove_old
  dir-remove_old limit s [] name recent = refl
  dir-remove_old limit s (e ∷ entries) name recent = elim (Bool-cases (is_old parse_date limit e)) [
    | inl old ↦ rw old (
        dir-remove_old limit (folder.remove_all s e.0).0 entries name recent
        ∙ laws.dir-remove_all_other s e.0 name (is_old-Recent limit e name recent old))
    | inr young ↦ rw young (dir-remove_old limit s entries name recent)
  ]

  dir-clean :
      (retention_days : ℤ) (s : S) (now : ℕ) (name : Text)
      → Recent (cutoff retention_days now) name
      → folder.dir (clean folder parse_date retention_days s now) name ≡ folder.dir s name
  unfolding clean
  dir-clean retention_days s now name recent = elim (Option-cases (folder.read_dir s)) [
    | inl error ↦ rw (clean, error) refl
    | inr (entries, e) ↦
        rw (clean, e) (dir-remove_old (cutoff retention_days now) s entries name recent)
  ]

  dir-run_ticks :
      (retention_days : ℤ) (s : S) (ticks : List ℕ) (name : Text)
      → All (λ now. Recent (cutoff retention_days now) name) ticks
      → folder.dir (run_ticks folder parse_date retention_days s ticks) name ≡ folder.dir s name
  unfolding run_ticks
  dir-run_ticks retention_days s [] name recent = refl
  dir-run_ticks retention_days s (now ∷ ticks) name (here, recent) =
      dir-run_ticks retention_days (clean folder parse_date retention_days s now) ticks name recent
      ∙ dir-clean retention_days s now name here

  module _ (succeeds : (s : S) (name : Text) → (folder.remove_all s name).1 ≡ true) where
    remove-none :
        (b : Bool) (s : S) (name other : Text)
        → folder.dir s name ≡ none
        → folder.dir (if b then (folder.remove_all s other).0 else s) name ≡ none
    remove-none false s name other gone = gone
    remove-none true s name other gone = elim (Bool-cases (text_eq other name)) [
      | inl same ↦
          subst (λ x. folder.dir (folder.remove_all s other).0 x ≡ none)
            ((text_eq_iff other name).0 same) (laws.dir-remove_all s other (succeeds s other))
      | inr differ ↦
          laws.dir-remove_all_other s other name
            (λ e. ground (arith, text_eq_iff other name, differ, e))
          ∙ gone
    ]

    remove_old-none :
        (limit : ℕ) (s : S) (entries : List (Text × Bool)) (name : Text)
        → folder.dir s name ≡ none
        → folder.dir (remove_old folder parse_date limit s entries) name ≡ none
    unfolding remove_old
    remove_old-none limit s [] name gone = gone
    remove_old-none limit s (e ∷ entries) name gone =
        remove_old-none limit (if is_old parse_date limit e then (folder.remove_all s e.0).0 else s)
          entries name (remove-none (is_old parse_date limit e) s name e.0 gone)

    remove_old-listed :
        (limit : ℕ) (s : S) (front back : List (Text × Bool)) (name : Text)
        → is_old parse_date limit (name, true) ≡ true
        → folder.dir (remove_old folder parse_date limit s (front ++ (name, true) ∷ back)) name
          ≡ none
    unfolding remove_old
    remove_old-listed limit s [] back name old =
        rw (remove_old, old)
          (remove_old-none limit (folder.remove_all s name).0 back name
            (laws.dir-remove_all s name (succeeds s name)))
    remove_old-listed limit s (e ∷ front) back name old =
        remove_old-listed limit
          (if is_old parse_date limit e then (folder.remove_all s e.0).0 else s) front back name old

Recent-before :
    {S : Type 0} (folder : Folder S) (parse_date : Text → Option ℕ) (laws : IsFolder folder)
    (name : Text) (midnight retention_days time : ℕ) (ticks : List ℕ)
    → parse_date name ≡ some midnight
    → time < midnight + day
    → All (λ now. now + day ≤ time + retention_days * day) ticks
    → All (λ now. Recent folder parse_date laws (cutoff (pos retention_days) now) name) ticks
unfolding cutoff
Recent-before folder parse_date laws name midnight n time [] dated within h = tt
Recent-before folder parse_date laws name midnight n time (now ∷ ticks) dated within (h, hs) = (
  λ t e. let same : midnight ≡ t = some-injective (sym dated ∙ e) in omega (arith, same, h, within),
  Recent-before folder parse_date laws name midnight n time ticks dated within hs,
)

-- As long as the cleaner cleans only while an entry is less than the days of retention less one old,
-- it leaves the directory of the entry's date as it is. Its name is that of a day which holds the
-- time of the entry.
pub run_ticks-keeps :
    {S : Type 0} (folder : Folder S) (parse_date : Text → Option ℕ) (formats : Formats)
    (entry : AsrEntry) (midnight retention_days : ℕ) (ticks : List ℕ) (s : S)
    → IsFolder folder
    → parse_date (date_dir formats entry) ≡ some midnight
    → time_of formats entry < midnight + day
    → All (λ now. now + day ≤ time_of formats entry + retention_days * day) ticks
    → folder.dir (run_ticks folder parse_date (pos retention_days) s ticks) (date_dir formats entry)
      ≡ folder.dir s (date_dir formats entry)
run_ticks-keeps folder parse_date formats entry midnight retention_days ticks s laws named within
      soon =
    dir-run_ticks folder parse_date laws (pos retention_days) s ticks (date_dir formats entry) (
      Recent-before folder parse_date laws (date_dir formats entry) midnight retention_days
        (time_of formats entry) ticks named within soon)

-- A clean that finds the directory of a day, and whose removals succeed, removes it once that day
-- began longer ago than the days of retention.
pub clean-removes :
    {S : Type 0} (folder : Folder S) (parse_date : Text → Option ℕ) (name : Text)
    (midnight retention_days now : ℕ) (s : S) (front back : List (Text × Bool))
    → IsFolder folder
    → ((s : S) (name : Text) → (folder.remove_all s name).1 ≡ true)
    → folder.read_dir s ≡ some (front ++ (name, true) ∷ back)
    → parse_date name ≡ some midnight
    → midnight + retention_days * day < now
    → folder.dir (clean folder parse_date (pos retention_days) s now) name ≡ none
unfolding is_old cutoff clean
clean-removes folder parse_date name midnight retention_days now s front back laws succeeds listed
      dated long =
    rw (clean, listed)
      (remove_old-listed folder parse_date laws succeeds (cutoff (pos retention_days) now) s front
        back name (ground arith))

-- ===== src/AsrLog/Cleaner/Tests.antt =====
-- A folder in memory, in which names are gone or there.
use octo_speech.Prelude.{
  ℕ, ◌+◌, ◌*◌, ◌≡◌, refl, true, Option, some, none, [], ◌∷◌, Text, codes, text_eq, text_eq_refl,
  text_eq_iff, if◌then◌else◌, arith,
}
use octo_speech.Prelude.Int.{pos}
use octo_speech.AsrLog.Cleaner.{Folder, IsFolder, day, clean}
use octo_speech.AsrLog.Cleaner.Retention.{clean-removes}
use octo_speech.AsrLog.Cleaner.Lifetime.{
  Cleaner, new_cleaner, Runs, begin, next, start, first_clean, tick, cancel, leave, returned,
  CanReturn, Runs-keeps,
}
use octo_speech.AsrLog.Files.{Formats, date_dir, time_of}
use octo_speech.Samples.{logged_entry}

abbrev days : Folder (Text → Option ℕ)
days = record {
  Content = ℕ;
  read_dir = λ s. some ((codes "lost+found", true) ∷ (codes "2025-01-01", true) ∷ []);
  remove_all = λ s name. (λ other. if text_eq name other then none else s other, true);
  dir = λ s name. s name;
}

days-IsFolder : IsFolder days
days-IsFolder = record {
  dir-remove_all_other = λ s name other differ. ground (arith, text_eq_iff name other);
  dir-remove_all = λ s name h. rw (text_eq_refl name) refl;
}

-- The first of January is the day 1000.
abbrev parse_date : Text → Option ℕ
parse_date name = if text_eq name (codes "2025-01-01") then some (1000 * day) else none

abbrev formats : Formats
formats = record {
  parse_time = λ t. some (1000 * day + 5);
  now = 0;
  format_date = λ t. codes "2025-01-01";
  marshal = λ e. none;
}

abbrev full : Text → Option ℕ
full name = some 3

dated : parse_date (date_dir formats logged_entry) ≡ some (1000 * day)
unfolding date_dir time_of text_eq
dated = refl

noted : time_of formats logged_entry ≡ 1000 * day + 5
unfolding time_of
noted = refl

-- Started on the day 1001; a tick on the day 1006, and Close.
abbrev over : Cleaner (Text → Option ℕ)
over = record {
  files =
      clean days parse_date (pos 7) (clean days parse_date (pos 7) full (1001 * day)) (1006 * day);
  phase = returned;
  cancelled = true;
}

cleaned : Runs days parse_date (pos 7) (new_cleaner full) (1001 * day ∷ 1006 * day ∷ []) over
cleaned =
    next (next (next (next (next begin (start refl)) (first_clean _ refl)) (tick _ refl)) cancel)
      (leave refl refl)

Runs-keeps_example :
    (over.files (date_dir formats logged_entry) ≡ some 3) × CanReturn days parse_date (pos 7) over
Runs-keeps_example =
    Runs-keeps days parse_date formats logged_entry (1000 * day) 7 (1001 * day ∷ 1006 * day ∷ [])
      full over days-IsFolder dated (omega (arith, noted)) cleaned
      (omega (arith, noted), (omega (arith, noted), tt))

dated_name : parse_date (codes "2025-01-01") ≡ some (1000 * day)
unfolding text_eq
dated_name = refl

dated_removed : clean days parse_date (pos 7) full (1007 * day + 1) (codes "2025-01-01") ≡ none
dated_removed =
    clean-removes days parse_date (codes "2025-01-01") (1000 * day) 7 (1007 * day + 1) full
      ((codes "lost+found", true) ∷ []) [] days-IsFolder (λ s name. refl) refl dated_name
      (omega arith)

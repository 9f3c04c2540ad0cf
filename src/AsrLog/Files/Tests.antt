-- ===== src/AsrLog/Files/Tests.antt =====
-- A disk in memory.
use octo_speech.Prelude.{
  ℕ, ◌≡◌, ◌⊎◌, refl, true, false, Bool, Option, some, none, [], ◌∷◌, ◌++◌, List, codes, text_eq,
  text_eq_refl, text_eq_iff, if◌then◌else◌, arith, ◌&&◌, contains,
}
use octo_speech.AsrLog.Files.{
  FilePath, Disk, IsDisk, Formats, entry_dir, date_dir, json_file_name, audio_file_name, name_audio,
  write_entry,
}
use octo_speech.AsrLog.Files.Written.{write_entry-read}
use octo_speech.AsrLog.Files.{mime_type_to_format}
use octo_speech.Samples.{logged_entry}

path_eq : FilePath → FilePath → Bool
path_eq [] [] = true
path_eq [] (_ ∷ _) = false
path_eq (_ ∷ _) [] = false
path_eq (a ∷ p) (b ∷ q) = text_eq a b && path_eq p q

path_eq_refl : (p : FilePath) → path_eq p p ≡ true
unfolding path_eq
path_eq_refl [] = refl
path_eq_refl (a ∷ p) = rw (text_eq_refl a, path_eq_refl p) refl

path_eq→eq : (p q : FilePath) → path_eq p q ≡ true → p ≡ q
unfolding path_eq
path_eq→eq [] [] h = refl
path_eq→eq [] (b ∷ q) h = cc
path_eq→eq (a ∷ p) [] h = cc
path_eq→eq (a ∷ p) (b ∷ q) h = ground (arith, text_eq_iff a b, path_eq→eq p q)

abbrev memory : Disk (FilePath → Option (List ℕ))
memory = record {
  mkdir_all = λ s p. (s, true);
  write_file = λ s p c. (λ q. if path_eq p q then some c else s q, true);
  read_file = λ s p. s p;
}

memory-IsDisk : IsDisk memory
memory-IsDisk = record {
  read-mkdir_all = λ s dir path. refl;
  read-write = λ s path c h. rw (path_eq_refl path) refl;
  read-write_other = λ s path other c differ. ground (arith, path_eq→eq path other);
}

abbrev formats : Formats
formats = record {
  parse_time = λ t. none;
  now = 5;
  format_date = λ t. codes "2025-01-01";
  marshal = λ e. some e.input.audio_file;
}

abbrev empty : FilePath → Option (List ℕ)
empty p = none

abbrev files : FilePath → Option (List ℕ)
files = write_entry memory formats (codes "/var/log/asr") empty logged_entry

written :
    files (codes "/var/log/asr" ∷ codes "2025-01-01" ∷ codes "gemini" ∷ codes "r1.wav" ∷ [])
    ≡ some (1 ∷ 2 ∷ [])
unfolding write_entry path_eq text_eq entry_dir date_dir audio_file_name json_file_name
    mime_type_to_format contains
written = refl

write_entry-read_example :
    let dir = entry_dir formats (codes "/var/log/asr") logged_entry in
    (files (dir ++ json_file_name logged_entry ∷ [])
      ≡ some (name_audio logged_entry).input.audio_file)
    × ((◌≡◌ {A = List ℕ} logged_entry.audio_data [])
        ⊎ (files (dir ++ (name_audio logged_entry).input.audio_file ∷ [])
            ≡ some logged_entry.audio_data))
write_entry-read_example =
    write_entry-read memory formats (codes "/var/log/asr") empty logged_entry
      (name_audio logged_entry).input.audio_file memory-IsDisk (λ s path. refl) (λ s path c. refl)
      refl

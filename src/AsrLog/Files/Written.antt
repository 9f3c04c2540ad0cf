-- ===== src/AsrLog/Files/Written.antt =====
-- What `writeEntry` leaves on the disk.
use octo_speech.Prelude.{
  ℕ, ◌≡◌, ◌≢◌, refl, sym, ap, ◌∙◌, Bool, true, false, some, List, [], ◌∷◌, ◌++◌, Text, codes,
  text_eq, text_eq_iff, is_empty, length, drop, drop-append, arith, Bool-cases, inl, inr, ◌⊎◌,
  String, if◌then◌else◌,
}
use octo_speech.AsrLog.{AsrEntry}
use octo_speech.AsrLog.Files.{
  FilePath, Disk, IsDisk, Formats, date_dir, entry_dir, audio_file_name, json_file_name, name_audio,
  write_audio, write_json, write_files, write_entry,
}
use octo_speech.AsrLog.Files.{mime_type_to_format}

append-injective {ℓ} : {A : Type ℓ} (xs : List A) {ys zs : List A} → xs ++ ys ≡ xs ++ zs → ys ≡ zs
append-injective xs {ys} {zs} h =
    sym (drop-append xs ys) ∙ ap (drop (length xs)) h ∙ drop-append xs zs

empty_of {ℓ} : {A : Type ℓ} (xs : List A) → is_empty xs ≡ true → xs ≡ []
empty_of [] h = refl
empty_of (x ∷ xs) h = cc

if_keeps {ℓ κ} :
    {A : Type ℓ} (P : A → Type κ) (b : Bool) {x y : A} → P x → P y → P (if b then x else y)
if_keeps P true p q = p
if_keeps P false p q = q

IsAudio : String → Type 0
IsAudio format = text_eq (codes format) (codes "json") ≡ false

wav : IsAudio "wav"
unfolding IsAudio text_eq
wav = refl

mp3 : IsAudio "mp3"
unfolding IsAudio text_eq
mp3 = refl

ogg : IsAudio "ogg"
unfolding IsAudio text_eq
ogg = refl

webm : IsAudio "webm"
unfolding IsAudio text_eq
webm = refl

m4a : IsAudio "m4a"
unfolding IsAudio text_eq
m4a = refl

flac : IsAudio "flac"
unfolding IsAudio text_eq
flac = refl

-- No format is that of the entry.
mime_type_to_format-IsAudio : (mime_type : Text) → IsAudio (mime_type_to_format mime_type)
unfolding mime_type_to_format
mime_type_to_format-IsAudio mime_type = if_keeps IsAudio _ wav (
    if_keeps IsAudio _ mp3 (
      if_keeps IsAudio _ ogg
        (if_keeps IsAudio _ webm (if_keeps IsAudio _ m4a (if_keeps IsAudio _ flac wav)))))

names-differ : (entry : AsrEntry) → audio_file_name entry ≢ json_file_name entry
unfolding audio_file_name json_file_name IsAudio
names-differ entry h =
    let same = ap (drop 1) (
      append-injective entry.request_id
        {ys = codes "." ++ codes (mime_type_to_format entry.input.mime_type)} {zs = codes ".json"}
        h) in
    let other = mime_type_to_format-IsAudio entry.input.mime_type in
    ground (
      arith,
      text_eq_iff (codes (mime_type_to_format entry.input.mime_type)) (codes "json"),
      other,
      same,
    )

singleton-injective {ℓ} : {A : Type ℓ} {x y : A} → x ∷ [] ≡ y ∷ [] → x ≡ y
singleton-injective h = cc

paths-differ :
    (dir : FilePath) (entry : AsrEntry)
    → dir ++ json_file_name entry ∷ [] ≢ dir ++ audio_file_name entry ∷ []
paths-differ dir entry h = names-differ entry (sym (singleton-injective (append-injective dir h)))

-- Naming the audio file keeps what the names of the files are made of.
name_audio-names :
    (formats : Formats) (base_dir : Text) (entry : AsrEntry)
    → (entry_dir formats base_dir (name_audio entry) ≡ entry_dir formats base_dir entry)
      × (json_file_name (name_audio entry) ≡ json_file_name entry)
unfolding name_audio entry_dir date_dir json_file_name
name_audio-names formats base_dir entry = elim (Bool-cases (is_empty entry.audio_data)) [
  | inl silent ↦ rw silent (refl, refl)
  | inr audio ↦ rw audio (refl, refl)
]

name_audio-audio_file :
    (entry : AsrEntry)
    → is_empty entry.audio_data ≡ false
    → (name_audio entry).input.audio_file ≡ audio_file_name entry
unfolding name_audio
name_audio-audio_file entry audio = rw audio refl

module _ {S : Type 0} (disk : Disk S) (formats : Formats) (base_dir : Text) (laws : IsDisk disk)
    (entry : AsrEntry) (json : List ℕ) (marshalled : formats.marshal (name_audio entry) ≡ some json)
    (writes : (s : S) (path : FilePath) (c : List ℕ) → (disk.write_file s path c).1 ≡ true) where
  write_json-read :
      (s : S)
      → disk.read_file
          (write_json disk formats base_dir s (name_audio entry))
          (entry_dir formats base_dir entry ++ json_file_name entry ∷ [])
        ≡ some json
  unfolding write_json
  write_json-read s =
      let (dir, file) = name_audio-names formats base_dir entry in
      rw (write_json, marshalled, dir, file) (laws.read-write s _ json (writes s _ json))

  write_json-read_audio :
      (s : S)
      → disk.read_file
          (write_json disk formats base_dir s (name_audio entry))
          (entry_dir formats base_dir entry ++ audio_file_name entry ∷ [])
        ≡ disk.read_file s (entry_dir formats base_dir entry ++ audio_file_name entry ∷ [])
  unfolding write_json
  write_json-read_audio s =
      let (dir, file) = name_audio-names formats base_dir entry in
      rw (write_json, marshalled, dir, file)
        (laws.read-write_other s _ _ json (paths-differ (entry_dir formats base_dir entry) entry))

  write_audio-read :
      (s : S)
      → is_empty entry.audio_data ≡ false
      → disk.read_file
          (write_audio disk formats base_dir s entry)
          (entry_dir formats base_dir entry ++ audio_file_name entry ∷ [])
        ≡ some entry.audio_data
  unfolding write_audio
  write_audio-read s audio = rw audio (laws.read-write s _ _ (writes s _ entry.audio_data))

  abbrev HoldsEntry : S → Type 0
  HoldsEntry after =
      (disk.read_file after (entry_dir formats base_dir entry ++ json_file_name entry ∷ [])
        ≡ some json)
      × ((entry.audio_data ≡ [])
          ⊎ (disk.read_file after
                (entry_dir formats base_dir entry ++ (name_audio entry).input.audio_file ∷ [])
              ≡ some entry.audio_data))

  write_files-HoldsEntry :
      (p : S × Bool) → p.1 ≡ true → HoldsEntry (write_files disk formats base_dir entry p)
  unfolding write_files
  write_files-HoldsEntry (s, false) h = cc
  write_files-HoldsEntry (s, true) h = (
    write_json-read (write_audio disk formats base_dir s entry),
    elim (Bool-cases (is_empty entry.audio_data)) [
      | inl silent ↦ inl (empty_of entry.audio_data silent)
      | inr audio ↦ inr (
          rw (name_audio-audio_file entry audio) (
            write_json-read_audio (write_audio disk formats base_dir s entry)
            ∙ write_audio-read s audio))
    ],
  )

-- On a disk whose calls succeed, `writeEntry` leaves the JSON text of the entry in its file, in the
-- directory of its date and engine; if the entry has audio, the JSON names the file beside it that
-- holds that audio, and neither file overwrites the other.
pub write_entry-read :
    {S : Type 0} (disk : Disk S) (formats : Formats) (base_dir : Text) (s : S) (entry : AsrEntry)
    (json : List ℕ)
    → IsDisk disk
    → ((s : S) (path : FilePath) → (disk.mkdir_all s path).1 ≡ true)
    → ((s : S) (path : FilePath) (c : List ℕ) → (disk.write_file s path c).1 ≡ true)
    → formats.marshal (name_audio entry) ≡ some json
    → let dir = entry_dir formats base_dir entry in
      let after = write_entry disk formats base_dir s entry in
      (disk.read_file after (dir ++ json_file_name entry ∷ []) ≡ some json)
      × ((entry.audio_data ≡ [])
          ⊎ (disk.read_file after (dir ++ (name_audio entry).input.audio_file ∷ [])
              ≡ some entry.audio_data))
unfolding write_entry
write_entry-read disk formats base_dir s entry json laws made writes marshalled =
    write_files-HoldsEntry disk formats base_dir laws entry json marshalled writes
      (disk.mkdir_all s (entry_dir formats base_dir entry)) (made s _)

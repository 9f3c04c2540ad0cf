-- ===== src/AsrLog/Files.antt =====
-- `NewLogger`, `GenerateRequestID` and `writeEntry` of internal/asrlog/logger.go. The file system,
-- package time and encoding/json are arguments. A path is the list of what filepath.Join joins.
pub mod Written
mod Tests
use octo_speech.Prelude.{
  ℕ, ◌≡◌, ◌≢◌, Bool, true, false, Option, some, none, List, [], ◌∷◌, ◌++◌, Text, codes, is_empty,
  contains, ◌||◌, String, if◌then◌else◌,
}
use octo_speech.AsrLog.{AsrInput, AsrEntry, Logger, new_logger}

abbrev pub FilePath : Type 0
FilePath = List Text

-- The calls of package os, with true for no error. A call that fails may have done a part.
pub record Disk (S : Type 0) : Type 0 where
  pub mkdir_all : S → FilePath → S × Bool
  pub write_file : S → FilePath → List ℕ → S × Bool
  pub read_file : S → FilePath → Option (List ℕ)

-- Making directories changes no file, and a write changes the one that it names.
pub record IsDisk {S : Type 0} (disk : Disk S) : Type 0 where
  pub read-mkdir_all :
      (s : S) (dir path : FilePath)
      → disk.read_file (disk.mkdir_all s dir).0 path ≡ disk.read_file s path
  pub read-write :
      (s : S) (path : FilePath) (content : List ℕ)
      → (disk.write_file s path content).1 ≡ true
      → disk.read_file (disk.write_file s path content).0 path ≡ some content
  pub read-write_other :
      (s : S) (path other : FilePath) (content : List ℕ)
      → path ≢ other
      → disk.read_file (disk.write_file s path content).0 other ≡ disk.read_file s other

-- `NewLogger`; none if the directory cannot be made.
unfoldable pub open_logger : {S : Type 0} → Disk S → S → Text → ℕ → Text → S × Option Logger
open_logger disk s base_dir buf_size pod_id =
    let p = disk.mkdir_all s (base_dir ∷ []) in
    (p.0, if p.1 then some (new_logger buf_size pod_id) else none)

-- `GenerateRequestID`: `millis` and `random` are printed in decimal and in hexadecimal digits.
unfoldable pub generate_request_id : Text → Text → Text → Text
generate_request_id pod_id millis random =
    pod_id ++ (codes "_" ++ (millis ++ (codes "_" ++ random)))

-- The logger's own `mimeTypeToFormat`
unfoldable pub mime_type_to_format : Text → String
mime_type_to_format mime_type =
    if contains mime_type (codes "wav")
    then "wav"
    else (if contains mime_type (codes "mp3") || contains mime_type (codes "mpeg")
        then "mp3"
        else (if contains mime_type (codes "ogg")
            then "ogg"
            else (if contains mime_type (codes "webm")
                then "webm"
                else (if contains mime_type (codes "mp4") || contains mime_type (codes "m4a")
                    then "m4a"
                    else (if contains mime_type (codes "flac") then "flac" else "wav")))))

-- What `writeEntry` uses of the libraries: the time of a timestamp, none where it does not parse or is
-- the zero time, `now` in that case, the date of a time, and the JSON text of an entry.
pub record Formats : Type 0 where
  pub parse_time : Text → Option ℕ
  pub now : ℕ
  pub format_date : ℕ → Text
  pub marshal : AsrEntry → Option (List ℕ)

module _ (formats : Formats) where
  unfoldable pub time_of : AsrEntry → ℕ
  time_of entry = elim (formats.parse_time entry.timestamp) [ none ↦ formats.now | some t ↦ t ]

  unfoldable pub date_dir : AsrEntry → Text
  unfolding time_of
  date_dir entry = formats.format_date (time_of entry)

  unfoldable pub entry_dir : Text → AsrEntry → FilePath
  entry_dir base_dir entry = base_dir ∷ date_dir entry ∷ entry.engine ∷ []

unfoldable pub audio_file_name : AsrEntry → Text
audio_file_name entry =
    entry.request_id ++ (codes "." ++ codes (mime_type_to_format entry.input.mime_type))

unfoldable pub json_file_name : AsrEntry → Text
json_file_name entry = entry.request_id ++ codes ".json"

-- `entry.Input.AudioFile = audioFileName`
unfoldable pub name_audio : AsrEntry → AsrEntry
name_audio entry =
    if is_empty entry.audio_data
    then entry
    else record entry { input = record entry.input { audio_file = audio_file_name entry } }

module _ {S : Type 0} (disk : Disk S) (formats : Formats) (base_dir : Text) where
  -- The writes; their errors are only logged.
  unfoldable pub write_audio : S → AsrEntry → S
  write_audio s entry =
      if is_empty entry.audio_data
      then s
      else (disk.write_file s (entry_dir formats base_dir entry ++ audio_file_name entry ∷ [])
          entry.audio_data).0

  unfoldable pub write_json : S → AsrEntry → S
  write_json s entry = elim (formats.marshal entry) [
    | none ↦ s
    | some json ↦
        (disk.write_file s (entry_dir formats base_dir entry ++ json_file_name entry ∷ []) json).0
  ]

  -- `writeEntry` behind MkdirAll.
  unfoldable pub write_files : AsrEntry → S × Bool → S
  unfolding write_audio write_json name_audio
  write_files entry (s, false) = s
  write_files entry (s, true) = write_json (write_audio s entry) (name_audio entry)

  unfoldable pub write_entry : S → AsrEntry → S
  unfolding write_files
  write_entry s entry = write_files entry (disk.mkdir_all s (entry_dir formats base_dir entry))

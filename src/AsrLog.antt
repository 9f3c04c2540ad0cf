-- ===== src/AsrLog.antt =====
-- internal/asrlog/logger.go: the entries of the log of transcriptions, and the logger, whose channel
-- is filled by the requests and emptied by one worker. A step is what one goroutine does between two
-- operations on the channel or on the context. The files are outside: `written` is the list of the
-- entries that `writeEntry` was called with.
pub mod Queue
pub mod Files
pub mod Cleaner
mod Tests
use octo_speech.Prelude.{
  ℕ, ◌<◌, ◌≤◌, ◌≡◌, ◌≢◌, Bool, true, false, List, [], ◌∷◌, ◌++◌, Text, Option, length,
}
use octo_speech.Service.Transcribe.{RequestBody}

pub record AsrInput : Type 0 where
  pub mode : Text
  pub audio_file : Text
  pub mime_type : Text
  pub audio_size : ℕ
  pub context_text : Text
  pub chat_context : Text
  pub personal_context : Text
  pub member_context : Text
  pub model : Text
  pub language : Text
  pub channel_type : Text

pub record AsrPrompt : Type 0 where
  pub type : Text
  pub text : Text
  pub request_body : Option RequestBody

pub record AsrEntry : Type 0 where
  pub request_id : Text
  pub timestamp : Text
  pub source : Text
  pub app_id : Text
  pub engine : Text
  pub model_requested : Text
  pub model_used : Text
  pub input : AsrInput
  pub prompt : Option AsrPrompt
  pub raw_result_text : Text
  pub result_text : Text
  pub result_length : ℕ
  pub is_no_speech : Bool
  pub error : Text
  pub duration_ms : ℕ
  pub pod_id : Text
  pub audio_data : List ℕ

-- Where `worker` is: in its first loop, behind the label `drain`, or returned.
pub data Worker : Type 0 where
  running draining stopped : Worker

-- The logger: `waiting` are the calls of `Enqueue` behind the check of the context. A channel without
-- a buffer would behave otherwise; the settings give it one.
pub record Logger : Type 0 where
  pub capacity : ℕ
  pub pod : Text
  pub waiting : List AsrEntry
  pub channel : List AsrEntry
  pub cancelled : Bool
  pub worker : Worker
  pub written : List AsrEntry

unfoldable pub new_logger : ℕ → Text → Logger
new_logger capacity pod = record {
  capacity = capacity;
  pod = pod;
  waiting = [];
  channel = [];
  cancelled = false;
  worker = running;
  written = [];
}

-- `entry.PodID = l.podID`
unfoldable pub stamp : Logger → AsrEntry → AsrEntry
stamp l entry = record entry { pod_id = l.pod }

-- A step of the logger, and what it puts into the channel. In a select with several cases ready
-- each may be taken, and `default` only if none is.
pub data Step : Logger → List AsrEntry → Logger → Type 0 where
  enter :
      {l : Logger} (entry : AsrEntry)
      → l.cancelled ≡ false
      → Step l [] (record l { waiting = l.waiting ++ stamp l entry ∷ [] })
  send :
      {l : Logger} (front : List AsrEntry) (entry : AsrEntry) (back : List AsrEntry)
      → l.waiting ≡ front ++ entry ∷ back
      → length l.channel < l.capacity
      → Step l
          (entry ∷ [])
          (record l { waiting = front ++ back; channel = l.channel ++ entry ∷ [] })
  leave :
      {l : Logger} (front : List AsrEntry) (entry : AsrEntry) (back : List AsrEntry)
      → l.waiting ≡ front ++ entry ∷ back
      → l.cancelled ≡ true
      → Step l [] (record l { waiting = front ++ back })
  drop :
      {l : Logger} (front : List AsrEntry) (entry : AsrEntry) (back : List AsrEntry)
      → l.waiting ≡ front ++ entry ∷ back
      → l.capacity ≤ length l.channel
      → l.cancelled ≡ false
      → Step l [] (record l { waiting = front ++ back })
  close : {l : Logger} → Step l [] (record l { cancelled = true })
  receive :
      {l : Logger} (entry : AsrEntry) (rest : List AsrEntry)
      → l.worker ≢ stopped
      → l.channel ≡ entry ∷ rest
      → Step l [] (record l { channel = rest; written = l.written ++ entry ∷ [] })
  drain :
      {l : Logger}
      → l.worker ≡ running
      → l.cancelled ≡ true
      → Step l [] (record l { worker = draining })
  stop :
      {l : Logger}
      → l.worker ≡ draining
      → l.channel ≡ []
      → Step l [] (record l { worker = stopped })

-- ===== src/Speech.antt =====
-- cmd/speech/main.go: the routes of the service behind its authentication, over the tables of
-- vocabularies and of local configurations. One request is served at a time.
pub mod Isolation
pub mod Boot
pub mod Shutdown
mod Tests
use octo_speech.Prelude.{ℕ, Bool, List, [], ◌∷◌, ◌++◌, Text, Option, some, none}
use octo_speech.Prelude.Http.{Reply, Outcome, abort, pass}
use octo_speech.Config.{Config}
use octo_speech.Service.Prompt.{PromptConfig}
use octo_speech.Service.Prompt.Defaults.{default_prompts, default_fixed}
use octo_speech.Service.Prompt.Load.{load_prompts}
use octo_speech.Service.Models.{Err, Gateway}
use octo_speech.Service.Transcribe.{transcribe}
use octo_speech.Store.App.{AuthResult}
use octo_speech.Store.LocalConfig.{LocalAsrConfig}
use octo_speech.AsrLog.{AsrEntry}
use octo_speech.Api.Auth.{auth_middleware}
use octo_speech.Api.Transcribe.{Form, Transcript}
use octo_speech.Api.Transcribe.Log.{Meta, handle_logged}
use octo_speech.Api.Vocabulary.{PutRequest, Query, Vocabulary}
use octo_speech.Api.LocalConfig.{Body, ConfigAnswer, handle_config}
use octo_speech.Store.Vocabulary as VocabularyStore
use octo_speech.Store.LocalConfig as LocalConfigStore
use octo_speech.Api.Vocabulary as VocabularyHandler
use octo_speech.Api.LocalConfig as LocalConfigHandler

-- What a transcription meets outside the program: its clock, the gateway of the models, and what
-- the handler knows of the request beside its form.
pub record Call : Type 0 where
  pub expired : ℕ → Bool
  pub gateway : Gateway
  pub request_id : Text
  pub timestamp : Text
  pub duration_ms : ℕ

-- The routes of the group /v1/speech, with what their handlers read of a request.
pub data Request : Type 0 where
  get_config : Query → Request
  post_transcribe : Call → Form → Request
  put_vocabularies : Option PutRequest → Request
  get_vocabularies : Query → Request
  delete_vocabularies : Query → Request
  put_local_config : Option Body → Request
  get_local_config : Query → Request
  delete_local_config : Query → Request
  reset_local_config : Option Body → Request

pub data Answer : Type 0 where
  refused : Reply → Answer
  config : Outcome ConfigAnswer → Answer
  transcript : Outcome Transcript → Answer
  replied : Reply → Answer
  vocabulary : Outcome Vocabulary → Answer
  local : Outcome LocalAsrConfig → Answer
  saved : Outcome (Unit {0}) → Answer

-- The two tables, and the entries that were given to the log, the last one at the end.
pub record State (V L : Type 0) : Type 0 where
  pub vocabularies : V
  pub locals : L
  pub entries : List AsrEntry

-- What the service is started with; `verb` and `error_text` are what Go's fmt makes of a format that
-- has other verbs, and of an error.
pub record Service (V L : Type 0) : Type 0 where
  pub vocabulary_table : VocabularyStore.Table V
  pub local_table : LocalConfigStore.Table L
  pub cfg : Config
  pub prompt_file : Option PromptConfig
  pub has_log : Bool
  pub verb : Text → Text → Text
  pub error_text : Err → Text
  pub parse_url : Text → Option (Text × Text)
  pub format_time : ℕ → Text

-- The entry goes to `asrLogger.Log`.
abbrev pub entries_with : List AsrEntry → Option AsrEntry → List AsrEntry
entries_with entries none = entries
entries_with entries (some entry) = entries ++ (entry ∷ [])

module _ {V L : Type 0} (svc : Service V L) where
  abbrev transcribe_with : Text → Call → Form → Outcome Transcript × Option AsrEntry
  transcribe_with app_id call form =
      handle_logged svc.error_text
        (transcribe call.expired call.gateway svc.verb
          (load_prompts default_prompts svc.prompt_file) default_fixed svc.cfg)
        svc.has_log svc.cfg
        (record {
          request_id = call.request_id;
          timestamp = call.timestamp;
          app_id = app_id;
          duration_ms = call.duration_ms;
        })
        form

  -- The handler of a route, for the application that the middleware has found.
  unfoldable pub route : Text → State V L → Request → State V L × Answer
  route app_id s (get_config q) = (
    s,
    config (
        handle_config svc.local_table svc.cfg s.locals (record {
          app_id = app_id;
          subject_id = q.subject_id;
          scope_type = q.scope_type;
          scope_id = q.scope_id;
        })),
  )
  route app_id s (post_transcribe call form) =
      let r = transcribe_with app_id call form in
      (record s { entries = entries_with s.entries r.1 }, transcript r.0)
  route app_id s (put_vocabularies body) =
      let r = VocabularyHandler.put svc.vocabulary_table s.vocabularies app_id body in
      (record s { vocabularies = r.0 }, replied r.1)
  route app_id s (get_vocabularies q) = (
    s,
    vocabulary (VocabularyHandler.get svc.vocabulary_table svc.format_time s.vocabularies app_id q),
  )
  route app_id s (delete_vocabularies q) =
      let r = VocabularyHandler.delete svc.vocabulary_table s.vocabularies app_id q in
      (record s { vocabularies = r.0 }, replied r.1)
  route app_id s (put_local_config body) =
      let r = LocalConfigHandler.put svc.local_table svc.cfg svc.parse_url s.locals app_id body in
      (record s { locals = r.0 }, saved r.1)
  route app_id s (get_local_config q) = (
    s,
    local (
        LocalConfigHandler.get svc.local_table svc.cfg s.locals app_id q.subject_id q.scope_type
          q.scope_id),
  )
  route app_id s (delete_local_config q) =
      let r =
        LocalConfigHandler.delete svc.local_table svc.cfg s.locals app_id q.subject_id q.scope_type
          q.scope_id in
      (record s { locals = r.0 }, replied r.1)
  route app_id s (reset_local_config body) =
      let r = LocalConfigHandler.reset svc.local_table svc.cfg s.locals app_id body in
      (record s { locals = r.0 }, local r.1)

  unfoldable pub route_as : State V L → Request → Outcome Text → State V L × Answer
  route_as s r (abort reply) = (s, refused reply)
  route_as s r (pass app_id) = route app_id s r

  -- A request with its header: `authenticate` is what the store answers to a key at that time.
  unfoldable pub serve : (Text → AuthResult) → Text → State V L → Request → State V L × Answer
  serve authenticate header s r = route_as s r (auth_middleware authenticate header)

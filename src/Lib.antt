-- ===== src/Lib.antt =====
-- octo-speech: a transcription service and its admin service.
--
-- The speech service (cmd/speech) authenticates an application by its key (internal/api/middleware.go
-- over internal/store/app.go), checks the form of a transcription request (internal/api/transcribe.go),
-- builds the prompts (internal/service/prompt.go, prompt_config.go), asks one model after the other
-- behind a gateway (internal/service/transcribe.go), and merges the transcript with the text before
-- it. The settings come from the environment (internal/config/config.go). The admin service
-- (cmd/admin) manages the applications behind a login (internal/admin).
--
-- Files and code:
--   Prelude            shared names; Tests, Lists, Strings: Boolean tests, lists, Go strings;
--                      Http: what gin handlers answer; Int: Go's int; Parse: package strconv
--   Config             the record Config of internal/config/config.go
--   Config/Engine      NormalizeEngine, EngineToShort, ShortenModelName
--   Config/Truncate    TruncateRunesTail
--   Config/Dsn         internal/dsnutil/dsnutil.go
--   Config/Load        LoadFromEnv, getEnvInt, splitModels, Validate
--   Service/Replacer   strings.NewReplacer as BuildSystemMessage uses it
--   Service/Prompt     BuildSystemMessage, BuildVocabularyReference, BuildUserMessage;
--                      Load: LoadPrompts; Defaults: the default prompts, the constants of prompt.go
--   Service/Models     the engine's settings, callChatCompletion, callAudioTranscriptions and the two
--                      loops that fall back to the next model
--   Service/Merge      joinContextAndText, restoreTrailingWhitespace, MimeTypeToFormat, IsNoSpeech
--   Service/Transcribe Transcribe
--   Store/App          Authenticate with its cache, UpdateStatus, UpdateAPIKey of internal/store/app.go
--   Store/Rows         the tables of internal/migration/migrations that the admin service writes
--   Store/Registry     the operations of internal/store/app.go and internal/store/audit.go on the tables;
--                      Memory: a database in memory
--   Store/Listing      List of internal/store/app.go and ListApps of internal/admin/handler.go
--   AsrLog             the entries and the queue of internal/asrlog/logger.go
--   AsrLog/Files       NewLogger, GenerateRequestID and writeEntry of the same file
--   AsrLog/Cleaner     internal/asrlog/cleaner.go; Lifetime: its goroutine from Start to Close
--   Store/Vocabulary   internal/store/vocabulary.go over an interface of the table
--   Api/Vocabulary     the handlers of internal/api/vocabulary.go
--   Store/LocalConfig  internal/store/local_config.go over an interface of the table
--   Api/LocalConfig    the handlers of internal/api/local_config.go and internal/api/config.go
--   Api/Auth           AuthMiddleware of internal/api/middleware.go
--   Api/Transcribe     Handle, isValidModel, classifyTranscribeError of internal/api/transcribe.go
--   Api/Transcribe/Log Handle with the entry that it gives to the log
--   Speech             the routes of cmd/speech/main.go behind the authentication; Boot: its start;
--                      Shutdown: its end, with the requests in flight and the log
--   Admin/RateLimit    internal/admin/ratelimit.go
--   Admin/KeyGen       internal/admin/keygen.go, and isValidAppID of internal/admin/handler.go
--   Admin/Settings     internal/adminconfig/config.go, and the checks with which cmd/admin/main.go starts
--   Admin/Session      internal/admin/auth.go (its child Tokens), middleware.go, Login and Logout of handler.go, and the
--                      order of the guards in cmd/admin/main.go
--   Admin/Apps         CreateApp, UpdateStatus, DeleteApp, ResetKey of internal/admin/handler.go
--   Admin/Site         the routes of cmd/admin/main.go over the handlers, the guards and the limiter;
--                      Boot: its start
--   Migration          the files of internal/migration/migrations in their order, and the rows that the
--                      INSERT statements of internal/store give; Fits, Saved: their types
--   Samples            sample settings, prompts and a sample gateway for the tests
-- A child that is named for what it proves (Window, Staleness, Checks, Merging and the like) holds the
-- theorems on its parent, a child Tests its runs.
--
-- State and steps. The limiter and the cache are records, and each stretch under a mutex is one step
-- of explicit state passing. The limiter is run over a sequence of logins and cleanup ticks. The
-- cache is a step relation in which the queries and writes of concurrent calls may interleave, and
-- so is the log with its callers, its worker and Close. A Go map is a list of its entries in any
-- order, and what is stated of the cache as a map speaks of what stands under each key. A handler
-- returns an Outcome, which aborts with a status and a message or passes a value on. Clocks, random
-- sources, the database, SHA-256, bcrypt, JWT, base64, JSON, YAML and the network are arguments,
-- with what is needed of them as hypotheses. The tables of vocabularies and local
-- configurations are records of operations, with records of laws that the tests fill by tables in
-- memory; the columns, arguments and updates of an upsert of a local configuration are put together
-- as the code does it, and the table runs them. The registry goes further: its database is an interface whose states stand for tables,
-- with the transactions, the unique keys, the collation and the errors of MySQL, and a statement
-- that reports an error may have been carried out all the same. The admin handlers are proved
-- against one contract over it, and what the service answers to a key behind them follows from that
-- contract. The log's disk and folder are such interfaces too.
--
-- Numbers and texts. A Go string is the list of its code points, which assumes valid UTF-8; an int is
-- an integer. strconv.Atoi refuses what does not fit into 64 bits, and the products of
-- ADMIN_TOKEN_EXPIRE wrap around there (`wrap_64`), so what is stated of the lifetime of a session has
-- the condition that the hours fit into a time.Duration (`fits_duration`). The code's other sums and
-- products stay far from the ends of the range. A time is a natural number of nanoseconds. No definition needs fuel:
-- every loop runs over a list or a text, or counts down.
--
-- Not modelled: the library that runs the migrations; listening, the settings of the database's pool
-- and the static pages, which are input and output; what other writers do between the statements of
-- one admin handler. Log lines are left out of the handlers.
pub mod Prelude
pub mod Admin
pub mod Config
pub mod Service
pub mod Store
pub mod AsrLog
pub mod Api
pub mod Speech
pub mod Samples
pub mod Migration

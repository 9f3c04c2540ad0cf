-- ===== src/Speech/Shutdown.antt =====
-- How cmd/speech/main.go ends: the requests in flight, srv.Shutdown with its timeout, and the
-- Close of the log. A step is one of main, of a handler or of the log's worker.
pub mod Graceful
mod Tests
use octo_speech.Prelude.{
  ℕ, zero, suc, ◌+◌, ◌<◌, ◌≤◌, ◌≡◌, ◌≢◌, Bool, true, false, List, [], ◌∷◌, ◌++◌, Text, length,
}
use octo_speech.AsrLog.{AsrEntry, Logger, new_logger, stamp, Worker, running, draining, stopped}

-- Where `main` is: before the signal, in srv.Shutdown, in asrLogger.Close, or behind it.
pub data Phase : Type 0 where
  serving shutting_down closing closed : Phase

-- The process: `handlers` are the requests in flight that are not in a call of Enqueue; those that
-- are stand in the `waiting` of the log. `expired` tells whether Shutdown has run into its timeout,
-- `given` are the entries that handlers have passed to Enqueue, the last one first, and `dropped` those
-- for which the channel was full.
pub record Process : Type 0 where
  pub phase : Phase
  pub expired : Bool
  pub handlers : ℕ
  pub log : Logger
  pub given : List AsrEntry
  pub dropped : List AsrEntry

unfoldable pub new_process : ℕ → Text → Process
new_process capacity pod = record {
  phase = serving;
  expired = false;
  handlers = 0;
  log = new_logger capacity pod;
  given = [];
  dropped = [];
}

-- The steps. Shutdown closes the listener first and returns when no request is in flight, or with an
-- error once its ten seconds are over; main goes on to Close in both cases.
pub data Move : Process → Process → Type 0 where
  accept : {p : Process} → p.phase ≡ serving → Move p (record p { handlers = suc p.handlers })
  answer : {p : Process} (n : ℕ) → p.handlers ≡ suc n → Move p (record p { handlers = n })
  enqueue :
      {p : Process} (n : ℕ) (entry : AsrEntry)
      → p.handlers ≡ suc n
      → p.log.cancelled ≡ false
      → Move p (record p {
        handlers = n;
        given = stamp p.log entry ∷ p.given;
        log = record p.log { waiting = p.log.waiting ++ stamp p.log entry ∷ [] };
      })
  enqueue_closed :
      {p : Process} (n : ℕ) (entry : AsrEntry)
      → p.handlers ≡ suc n
      → p.log.cancelled ≡ true
      → Move p (record p { given = entry ∷ p.given })
  send :
      {p : Process} (front : List AsrEntry) (entry : AsrEntry) (back : List AsrEntry)
      → p.log.waiting ≡ front ++ entry ∷ back
      → length p.log.channel < p.log.capacity
      → Move p (record p {
        handlers = suc p.handlers;
        log = record p.log { waiting = front ++ back; channel = p.log.channel ++ entry ∷ [] };
      })
  leave :
      {p : Process} (front : List AsrEntry) (entry : AsrEntry) (back : List AsrEntry)
      → p.log.waiting ≡ front ++ entry ∷ back
      → p.log.cancelled ≡ true
      → Move p
          (record p { handlers = suc p.handlers; log = record p.log { waiting = front ++ back } })
  drop :
      {p : Process} (front : List AsrEntry) (entry : AsrEntry) (back : List AsrEntry)
      → p.log.waiting ≡ front ++ entry ∷ back
      → p.log.capacity ≤ length p.log.channel
      → p.log.cancelled ≡ false
      → Move p (record p {
        handlers = suc p.handlers;
        dropped = entry ∷ p.dropped;
        log = record p.log { waiting = front ++ back };
      })
  write :
      {p : Process} (entry : AsrEntry) (rest : List AsrEntry)
      → p.log.worker ≢ stopped
      → p.log.channel ≡ entry ∷ rest
      → Move p (record p {
        log = record p.log { channel = rest; written = p.log.written ++ entry ∷ [] };
      })
  drain :
      {p : Process}
      → p.log.worker ≡ running
      → p.log.cancelled ≡ true
      → Move p (record p { log = record p.log { worker = draining } })
  stop :
      {p : Process}
      → p.log.worker ≡ draining
      → p.log.channel ≡ []
      → Move p (record p { log = record p.log { worker = stopped } })
  signal : {p : Process} → p.phase ≡ serving → Move p (record p { phase = shutting_down })
  shut_down :
      {p : Process}
      → p.phase ≡ shutting_down
      → p.handlers ≡ 0
      → p.log.waiting ≡ []
      → Move p (record p { phase = closing; log = record p.log { cancelled = true } })
  expire :
      {p : Process}
      → p.phase ≡ shutting_down
      → Move p
          (record p { phase = closing; expired = true; log = record p.log { cancelled = true } })
  close_returns :
      {p : Process}
      → p.phase ≡ closing
      → p.log.worker ≡ stopped
      → Move p (record p { phase = closed })

pub data Reach (capacity : ℕ) (pod : Text) : Process → Type 0 where
  start : Reach capacity pod (new_process capacity pod)
  next : {p q : Process} → Reach capacity pod p → Move p q → Reach capacity pod q

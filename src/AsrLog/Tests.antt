-- ===== src/AsrLog/Tests.antt =====
-- A logger of capacity one through two requests and its end.
use octo_speech.Prelude.{◌≡◌, refl, true, false, [], ◌∷◌, codes, arith}
use octo_speech.AsrLog.{
  Logger, new_logger, stamp, enter, send, close, receive, drain, stop, draining, stopped, running,
}
use octo_speech.Samples.{an_entry}
use octo_speech.AsrLog.Queue.{Run, start, next, stop-written}

abbrev queued : Logger
queued = record {
  capacity = 1;
  pod = codes "pod";
  waiting = [];
  channel = an_entry (codes "a") ∷ [];
  cancelled = false;
  worker = running;
  written = [];
}

queued-Run : Run 1 (codes "pod") (an_entry (codes "a") ∷ []) queued
unfolding new_logger stamp
queued-Run =
    next (next start (enter (an_entry (codes "a")) refl))
      (send [] (an_entry (codes "a")) [] refl (omega arith))

-- Behind `Close`, with the entry written.
abbrev drained : Logger
drained = record {
  capacity = 1;
  pod = codes "pod";
  waiting = [];
  channel = [];
  cancelled = true;
  worker = draining;
  written = an_entry (codes "a") ∷ [];
}

drained-Run : Run 1 (codes "pod") (an_entry (codes "a") ∷ []) drained
drained-Run =
    next (next (next queued-Run close) (drain refl refl))
      (receive (an_entry (codes "a")) [] (ground arith) refl)

abbrev ended : Logger
ended = record drained { worker = stopped }

stop-written_example : ended.written ≡ an_entry (codes "a") ∷ []
stop-written_example =
    stop-written 1 (codes "pod") (an_entry (codes "a") ∷ []) [] drained ended drained-Run
      (stop refl refl) refl refl

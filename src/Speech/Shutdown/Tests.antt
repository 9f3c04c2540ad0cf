-- ===== src/Speech/Shutdown/Tests.antt =====
-- A service that answers one request, whose entry is logged, and ends.
use octo_speech.Prelude.{◌+◌, ◌≡◌, refl, Bool, true, false, [], ◌∷◌, Text, codes, arith}
use octo_speech.AsrLog.{AsrEntry, new_logger, stamp, stopped}
use octo_speech.Samples.{an_entry}
use octo_speech.Speech.Shutdown.{
  Process, new_process, closed, accept, answer, enqueue, send, write, drain, stop, signal,
  shut_down, close_returns, Reach, start, next,
}
use octo_speech.Speech.Shutdown.Graceful.{number, Reach-ended}

abbrev entry : AsrEntry
entry = an_entry (codes "r1")

abbrev pod : Text
pod = codes "pod"

abbrev first : Process
first = record {
  phase = closed;
  expired = false;
  handlers = 0;
  log = record {
    capacity = 1;
    pod = pod;
    waiting = [];
    channel = [];
    cancelled = true;
    worker = stopped;
    written = stamp (new_logger 1 pod) entry ∷ [];
  };
  given = stamp (new_logger 1 pod) entry ∷ [];
  dropped = [];
}

reached : Reach 1 pod first
unfolding new_process new_logger stamp
reached =
    next
      (next
        (next
          (next
            (next
              (next
                (next
                  (next (next (next start (accept refl)) (enqueue 0 entry refl refl))
                    (send [] (stamp (new_logger 1 pod) entry) [] refl (omega arith)))
                  (answer 0 refl))
                (signal refl))
              (shut_down refl refl refl))
            (drain refl refl))
          (write (stamp (new_logger 1 pod) entry) [] (λ e. cc) refl))
        (stop refl refl))
      (close_returns refl refl)

Reach-ended_example :
    (first.handlers ≡ 0)
    × (first.log.waiting ≡ [])
    × (first.log.channel ≡ [])
    × ((wanted : AsrEntry → Bool)
        → number wanted first.given ≡ number wanted first.log.written + number wanted first.dropped)
Reach-ended_example = Reach-ended 1 pod first reached refl refl

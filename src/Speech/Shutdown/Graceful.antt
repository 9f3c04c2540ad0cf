-- ===== src/Speech/Shutdown/Graceful.antt =====
-- What the log has written when the service has ended in time.
use octo_speech.Prelude.{
  ℕ, ◌+◌, ◌≡◌, ◌≢◌, ◌⊎◌, inl, inr, refl, sym, ap, ◌∙◌, Bool, true, false, List, [], ◌∷◌, ◌++◌, Text,
  if◌then◌else◌, arith,
}
use octo_speech.AsrLog.{AsrEntry, new_logger, stamp, running, stopped}
use octo_speech.Speech.Shutdown.{
  serving, shutting_down, closing, closed, Process, new_process, Move, accept, answer, enqueue,
  enqueue_closed, send, leave, drop, write, drain, stop, signal, shut_down, expire, close_returns,
  Reach, start, next,
}

-- How many entries pass a test.
unfoldable pub number : (AsrEntry → Bool) → List AsrEntry → ℕ
number wanted [] = 0
number wanted (e ∷ es) = (if wanted e then 1 else 0) + number wanted es

number-append :
    (wanted : AsrEntry → Bool) (xs ys : List AsrEntry)
    → number wanted (xs ++ ys) ≡ number wanted xs + number wanted ys
unfolding number
number-append wanted [] ys = omega arith
number-append wanted (x ∷ xs) ys = omega (arith, number-append wanted xs ys)

number-middle :
    (wanted : AsrEntry → Bool) (front : List AsrEntry) (e : AsrEntry) (back whole : List AsrEntry)
    → whole ≡ front ++ e ∷ back
    → number wanted whole ≡ number wanted (front ++ back) + number wanted (e ∷ [])
unfolding number
number-middle wanted front e back whole at = omega (
  arith,
  ap (number wanted) at,
  number-append wanted front (e ∷ back),
  number-append wanted front back,
)

some_waits :
    (front : List AsrEntry) (e : AsrEntry) (back whole : List AsrEntry)
    → whole ≡ front ++ e ∷ back
    → ¬ (whole ≡ [])
some_waits [] e back whole at none_left = cc
some_waits (f ∷ front) e back whole at none_left = cc

alive_not_dead : {b : Bool} → b ≡ false → ¬ (b ≡ true)
alive_not_dead alive dead = cc

record IsInTime (p : Process) : Type 0 where
  before_close : (p.phase ≡ serving) ⊎ (p.phase ≡ shutting_down) → p.log.cancelled ≡ false
  at_end : p.phase ≡ closed → p.log.worker ≡ stopped
  worker_left : p.log.worker ≢ running → p.log.cancelled ≡ true
  alone : p.log.cancelled ≡ true → (p.handlers ≡ 0) × (p.log.waiting ≡ [])
  emptied : p.log.worker ≡ stopped → p.log.channel ≡ []
  kept :
      (wanted : AsrEntry → Bool)
      → number wanted p.given
        ≡ number wanted p.log.written
          + number wanted p.log.channel
          + number wanted p.log.waiting
          + number wanted p.dropped

new_process-IsInTime : (capacity : ℕ) (pod : Text) → IsInTime (new_process capacity pod)
unfolding new_process new_logger number
new_process-IsInTime capacity pod = record {
  before_close = λ h. refl;
  at_end = λ h. cc;
  worker_left = λ h. absurd (h refl);
  alone = λ h. cc;
  emptied = λ h. cc;
  kept = λ wanted. refl;
}

expired-Move : {p q : Process} → Move p q → q.expired ≡ false → p.expired ≡ false
expired-Move (accept at) h = h
expired-Move (answer n some_handler) h = h
expired-Move (enqueue n entry some_handler alive) h = h
expired-Move (enqueue_closed n entry some_handler dead) h = h
expired-Move (send front entry back here room) h = h
expired-Move (leave front entry back here dead) h = h
expired-Move (drop front entry back here full alive) h = h
expired-Move (write entry rest busy there) h = h
expired-Move (drain at dead) h = h
expired-Move (stop at empty) h = h
expired-Move (signal at) h = h
expired-Move (shut_down at none_left none_waits) h = h
expired-Move (expire at) h = absurd (cc)
expired-Move (close_returns at done) h = h

still : ¬ (running ≡ stopped)
still h = cc

past : ¬ ((closing ≡ serving) ⊎ (closing ≡ shutting_down))
past (inl h) = cc
past (inr h) = cc

behind : ¬ ((closed ≡ serving) ⊎ (closed ≡ shutting_down))
behind (inl h) = cc
behind (inr h) = cc

Move-IsInTime : {p q : Process} → Move p q → IsInTime p → q.expired ≡ false → IsInTime q
unfolding number
Move-IsInTime {p} (accept at) i h = record {
  before_close = i.before_close;
  at_end = i.at_end;
  worker_left = i.worker_left;
  alone = λ dead. absurd (alive_not_dead (i.before_close (inl at)) dead);
  emptied = i.emptied;
  kept = i.kept;
}
Move-IsInTime {p} (answer n some_handler) i h = record {
  before_close = i.before_close;
  at_end = i.at_end;
  worker_left = i.worker_left;
  alone = λ dead. absurd (omega (arith, some_handler, (i.alone dead).0));
  emptied = i.emptied;
  kept = i.kept;
}
Move-IsInTime {p} (enqueue n entry some_handler alive) i h = record {
  before_close = i.before_close;
  at_end = i.at_end;
  worker_left = i.worker_left;
  alone = λ dead. absurd (cc);
  emptied = i.emptied;
  kept = λ wanted.
      omega (arith, i.kept wanted, number-append wanted p.log.waiting (stamp p.log entry ∷ []));
}
Move-IsInTime {p} (enqueue_closed n entry some_handler dead) i h =
    absurd (omega (arith, some_handler, (i.alone dead).0))
Move-IsInTime {p} (send front entry back here room) i h = record {
  before_close = i.before_close;
  at_end = i.at_end;
  worker_left = i.worker_left;
  alone = λ dead. absurd (some_waits front entry back p.log.waiting here (i.alone dead).1);
  emptied = λ halted. absurd (
      some_waits front entry back p.log.waiting here
        (i.alone (i.worker_left (λ e. absurd (cc)))).1);
  kept = λ wanted. omega (
    arith,
    i.kept wanted,
    number-middle wanted front entry back p.log.waiting here,
    number-append wanted p.log.channel (entry ∷ []),
  );
}
Move-IsInTime {p} (leave front entry back here dead) i h =
    absurd (some_waits front entry back p.log.waiting here (i.alone dead).1)
Move-IsInTime {p} (drop front entry back here full alive) i h = record {
  before_close = i.before_close;
  at_end = i.at_end;
  worker_left = i.worker_left;
  alone = λ dead. absurd (alive_not_dead alive dead);
  emptied = i.emptied;
  kept = λ wanted.
      omega (arith, i.kept wanted, number-middle wanted front entry back p.log.waiting here);
}
Move-IsInTime {p} (write entry rest busy there) i h = record {
  before_close = i.before_close;
  at_end = i.at_end;
  worker_left = i.worker_left;
  alone = i.alone;
  emptied = λ halted. absurd (busy halted);
  kept = λ wanted. omega (
    arith,
    i.kept wanted,
    ap (number wanted) there,
    number-append wanted p.log.written (entry ∷ []),
  );
}
Move-IsInTime {p} (drain at dead) i h = record {
  before_close = i.before_close;
  at_end = λ over. absurd (still (sym at ∙ i.at_end over));
  worker_left = λ h. dead;
  alone = i.alone;
  emptied = λ halted. absurd (cc);
  kept = i.kept;
}
Move-IsInTime {p} (stop at empty) i h = record {
  before_close = i.before_close;
  at_end = λ over. refl;
  worker_left = λ h. i.worker_left (λ e. absurd (cc));
  alone = i.alone;
  emptied = λ halted. empty;
  kept = i.kept;
}
Move-IsInTime {p} (signal at) i h = record {
  before_close = λ h. i.before_close (inl at);
  at_end = λ over. absurd (cc);
  worker_left = i.worker_left;
  alone = i.alone;
  emptied = i.emptied;
  kept = i.kept;
}
Move-IsInTime {p} (shut_down at none_left none_waits) i h = record {
  before_close = λ h. absurd (past h);
  at_end = λ over. absurd (cc);
  worker_left = λ h. refl;
  alone = λ dead. (none_left, none_waits);
  emptied = i.emptied;
  kept = i.kept;
}
Move-IsInTime {p} (expire at) i h = absurd (cc)
Move-IsInTime {p} (close_returns at done) i h = record {
  before_close = λ h. absurd (behind h);
  at_end = λ over. done;
  worker_left = i.worker_left;
  alone = i.alone;
  emptied = i.emptied;
  kept = i.kept;
}

Reach-IsInTime :
    {capacity : ℕ} {pod : Text} {p : Process}
    → Reach capacity pod p
    → p.expired ≡ false
    → IsInTime p
Reach-IsInTime {capacity} {pod} start h = new_process-IsInTime capacity pod
Reach-IsInTime (next r m) h = Move-IsInTime m (Reach-IsInTime r (expired-Move m h)) h

-- If the service has ended and Shutdown did not run into its timeout, then no request is in flight,
-- the channel of the log is empty, and every entry that a request gave to the log has been written,
-- except those for which the channel was full: as many entries of any kind were given as were
-- written and dropped.
pub Reach-ended :
    (capacity : ℕ) (pod : Text) (p : Process)
    → Reach capacity pod p
    → p.phase ≡ closed
    → p.expired ≡ false
    → (p.handlers ≡ 0)
      × (p.log.waiting ≡ [])
      × (p.log.channel ≡ [])
      × ((wanted : AsrEntry → Bool)
          → number wanted p.given ≡ number wanted p.log.written + number wanted p.dropped)
unfolding number
Reach-ended capacity pod p r over h =
    let i = Reach-IsInTime r h in
    let halted = i.at_end over in
    let (none_left, none_waits) = i.alone (i.worker_left (λ e. still (sym e ∙ halted))) in
    (
      none_left,
      none_waits,
      i.emptied halted,
      λ wanted. omega (
        arith,
        i.kept wanted,
        ap (number wanted) (i.emptied halted),
        ap (number wanted) none_waits,
      ),
    )

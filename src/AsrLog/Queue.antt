-- ===== src/AsrLog/Queue.antt =====
-- What the log keeps of the entries that go into its channel.
use octo_speech.Prelude.{
  ℕ, ◌≤◌, ◌≡◌, refl, sym, ap, ◌∙◌, List, [], ◌∷◌, ◌++◌, append_assoc, append-nil, Text, length,
  length-append, arith,
}
use octo_speech.AsrLog.{
  AsrEntry, Logger, draining, stopped, new_logger, Step, enter, send, leave, drop, close, receive,
  drain, stop,
}

-- The states that a new logger reaches, with the entries that went into its channel, in order.
pub data Run (capacity : ℕ) (pod : Text) : List AsrEntry → Logger → Type 0 where
  start : Run capacity pod [] (new_logger capacity pod)
  next :
      {sent more : List AsrEntry} {l l' : Logger}
      → Run capacity pod sent l
      → Step l more l'
      → Run capacity pod (sent ++ more) l'

-- The entries that were written and those that wait for it, in order.
abbrev pub logged : Logger → List AsrEntry
logged l = l.written ++ l.channel

logged-Step : {l l' : Logger} {more : List AsrEntry} → Step l more l' → logged l' ≡ logged l ++ more
logged-Step {l} (enter entry alive) = sym (append-nil (logged l))
logged-Step {l} (send front entry back here room) = simp append_assoc
logged-Step {l} (leave front entry back here closed) = sym (append-nil (logged l))
logged-Step {l} (drop front entry back here full alive) = sym (append-nil (logged l))
logged-Step {l} close = sym (append-nil (logged l))
logged-Step {l} (receive entry rest busy there) = simp (there, append_assoc, append-nil)
logged-Step {l} (drain at closed) = sym (append-nil (logged l))
logged-Step {l} (stop at empty) = sym (append-nil (logged l))

capacity-Step : {l l' : Logger} {more : List AsrEntry} → Step l more l' → l'.capacity ≡ l.capacity
capacity-Step (enter entry alive) = refl
capacity-Step (send front entry back here room) = refl
capacity-Step (leave front entry back here closed) = refl
capacity-Step (drop front entry back here full alive) = refl
capacity-Step close = refl
capacity-Step (receive entry rest busy there) = refl
capacity-Step (drain at closed) = refl
capacity-Step (stop at empty) = refl

channel-Step :
    {l l' : Logger} {more : List AsrEntry}
    → Step l more l'
    → length l.channel ≤ l.capacity
    → length l'.channel ≤ l.capacity
channel-Step (enter entry alive) h = h
channel-Step {l} (send front entry back here room) h =
    omega (arith, length-append l.channel (entry ∷ []))
channel-Step (leave front entry back here closed) h = h
channel-Step (drop front entry back here full alive) h = h
channel-Step close h = h
channel-Step (receive entry rest busy there) h = omega (arith, ap length there)
channel-Step (drain at closed) h = h
channel-Step (stop at empty) h = h

-- At every moment, the entries that went into the channel are exactly those that were written and
-- those that still wait, in the order in which they went in: none is lost, repeated or overtaken.
pub logged-Run :
    (capacity : ℕ) (pod : Text) (sent : List AsrEntry) (l : Logger)
    → Run capacity pod sent l
    → logged l ≡ sent
unfolding new_logger
logged-Run capacity pod [] l start = refl
logged-Run capacity pod sent l (next {more = more} r s) =
    logged-Step s ∙ ap (λ es. es ++ more) (logged-Run capacity pod _ _ r)

bounded :
    {capacity : ℕ} {pod : Text} {sent : List AsrEntry} {l : Logger}
    → Run capacity pod sent l
    → (l.capacity ≡ capacity) × (length l.channel ≤ capacity)
unfolding new_logger
bounded start = (refl, omega arith)
bounded (next r s) =
    let (same, fits) = bounded r in
    (capacity-Step s ∙ same, omega (arith, channel-Step s (omega arith)))

-- The channel never holds more entries than its capacity.
pub length-channel-le :
    (capacity : ℕ) (pod : Text) (sent : List AsrEntry) (l : Logger)
    → Run capacity pod sent l
    → length l.channel ≤ capacity
length-channel-le capacity pod sent l r = (bounded r).1

draining≢stopped : ¬ (draining ≡ stopped)
draining≢stopped h = cc

-- Only the step that stops leads from the draining loop to the end, at an empty channel.
written_at_stop :
    {l l' : Logger} {more : List AsrEntry}
    → Step l more l'
    → l.worker ≡ draining
    → l'.worker ≡ stopped
    → l'.written ≡ logged l
written_at_stop (enter entry alive) b a = absurd (draining≢stopped (sym b ∙ a))
written_at_stop (send front entry back here room) b a = absurd (draining≢stopped (sym b ∙ a))
written_at_stop (leave front entry back here closed) b a = absurd (draining≢stopped (sym b ∙ a))
written_at_stop (drop front entry back here full alive) b a = absurd (draining≢stopped (sym b ∙ a))
written_at_stop close b a = absurd (draining≢stopped (sym b ∙ a))
written_at_stop (receive entry rest busy there) b a = absurd (draining≢stopped (sym b ∙ a))
written_at_stop (drain at closed) b a = absurd (cc)
written_at_stop {l} (stop at empty) b a =
    sym (ap (λ es. l.written ++ es) empty ∙ append-nil l.written)

-- When the worker stops, and with it `Close` returns, every entry that went into the channel up to
-- then has been written, in order.
pub stop-written :
    (capacity : ℕ) (pod : Text) (sent more : List AsrEntry) (l l' : Logger)
    → Run capacity pod sent l
    → Step l more l'
    → l.worker ≡ draining
    → l'.worker ≡ stopped
    → l'.written ≡ sent
stop-written capacity pod sent more l l' r s before after =
    written_at_stop s before after ∙ logged-Run capacity pod sent l r

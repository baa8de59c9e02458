-- ===== src/Timer/Sleep.antt =====
-- src/core/timer.ts: sleep, with the timer of `setLongTimeout` and its cancelling function. Time is what
-- the delays of the timers that have fired add up to.
use vereda.Common.{
  ℕ, ◌+◌, ◌-◌, min, Bool, true, false, Option, none, some, List, [], ◌∷◌, ltb, if◌then◌else◌,
}
use vereda.Timer.{max_timer_ms}

-- How the promise is settled: `rejected` is with the signal's reason.
pub data Settlement : Type 0 where
  pending resolved rejected : Settlement

pub record Sleep : Type 0 where
  pub remaining : ℕ  -- still to be waited for after the timer that is armed
  pub timer : Option ℕ  -- the delay of the timer that is armed
  pub waited : ℕ
  pub listening : Bool  -- to the signal
  pub settlement : Settlement

-- `options.signal`: none, or whether it is aborted.
abbrev pub is_aborted : Option Bool → Bool
is_aborted none = false
is_aborted (some aborted) = aborted

abbrev pub has_signal : Option Bool → Bool
has_signal none = false
has_signal (some aborted) = true

abbrev pub arm_next : Sleep → Sleep
arm_next s =
    let chunk : ℕ = min s.remaining max_timer_ms in
    record s { remaining = s.remaining - chunk; timer = some chunk }

unfoldable pub start : (ms : ℕ) → (signal : Option Bool) → Sleep
start ms signal =
    if is_aborted signal
    then record {
      remaining = ms;
      timer = none;
      waited = 0;
      listening = false;
      settlement = rejected;
    }
    else arm_next (record {
      remaining = ms;
      timer = none;
      waited = 0;
      listening = has_signal signal;
      settlement = pending;
    })

-- `resolve()` and `reject()` do nothing to a promise that is settled.
abbrev pub settle : Settlement → Settlement → Settlement
settle pending next = next
settle old next = old

-- The timer that is armed runs `arm` or the callback.
abbrev pub ring : Sleep → (delay : ℕ) → Sleep
ring s delay =
    let t = record s { waited = s.waited + delay; timer = none } in
    if ltb 0 s.remaining
    then arm_next t
    else record t { listening = false; settlement = settle s.settlement resolved }

abbrev pub fires_with : Sleep → Option ℕ → Sleep
fires_with s none = s
fires_with s (some delay) = ring s delay

-- The signal aborts: `cancel()`, then `reject(signal.reason)`. The listener is called once.
abbrev pub on_abort : Sleep → Sleep
on_abort s =
    if s.listening
    then record s { timer = none; listening = false; settlement = settle s.settlement rejected }
    else s

pub data Event : Type 0 where
  fires aborts : Event

unfoldable pub step : Sleep → Event → Sleep
step s fires = fires_with s s.timer
step s aborts = on_abort s

unfoldable pub run : Sleep → List Event → Sleep
unfolding step
run s [] = s
run s (e ∷ es) = run (step s e) es

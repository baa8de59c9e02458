-- ===== src/Executor/Abandon.antt =====
-- src/queue/executor.ts: settleOnAbort, as the fetch uses it, with `discard` as what it leaves behind. A
-- response is whatever the transport resolves to; whether its body was cancelled is a flag. A transport
-- runs until the callbacks on it are called.
pub mod Accounted
mod Examples
use vereda.Common.{Bool, true, false, not, Option, none, some, List, [], ◌∷◌, if◌then◌else◌}

-- How the promise that is returned is settled.
pub data Settlement (A : Type 0) : Type 0 where
  waits rejected_with_reason rejected_with_error : Settlement A
  resolved : A → Settlement A

-- `pending`, the promise of the transport.
pub data Pending (A : Type 0) : Type 0 where
  runs failed : Pending A
  fulfilled : A → Pending A

pub record Race (A : Type 0) : Type 0 where
  pub transport : Pending A
  pub settlement : Settlement A
  pub listening : Bool  -- for the signal's abort
  pub attached : Bool  -- whether `pending.then(…)` was reached
  pub released : Bool  -- whether `release()` was called: `discard` waits for the transport
  pub body_cancelled : Bool

pub data Event (A : Type 0) : Type 0 where
  aborts fails : Event A
  fulfils : A → Event A

module _ {A : Type 0} where
  unfoldable pub start : (aborted : Bool) → Race A
  start aborted = record {
    transport = runs;
    settlement = if aborted then rejected_with_reason else waits;
    listening = not aborted;
    attached = not aborted;
    released = aborted;
    body_cancelled = false;
  }

  -- `resolve` and `reject` do nothing to a promise that is settled.
  abbrev pub settle : Settlement A → Settlement A → Settlement A
  settle waits next = next
  settle old next = old

  abbrev pub on_abort : Race A → Race A
  on_abort r =
      if r.listening
      then record r {
        listening = false;
        released = true;
        settlement = settle r.settlement rejected_with_reason;
      }
      else r

  -- The callbacks of `then`, and the rest of `discard`.
  abbrev pub on_fulfilled : A → Race A → Race A
  on_fulfilled a r = record r {
    transport = fulfilled a;
    listening = false;
    settlement = if r.attached then settle r.settlement (resolved a) else r.settlement;
    body_cancelled = r.released;
  }

  abbrev pub on_failed : Race A → Race A
  on_failed r = record r {
    transport = failed;
    listening = false;
    settlement = if r.attached then settle r.settlement rejected_with_error else r.settlement;
  }

  -- A promise is settled once.
  abbrev pub if_running : Pending A → (next : Race A) → (r : Race A) → Race A
  if_running runs next r = next
  if_running p next r = r

  unfoldable pub step : Race A → Event A → Race A
  step r aborts = on_abort r
  step r fails = if_running r.transport (on_failed r) r
  step r (fulfils a) = if_running r.transport (on_fulfilled a r) r

  unfoldable pub run : Race A → List (Event A) → Race A
  unfolding step
  run r [] = r
  run r (e ∷ es) = run (step r e) es

-- ===== src/Semaphore.antt =====
-- src/queue/semaphore.ts: the global cap on concurrent executions. A promise that `acquire` returns
-- is the number of its call; `releases` holds the calls whose release callback has been handed out
-- and still has `released` false. An abort of the caller's signal is the operation `on_abort`.
pub mod Invariant
pub mod Behaviour
mod Examples
use vereda.Common.{
  ℕ, suc, ◌+◌, ◌-◌, Bool, true, List, [], ◌∷◌, ◌++◌, length, includes, erase, ltb, leb,
  if◌then◌else◌,
}
use vereda.Errors.{AppError, cancelled_error, queue_full_error, global}

pub record Semaphore : Type 0 where
  pub available : ℕ
  pub wait_queue : List ℕ  -- the calls whose `grant` is queued, the oldest first
  pub max_queue_size : ℕ
  pub releases : List ℕ
  pub next_call : ℕ

-- What has become of a call of `acquire` when it returns.
pub data Acquired : Type 0 where
  resolved : Acquired
  rejected : AppError → Acquired
  waiting : Acquired

unfoldable pub new : (permits max_queue_size : ℕ) → Semaphore
new permits max_queue_size = record {
  available = permits;
  wait_queue = [];
  max_queue_size = max_queue_size;
  releases = [];
  next_call = 0;
}

-- Takes a permit for a call and resolves it with a fresh release callback.
unfoldable pub grant : ℕ → Semaphore → Semaphore
grant call s = record s { available = s.available - 1; releases = call ∷ s.releases }

-- The call takes the number `next_call`; `aborted` is the state of its signal.
unfoldable pub acquire : Semaphore → (aborted : Bool) → Semaphore × Acquired
unfolding grant
acquire s aborted =
    let call = s.next_call in
    let s' = record s { next_call = suc call } in
    if aborted
    then (s', rejected cancelled_error)
    else if ltb 0 s.available
    then (grant call s', resolved)
    else if leb s.max_queue_size (length s.wait_queue)
    then (s', rejected (queue_full_error "global" (length s.wait_queue) s.max_queue_size global))
    else (record s' { wait_queue = s.wait_queue ++ (call ∷ []) }, waiting)

-- The listener of a queued call: it leaves the queue, and its promise is rejected.
unfoldable pub on_abort : Semaphore → ℕ → Semaphore
on_abort s call = record s { wait_queue = erase call s.wait_queue }

-- The loop of `_drain`, whose queue is the first argument.
unfoldable pub drain_from : List ℕ → Semaphore → Semaphore
unfolding grant
drain_from [] s = record s { wait_queue = [] }
drain_from (next ∷ rest) s =
    let later = drain_from rest (grant next (record s { wait_queue = rest })) in
    if ltb 0 s.available then later else record s { wait_queue = next ∷ rest }

unfoldable pub drain : Semaphore → Semaphore
unfolding drain_from
drain s = drain_from s.wait_queue s

-- The release callback of a call: `releaseOnce` about `release`.
unfoldable pub release : Semaphore → ℕ → Semaphore
unfolding drain
release s call =
    if includes call s.releases
    then drain (record s { available = s.available + 1; releases = erase call s.releases })
    else s

-- What callers and their signals may do, in any order.
pub data Op : Type 0 where
  acquires : (aborted : Bool) → Op
  aborts releases_call : (call : ℕ) → Op

unfoldable pub step : Semaphore → Op → Semaphore
unfolding acquire on_abort release
step s (acquires aborted) = (acquire s aborted).0
step s (aborts call) = on_abort s call
step s (releases_call call) = release s call

unfoldable pub run : Semaphore → List Op → Semaphore
unfolding step
run s [] = s
run s (op ∷ ops) = run (step s op) ops

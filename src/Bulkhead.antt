-- ===== src/Bulkhead.antt =====
-- src/queue/bulkhead.ts: the slots of a partition, its wait queue and the global permits. A call of
-- `run` is a number; a call that holds a slot is a flight, whose phase says what it waits for. What a
-- promise does when it settles (the callbacks of `then`) is an operation of its own, since it runs
-- later; other partitions use the same semaphore meanwhile.
pub mod Slots
pub mod Handover
pub mod Admission
pub mod Foretold
pub mod Pushback
mod Examples
use vereda.Common.{
  ℕ, suc, ◌+◌, ◌-◌, String, Bool, true, false, ◌&&◌, Option, none, some, List, [], ◌∷◌, ◌++◌,
  length, includes, erase, ltb, ◌==◌, or_default, if◌then◌else◌,
}
use vereda.Errors.{AppError, cancelled_error, queue_full_error, partition}
use vereda.Semaphore
use vereda.Semaphore.{Semaphore, Acquired, resolved, rejected, waiting}

-- What a flight waits for: its global permit (by the number of its `acquire`), the callback of a
-- refused `acquire`, or its task, with the permit it holds.
pub data Phase : Type 0 where
  awaits : (permit : ℕ) → Phase
  refused : AppError → Phase
  runs_task : (permit : Option ℕ) → Phase

abbrev pub Flight : Type 0
Flight = ℕ × Phase

-- What the promise that `run` returned has settled with.
pub data Outcome : Type 0 where
  of_task : Outcome
  of_error : AppError → Outcome

pub record PartitionConfig : Type 0 where
  pub concurrency : Option ℕ
  pub max_queue_size : Option ℕ

abbrev pub default_concurrency : ℕ
default_concurrency = 5

abbrev pub default_max_queue_size : ℕ
default_max_queue_size = 100

pub record Bulkhead : Type 0 where
  pub name : String
  pub concurrency : ℕ
  pub max_queue_size : ℕ
  pub running : ℕ
  pub wait_queue : List ℕ  -- the calls whose `execute` is queued, the oldest first
  pub active_tickets : ℕ
  pub flights : List Flight
  pub outcomes : List (ℕ × Outcome)
  pub next_call : ℕ
  pub semaphore : Option Semaphore

unfoldable pub new : String → PartitionConfig → Option Semaphore → Bulkhead
new name config semaphore = record {
  name = name;
  concurrency = or_default config.concurrency default_concurrency;
  max_queue_size = or_default config.max_queue_size default_max_queue_size;
  running = 0;
  wait_queue = [];
  active_tickets = 0;
  flights = [];
  outcomes = [];
  next_call = 0;
  semaphore = semaphore;
}

abbrev pub phase_after : ℕ → Acquired → Phase
phase_after permit resolved = awaits permit
phase_after permit waiting = awaits permit
phase_after permit (rejected e) = refused e

unfoldable pub execute : ℕ → Bulkhead → Bulkhead
execute call b = elim b.semaphore [
  | none ↦ record b { running = suc b.running; flights = (call, runs_task none) ∷ b.flights }
  | some s ↦
      let (s', acquired) = Semaphore.acquire s false in
      record b {
        running = suc b.running;
        flights = (call, phase_after s.next_call acquired) ∷ b.flights;
        semaphore = some s';
      }
]

-- The loop of `_drainWaitQueue`, whose queue is the first argument.
unfoldable pub drain_from : List ℕ → Bulkhead → Bulkhead
drain_from [] b = record b { wait_queue = [] }
drain_from (next ∷ rest) b =
    let later = drain_from rest (execute next (record b { wait_queue = rest })) in
    if ltb b.running b.concurrency then later else record b { wait_queue = next ∷ rest }

unfoldable pub drain_wait_queue : Bulkhead → Bulkhead
drain_wait_queue b = drain_from b.wait_queue b

unfoldable pub release_slot : Bulkhead → Bulkhead
unfolding drain_wait_queue
release_slot b = drain_wait_queue (record b { running = b.running - 1 })

abbrev pub settle : ℕ → Outcome → Bulkhead → Bulkhead
settle call outcome b = record b { outcomes = (call, outcome) ∷ b.outcomes }

-- `aborted` is the state of the caller's signal.
unfoldable pub run_call : Bulkhead → (aborted : Bool) → Bulkhead
run_call b aborted =
    let call = b.next_call in
    let b' = record b { next_call = suc call } in
    if aborted
    then settle call (of_error cancelled_error) b'
    else if ltb b.running b.concurrency
    then execute call b'
    else if ltb (length b.wait_queue) b.max_queue_size
    then record b' { wait_queue = b.wait_queue ++ (call ∷ []) }
    else settle call
        (of_error (queue_full_error b.name (length b.wait_queue) b.max_queue_size partition)) b'

abbrev pub phase_of : ℕ → List Flight → Option Phase
phase_of call [] = none
phase_of call ((c, p) ∷ fs) = if c == call then some p else phase_of call fs

abbrev pub without : ℕ → List Flight → List Flight
without call [] = []
without call ((c, p) ∷ fs) = let rest = without call fs in if c == call then fs else (c, p) ∷ rest

abbrev pub in_phase : ℕ → Phase → List Flight → List Flight
in_phase call p [] = []
in_phase call p ((c, q) ∷ fs) =
    let rest = in_phase call p fs in if c == call then (c, p) ∷ fs else (c, q) ∷ rest

-- Gives a permit back, if there is one.
unfoldable pub release_permit : Option ℕ → Option Semaphore → Option Semaphore
release_permit none s = s
release_permit (some p) none = none
release_permit (some p) (some s) = some (Semaphore.release s p)

abbrev pub is_granted : ℕ → Option Semaphore → Bool
is_granted p none = false
is_granted p (some s) = includes p s.releases

-- The flight ends: its slot is handed on, and its promise settles.
unfoldable pub leave : ℕ → Outcome → Bulkhead → Bulkhead
unfolding release_slot
leave call outcome b =
    settle call outcome (release_slot (record b { flights = without call b.flights }))

-- The callback of a resolved `acquire`: `runTask` with the permit.
unfoldable pub on_permit : Bulkhead → ℕ → Bulkhead
on_permit b call = elim (phase_of call b.flights) [
  | none ↦ b
  | some (awaits p) ↦
      if is_granted p b.semaphore
      then record b { flights = in_phase call (runs_task (some p)) b.flights }
      else b
  | some (refused e) ↦ b
  | some (runs_task q) ↦ b
]

-- The callback of a rejected `acquire`.
unfoldable pub on_refused : Bulkhead → ℕ → Bulkhead
unfolding leave
on_refused b call = elim (phase_of call b.flights) [
  | none ↦ b
  | some (awaits p) ↦ b
  | some (refused e) ↦ leave call (of_error e) b
  | some (runs_task q) ↦ b
]

-- The callbacks of the task's promise, which free the permit before the slot.
unfoldable pub on_task_settled : Bulkhead → ℕ → Bulkhead
unfolding leave release_permit
on_task_settled b call = elim (phase_of call b.flights) [
  | none ↦ b
  | some (awaits p) ↦ b
  | some (refused e) ↦ b
  | some (runs_task q) ↦ leave call of_task (record b { semaphore = release_permit q b.semaphore })
]

-- An abort at the semaphore: a call that is queued there is refused.
unfoldable pub abort_permit : Bulkhead → ℕ → (permit : ℕ) → Option Semaphore → Bulkhead
abort_permit b call p none = b
abort_permit b call p (some s) =
    if includes p s.wait_queue
    then record b {
      semaphore = some (Semaphore.on_abort s p);
      flights = in_phase call (refused cancelled_error) b.flights;
    }
    else b

-- The abort of a caller's signal, in whichever queue the call is.
unfoldable pub on_abort : Bulkhead → ℕ → Bulkhead
unfolding abort_permit
on_abort b call =
    if includes call b.wait_queue
    then settle call (of_error cancelled_error) (record b { wait_queue = erase call b.wait_queue })
    else elim (phase_of call b.flights) [
      | none ↦ b
      | some (awaits p) ↦ abort_permit b call p b.semaphore
      | some (refused e) ↦ b
      | some (runs_task q) ↦ b
    ]

unfoldable pub retain : Bulkhead → Bulkhead
retain b = record b { active_tickets = b.active_tickets + 1 }

-- The function that `retain` returns, with its flag `released`.
unfoldable pub release_hold : Bulkhead → (released : Bool) → Bulkhead × Bool
release_hold b released =
    if released then (b, released) else (record b { active_tickets = b.active_tickets - 1 }, true)

-- What the partition, its callers and the semaphore's other users do, in any order.
pub data Op : Type 0 where
  runs : (aborted : Bool) → Op
  permits refuses settles aborts : (call : ℕ) → Op
  elsewhere : Semaphore.Op → Op

abbrev pub use_elsewhere : Option Semaphore → Semaphore.Op → Option Semaphore
use_elsewhere none op = none
use_elsewhere (some s) op = some (Semaphore.step s op)

unfoldable pub step : Bulkhead → Op → Bulkhead
unfolding run_call on_permit on_refused on_task_settled on_abort
step b (runs aborted) = run_call b aborted
step b (permits call) = on_permit b call
step b (refuses call) = on_refused b call
step b (settles call) = on_task_settled b call
step b (aborts call) = on_abort b call
step b (elsewhere op) = record b { semaphore = use_elsewhere b.semaphore op }

unfoldable pub run_all : Bulkhead → List Op → Bulkhead
unfolding step
run_all b [] = b
run_all b (op ∷ ops) = run_all (step b op) ops

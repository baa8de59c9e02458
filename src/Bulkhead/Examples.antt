-- ===== src/Bulkhead/Examples.antt =====
-- One slot and one global permit, which nobody may queue for.
use vereda.Common.{◌≡◌, refl, true, false, Option, some, List, [], ◌∷◌, arith}
use vereda.Common.Int.{pos, ◌-ℤ◌}
use vereda.Errors.{AppError, rate_limited_error, retryable_status_error}
use vereda.Semaphore
use vereda.Semaphore.{Semaphore}
use vereda.Pause
use vereda.Pause.{PartitionPause}
use vereda.RateLimiter.{TokenBucket, refill, ready_at, deficit_ms, wait_from, next_wait_ms}
use vereda.Bulkhead.{
  Bulkhead, PartitionConfig, awaits, runs_task, Op, runs, permits, aborts, new, execute, run_call,
  on_permit, on_task_settled, on_abort, step, run_all, phase_of, is_granted,
}
use vereda.Bulkhead.Slots.{Inv, run_all-new-Inv}
use vereda.Bulkhead.Handover.{on_task_settled-hands_over}
use vereda.Bulkhead.Admission.{
  guard_starts, guard_settles, Gate, refusal_after, refusal_of, take_token, refused_token,
}
use vereda.Bulkhead.Foretold.{refusal_after-take_token}
use vereda.Bulkhead.Pushback.{Visit, settles, takes, visit_all, guard_settles-guard_starts}

abbrev config : PartitionConfig
config = record { concurrency = some 1; max_queue_size = some 2 }

abbrev global_permit : Option Semaphore
global_permit = some (Semaphore.new 1 0)

abbrev history : List Op
history = runs false ∷ permits 0 ∷ runs false ∷ runs false ∷ aborts 1 ∷ runs false ∷ runs false ∷ []

run_all-new-Inv_example : Inv 1 2 0 (run_all (new "eu" config global_permit) history)
run_all-new-Inv_example = run_all-new-Inv "eu" config global_permit history

-- The first task runs with the only permit; calls 2 and 3 are queued, call 1 was cancelled.
abbrev busy : Semaphore
busy = record {
  available = 0;
  wait_queue = [];
  max_queue_size = 0;
  releases = 0 ∷ [];
  next_call = 1;
}

abbrev full : Bulkhead
full = record {
  name = "eu";
  concurrency = 1;
  max_queue_size = 2;
  running = 1;
  wait_queue = 2 ∷ 3 ∷ [];
  active_tickets = 0;
  flights = (0, runs_task (some 0)) ∷ [];
  outcomes = [];
  next_call = 4;
  semaphore = some busy;
}

run_all_lem :
    (run_all (new "eu" config global_permit) history).flights ≡ (0, runs_task (some 0)) ∷ []
unfolding run_all step new run_call execute on_permit on_abort Semaphore.new Semaphore.acquire
    Semaphore.grant
run_all_lem = refl

on_task_settled-hands_over_example :
    (phase_of 2 (on_task_settled full 0).flights ≡ some (awaits 1))
    × (is_granted 1 (on_task_settled full 0).semaphore ≡ true)
on_task_settled-hands_over_example =
    on_task_settled-hands_over full busy 0 0 2 (3 ∷ []) refl refl refl refl refl refl (omega arith)

-- One token a second, none left, frozen until 5000 with the pause.
abbrev bucket : TokenBucket
bucket = record {
  rate = 1;
  token = 1000;
  burst = 1000;
  max_wait_ms = some 2000;
  shift_ms = 0;
  tokens = pos 0;
  refilled_at = 5000;
}

abbrev pause : PartitionPause
pause = record { statuses = 429 ∷ []; max_pause_ms = 30000; until = 5000 }

abbrev gate : Gate
gate = record { name = "eu"; bucket = some bucket; pause = some pause }

abbrev refusal : AppError
refusal = rate_limited_error "eu" 3000 (some 2000) (some 5000)

foretold : (refusal_after gate 1000 2000).1 ≡ some refusal
unfolding refusal_after refusal_of Pause.remaining next_wait_ms wait_from ready_at refill deficit_ms
    ◌-ℤ◌
foretold = refl

refusal_after-take_token_example :
    (take_token (refusal_after gate 1000 2000).0 3000).1 ≡ refused_token refusal
refusal_after-take_token_example = refusal_after-take_token gate 1000 2000 refusal foretold

-- A shorter pushback and a request for a token, meanwhile.
abbrev visits : List Visit
visits = settles (some (retryable_status_error 429 (some 10))) 5000 ∷ takes 6000 ∷ []

guard_settles-guard_starts_example :
    guard_starts
      (visit_all (guard_settles gate (some (retryable_status_error 429 (some 9000))) 4000) visits)
      12000
    ≡ false
guard_settles-guard_starts_example =
    guard_settles-guard_starts gate pause 429 9000 4000 12000 visits refl refl (omega arith)
      (omega arith)

-- ===== src/RetryLoop/Examples.antt =====
-- A job whose first retry is answered with status 503 and whose second succeeds.
use vereda.Common.{List, ℕ, zero, suc, ◌≡◌, refl, true, false, none, some, [], ◌∷◌, sum_by}
use vereda.Common.Text.{codes}
use vereda.Errors.{retryable_status_error, network_error}
use vereda.Policy.{should_retry, default_retry_policy, is_idempotent_method}
use vereda.Backoff.{exponential, build_backoff_fn, backoff_cap, resolve_retry_delay}
use vereda.RetryLoop.{
  RetryJob, Turn, Attempted, responded, failed, after_attempt, announce, by_budget, by_refusal,
  by_deadline, with_permit, iteration, loop, run_retry_loop,
}
use vereda.Ticket
use vereda.RetryLoop.Settles.{ops_of, run_retry_loop-settles}
use vereda.RetryLoop.Tally.{Ended, sent}
use vereda.RetryLoop.Accounting.{run_retry_loop-Ended}

abbrev job : RetryJob
job = record {
  display_url = "https://a.example/";
  partition = "a";
  ctx = record { method = codes "GET"; headers = none; idempotent = none };
  max_retries = some 2;
  backoff = none;
  retry_when = none;
  attempt_ms = some 1000;
  total_ms = some 60000;
  deadline_at = some 70000;
  first_error = network_error;
  initial_queued_ms = 5;
  jittered = λ capped. capped;
}

abbrev turn : (now : ℕ) → Attempted → Turn
turn now attempted = record {
  cancelled_first = false;
  permit_given = true;
  now = now;
  pause_ms = 0;
  refusal = none;
  budget_admits = true;
  slept = true;
  cancelled_later = false;
  waits = 7 ∷ [];
  attempted = attempted;
}

abbrev turns : ℕ → Turn
turns zero = turn 10500 (failed (retryable_status_error 503 none))
turns (suc n) = turn 12000 (responded 200)

sends_two : sum_by sent (run_retry_loop job turns) ≡ 2
unfolding run_retry_loop loop iteration with_permit by_deadline by_refusal by_budget announce
    after_attempt should_retry default_retry_policy is_idempotent_method resolve_retry_delay
    build_backoff_fn exponential backoff_cap
sends_two = refl

run_retry_loop-Ended_example : Ended 1 2 (run_retry_loop job turns)
run_retry_loop-Ended_example = run_retry_loop-Ended job turns

abbrev queued : List (Ticket.Op ℕ)
queued = Ticket.marks_queued ∷ []

run_retry_loop-settles_example :
    Ticket.is_settled
      (Ticket.run (Ticket.run (Ticket.new ℕ) queued) (ops_of 200 (run_retry_loop job turns)))
    ≡ true
run_retry_loop-settles_example = run_retry_loop-settles 200 job turns queued

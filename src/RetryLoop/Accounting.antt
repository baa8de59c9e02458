-- ===== src/RetryLoop/Accounting.antt =====
-- What the log of every run of the loop adds up to.
use vereda.Common.{
  ℕ, zero, suc, ◌+◌, ◌≡◌, refl, sym, subst, Bool, true, false, not, ◌&&◌, Option, none, some, List,
  [], ◌∷◌, max, sum_by, sum_by-append, inl, inr, Bool-cases, ltb, ◌==◌, or_default, if◌then◌else◌,
  arith,
}
use vereda.Errors.{
  AppError, circuit_open_error, deadline_exceeded_after, max_retries_exceeded_error,
}
use vereda.Policy.{should_retry, default_retry_policy}
use vereda.Backoff.{build_backoff_fn, backoff_cap, resolve_retry_delay}
use vereda.RetryLoop.{
  RetryJob, Turn, Act, permit_release, cleans_up, budget_exhausted, on_retry, marks_retrying,
  on_failure, marks_failed, Progress, Step, stops, goes_on, fails, cancels, aborts, after_attempt,
  after, announce, by_budget, by_refusal, by_deadline, past_deadline, holding_permit, then_loop,
  with_permit, iteration, exhausted, loop, run_retry_loop, default_max_retries,
}
use vereda.RetryLoop.Tally.{
  ends, attempts, resolutions, cleanups, sent, taken, released, Ended, Fine, fails-Ended,
  throws-Ended, cancels-Ended, aborts-Ended, after_attempt-Fine,
}

-- Two acts in front that count for nothing.
after-Fine :
    (p : Progress) (attempt delay_ms n d : ℕ) (e : AppError) (step : Step)
    → Fine p step
    → Fine p (after (on_retry attempt delay_ms e ∷ marks_retrying n d ∷ []) step)
after-Fine p attempt delay_ms n d e (stops acts) v = record {
  one_end = omega (arith, v.one_end);
  one_resolution = omega (arith, v.one_resolution);
  one_cleanup = omega (arith, v.one_cleanup);
  permits = omega (arith, v.permits);
  reported = omega (arith, v.reported);
  few = omega (arith, v.few);
}
after-Fine p attempt delay_ms n d e (goes_on acts q) v = record {
  no_end = omega (arith, v.no_end);
  no_resolution = omega (arith, v.no_resolution);
  no_cleanup = omega (arith, v.no_cleanup);
  permits = omega (arith, v.permits);
  no_report = omega (arith, v.no_report);
  one_sent = omega (arith, v.one_sent);
  counted = v.counted;
}

announce-Fine :
    (job : RetryJob) (attempt : ℕ) (t : Turn) (p : Progress) (delay_ms : ℕ)
    → Fine p (announce job attempt t p delay_ms)
unfolding announce
announce-Fine job attempt t p delay_ms =
    let reported : ℕ = max delay_ms t.pause_ms in
    elim (Bool-cases t.slept) [
      | inl s ↦ elim (Bool-cases t.cancelled_later) [
        | inl c ↦
            rw (s, c)
              (after-Fine p attempt reported attempt reported p.last_error (stops (cancels p))
                (cancels-Ended 1 p))
        | inr c ↦
            let q : Progress = record p {
              total_attempts = suc p.total_attempts;
              total_queued_ms = p.total_queued_ms + sum_by (λ ms. ms) t.waits;
            } in
            rw (s, c)
              (after-Fine p attempt reported attempt reported p.last_error
                (after_attempt job attempt q t.attempted)
                (after_attempt-Fine job attempt p q t.attempted refl))
      ]
      | inr s ↦ rw s (
          after-Fine p attempt reported attempt reported p.last_error
            (stops (aborts job t.cancelled_later p)) (aborts-Ended 1 job t.cancelled_later p))
    ]

either-Fine :
    (p : Progress) (b : Bool) (x y : Step) → Fine p x → Fine p y → Fine p (if b then x else y)
either-Fine p true x y u v = u
either-Fine p false x y u v = v

by_budget-Fine :
    (job : RetryJob) (attempt : ℕ) (t : Turn) (p : Progress) (delay_ms : ℕ)
    → Fine p (by_budget job attempt t p delay_ms)
unfolding by_budget
by_budget-Fine job attempt t p delay_ms =
    either-Fine p (not t.budget_admits)
      (stops (
        cleans_up
        ∷ budget_exhausted
        ∷ on_failure p.last_error p.total_attempts p.total_queued_ms
        ∷ marks_failed p.last_error
        ∷ []))
      (announce job attempt t p delay_ms)
      (record {
        one_end = refl;
        one_resolution = refl;
        one_cleanup = refl;
        permits = refl;
        reported = omega arith;
        few = omega arith;
      })
      (announce-Fine job attempt t p delay_ms)

by_refusal-Fine :
    (job : RetryJob) (attempt : ℕ) (t : Turn) (p : Progress) (delay_ms : ℕ)
    (refusal : Option AppError)
    → Fine p (by_refusal job attempt t p delay_ms refusal)
unfolding by_refusal
by_refusal-Fine job attempt t p delay_ms (some e) = throws-Ended 1 e p
by_refusal-Fine job attempt t p delay_ms none = by_budget-Fine job attempt t p delay_ms

by_deadline-Fine :
    (job : RetryJob) (attempt : ℕ) (t : Turn) (p : Progress) (delay_ms : ℕ) (past : Option ℕ)
    → Fine p (by_deadline job attempt t p delay_ms past)
unfolding by_deadline
by_deadline-Fine job attempt t p delay_ms (some total) =
    fails-Ended 1 (deadline_exceeded_after job.display_url total p.last_error) p
by_deadline-Fine job attempt t p delay_ms none = by_refusal-Fine job attempt t p delay_ms t.refusal

with_permit-Fine :
    (job : RetryJob) (attempt : ℕ) (t : Turn) (p : Progress) → Fine p (with_permit job attempt t p)
unfolding with_permit
with_permit-Fine job attempt t p =
    let delay_ms : ℕ =
      resolve_retry_delay p.last_error (build_backoff_fn job.jittered job.backoff) attempt
        (backoff_cap job.backoff) in
    elim (Bool-cases
      (ltb 0 attempt && not (should_retry p.last_error attempt job.ctx job.retry_when))) [
        | inl e ↦ rw e (fails-Ended 1 p.last_error p)
        | inr e ↦ rw e (
            by_deadline-Fine job attempt t p delay_ms
              (past_deadline job.deadline_at job.total_ms (t.now + max delay_ms t.pause_ms)))
      ]

holding_permit-Fine : (p : Progress) (step : Step) → Fine p step → Fine p (holding_permit step)
holding_permit-Fine p (stops acts) v =
    let add : (w : Act → ℕ) → _ = λ w. sum_by-append w acts (permit_release ∷ []) in
    record {
      one_end = omega (arith, add ends, v.one_end);
      one_resolution = omega (arith, add resolutions, v.one_resolution);
      one_cleanup = omega (arith, add cleanups, v.one_cleanup);
      permits = omega (arith, add taken, add released, v.permits);
      reported = omega (arith, add attempts, add sent, v.reported);
      few = omega (arith, add sent, v.few);
    }
holding_permit-Fine p (goes_on acts q) v =
    let add : (w : Act → ℕ) → _ = λ w. sum_by-append w acts (permit_release ∷ []) in
    record {
      no_end = omega (arith, add ends, v.no_end);
      no_resolution = omega (arith, add resolutions, v.no_resolution);
      no_cleanup = omega (arith, add cleanups, v.no_cleanup);
      permits = omega (arith, add taken, add released, v.permits);
      no_report = omega (arith, add attempts, v.no_report);
      one_sent = omega (arith, add sent, v.one_sent);
      counted = v.counted;
    }

iteration-Fine :
    (job : RetryJob) (attempt : ℕ) (t : Turn) (p : Progress) → Fine p (iteration job attempt t p)
unfolding iteration
iteration-Fine job attempt t p =
    either-Fine p t.cancelled_first (stops (cancels p))
      (if not t.permit_given
        then stops (fails (circuit_open_error job.partition) p)
        else holding_permit (with_permit job attempt t p))
      (cancels-Ended 1 p)
      (either-Fine p (not t.permit_given) (stops (fails (circuit_open_error job.partition) p))
        (holding_permit (with_permit job attempt t p))
        (fails-Ended 1 (circuit_open_error job.partition) p)
        (holding_permit-Fine p (with_permit job attempt t p) (with_permit-Fine job attempt t p)))

exhausted-Ended :
    (job : RetryJob) (m : ℕ) (p : Progress)
    → p.total_attempts ≡ 1 + m
    → Ended p.total_attempts 0 (exhausted job m p)
unfolding exhausted
exhausted-Ended job m p h =
    let q : Progress = record p { total_attempts = 1 + m } in
    let as_p : (e : AppError) → Ended p.total_attempts 0 (fails e q) =
      λ e. subst (λ (n : ℕ). Ended n 0 (fails e q)) (sym h) (fails-Ended 0 e q) in
    elim (Bool-cases (m == 0)) [
      | inl z ↦ rw z (fails-Ended 0 p.last_error p)
      | inr z ↦ elim (Bool-cases (default_retry_policy p.last_error m job.ctx)) [
        | inl r ↦ rw (z, r) (as_p (max_retries_exceeded_error (1 + m) p.last_error))
        | inr r ↦ rw (z, r) (as_p p.last_error)
      ]
    ]

-- An iteration that goes on, and what follows it.
then_loop-Ended :
    (left : ℕ) (p : Progress) (step : Step) (rest : Progress → List Act)
    → Fine p step
    → ((q : Progress)
        → q.total_attempts ≡ suc p.total_attempts
        → Ended q.total_attempts left (rest q))
    → Ended p.total_attempts (suc left) (then_loop step rest)
then_loop-Ended left p (stops acts) rest v k = record {
  one_end = v.one_end;
  one_resolution = v.one_resolution;
  one_cleanup = v.one_cleanup;
  permits = v.permits;
  reported = v.reported;
  few = omega (arith, v.few);
}
then_loop-Ended left p (goes_on acts q) rest v k =
    let add : (w : Act → ℕ) → _ = λ w. sum_by-append w acts (rest q) in
    let r = k q v.counted in
    record {
      one_end = omega (arith, add ends, v.no_end, r.one_end);
      one_resolution = omega (arith, add resolutions, v.no_resolution, r.one_resolution);
      one_cleanup = omega (arith, add cleanups, v.no_cleanup, r.one_cleanup);
      permits = omega (arith, add taken, add released, v.permits, r.permits);
      reported =
          omega (arith, add attempts, add sent, v.no_report, v.one_sent, v.counted, r.reported);
      few = omega (arith, add sent, v.one_sent, r.few);
    }

loop-Ended :
    (job : RetryJob) (turns : ℕ → Turn) (m left attempt : ℕ) (p : Progress)
    → p.total_attempts + left ≡ 1 + m
    → Ended p.total_attempts left (loop job turns m left attempt p)
unfolding loop
loop-Ended job turns m zero attempt p h = exhausted-Ended job m p (omega (arith, h))
loop-Ended job turns m (suc left) attempt p h =
    then_loop-Ended left p (iteration job attempt (turns attempt) p)
      (λ q. loop job turns m left (suc attempt) q) (iteration-Fine job attempt (turns attempt) p)
      (λ q c. loop-Ended job turns m left (suc attempt) q (omega (arith, h, c)))

-- However the retry loop of a ticket ends, for every job and whatever the ticket, the breaker, the
-- budget, the bulkhead and the fetch do in each iteration: it makes exactly one terminal callback (for
-- success, failure or cancellation), resolves the ticket exactly once and cleans up exactly once; it
-- releases as many breaker permits as it took; and the number of attempts that the terminal callback
-- reports is one, for the first attempt, more than the number of attempts the loop
-- sent, which is at most the configured number of retries.
pub run_retry_loop-Ended :
    (job : RetryJob) (turns : ℕ → Turn)
    → Ended 1 (or_default job.max_retries default_max_retries) (run_retry_loop job turns)
unfolding run_retry_loop
run_retry_loop-Ended job turns =
    let m : ℕ = or_default job.max_retries default_max_retries in
    loop-Ended job turns m m 0
      (record {
        last_error = job.first_error;
        total_attempts = 1;
        total_queued_ms = job.initial_queued_ms;
      })
      refl

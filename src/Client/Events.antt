-- ===== src/Client/Events.antt =====
-- What the log of every request adds up to.
use vereda.Common.{
  ℕ, ◌+◌, ◌≡◌, refl, Bool, true, false, Option, none, some, List, [], ◌∷◌, ◌++◌, map, sum_by,
  sum_by-append, or_default, if◌then◌else◌, arith,
}
use vereda.Errors.{AppError}
use vereda.Ticket
use vereda.Ticket.{Ticket, is_settled, run, new}
use vereda.Ticket.Lifecycle.{Consistent, run-Consistent, run-new-Consistent}
use vereda.RetryLoop
use vereda.RetryLoop.{cleans_up, Turn, run_retry_loop, default_max_retries}
use vereda.RetryLoop.Tally.{ends, attempts, cleanups, sent, taken, released, Ended}
use vereda.RetryLoop.Accounting.{run_retry_loop-Ended}
use vereda.Client.{
  RequestJob, FirstTurn, Act, does, First, finished, rejects, schedules, fails_with,
  fire_first_attempt, retry_job, catches, thrown, catches_thrown, ops_of, schedule_in_bulkhead,
  after_first, send,
}
use vereda.Client.Tally.{lifted, sum_by-does, requests, Shows, FirstFine, Told}
use vereda.Client.Attempt.{fire_first_attempt-FirstFine}
use vereda.Client.Settled.{loop-settled}

-- Whether the request ends without an event: the first attempt throws when the ticket is settled.
abbrev pub missed : First → (settled : Bool) → ℕ
missed (rejects acts e) true = 1
missed f settled = 0

requests-does : (acts : List _) → sum_by requests (map does acts) ≡ 0
requests-does [] = refl
requests-does (act ∷ acts) = omega (arith, requests-does acts)

-- All that a handler adds for a settled ticket is a cleanup.
handler-sum :
    (w : Act → ℕ) (e : Option AppError) (q : ℕ)
    → w (does cleans_up) ≡ 0
    → sum_by w (catches_thrown e q true) ≡ 0
handler-sum w none q h = refl
handler-sum w (some e) q h = omega (arith, h)

module _ {A : Type 0} (data_of : A) (job : RequestJob) (turns : ℕ → Turn) where
  abbrev retries : ℕ
  retries = or_default job.max_retries default_max_retries

  finished-Told :
      (resolved : ℕ) (acts : List Act) → Shows 1 resolved 1 1 1 acts → Told retries 0 acts
  finished-Told resolved acts v = record {
    one_event = omega (arith, v.events_of);
    one_request = v.asked_of;
    permits = v.permits;
    cleaned = omega (arith, v.cleaned_of);
    all_reported = omega (arith, v.few, v.reported_of);
    none_invented = omega (arith, v.reported_of);
    few = omega (arith, v.reported_of);
  }

  rejects-Told :
      (acts : List Act) (e : AppError) (settled : Bool)
      → Shows 0 0 0 0 1 acts
      → Told retries (missed (rejects acts e) settled) (acts ++ catches e 0 settled)
  rejects-Told acts e true v =
      let add : (w : Act → ℕ) → _ = λ w. sum_by-append w acts (does cleans_up ∷ []) in
      record {
        one_event = omega (arith, add (lifted ends), v.events_of);
        one_request = omega (arith, add requests, v.asked_of);
        permits = omega (arith, add (lifted taken), add (lifted released), v.permits);
        cleaned = omega (arith, add (lifted cleanups));
        all_reported = omega (arith, add (lifted sent), v.few);
        none_invented = omega (arith, add (lifted attempts), v.reported_of);
        few = omega (arith, add (lifted attempts), v.reported_of);
      }
  rejects-Told acts e false v =
      let add : (w : Act → ℕ) → _ = λ w. sum_by-append w acts (fails_with e 0) in
      record {
        one_event = omega (arith, add (lifted ends), v.events_of);
        one_request = omega (arith, add requests, v.asked_of);
        permits = omega (arith, add (lifted taken), add (lifted released), v.permits);
        cleaned = omega (arith, add (lifted cleanups));
        all_reported = omega (arith, add (lifted attempts), add (lifted sent), v.few);
        none_invented = omega (arith, add (lifted attempts), v.reported_of);
        few = omega (arith, add (lifted attempts), v.reported_of);
      }

  -- The loop's log between the first attempt's and the handler's.
  between-Told :
      (acts : List Act) (loop : List RetryLoop.Act) (e : Option AppError) (q : ℕ)
      → Shows 0 0 0 0 1 acts
      → Ended 1 retries loop
      → Told retries 0 (acts ++ (map does loop ++ catches_thrown e q true))
  between-Told acts loop e q v r =
      let handled : List Act = catches_thrown e q true in
      let all : (w : Act → ℕ) → _ = λ w. sum_by-append w acts (map does loop ++ handled) in
      let both : (w : Act → ℕ) → _ = λ w. sum_by-append w (map does loop) handled in
      let add : (w : RetryLoop.Act → ℕ)
          → w cleans_up ≡ 0
          → sum_by (lifted w) (acts ++ (map does loop ++ handled))
            ≡ sum_by (lifted w) acts + sum_by w loop =
        λ w z. omega (
          arith,
          all (lifted w),
          both (lifted w),
          sum_by-does w loop,
          handler-sum (lifted w) e q z,
        ) in
      record {
        one_event = omega (arith, add ends refl, v.events_of, r.one_end);
        one_request = omega (
          arith,
          all requests,
          both requests,
          requests-does loop,
          handler-sum requests e q refl,
          v.asked_of,
        );
        permits = omega (arith, add taken refl, add released refl, v.permits, r.permits);
        cleaned = omega (
          arith,
          all (lifted cleanups),
          both (lifted cleanups),
          sum_by-does cleanups loop,
          r.one_cleanup,
        );
        all_reported =
            omega (arith, add sent refl, add attempts refl, v.few, v.reported_of, r.reported);
        none_invented = omega (arith, add sent refl, add attempts refl, v.reported_of, r.reported);
        few = omega (arith, add attempts refl, v.reported_of, r.reported, r.few);
      }

  schedules-Told :
      (t : Ticket A) (acts : List Act) (e : AppError) (q : ℕ)
      → Consistent t
      → Shows 0 0 0 0 1 acts
      → Told retries 0 (acts ++ schedule_in_bulkhead data_of job turns e q t)
  unfolding schedule_in_bulkhead
  schedules-Told t acts e q c v =
      let loop = run_retry_loop (retry_job job e q) turns in
      rw (loop-settled data_of (retry_job job e q) turns t c)
        (between-Told acts loop (thrown loop) q v (run_retry_loop-Ended (retry_job job e q) turns))

  after_first-Told :
      (resolved : ℕ) (t : Ticket A) (f : First)
      → Consistent t
      → FirstFine resolved 1 f
      → Told retries (missed f (is_settled t)) (after_first data_of job turns t f)
  unfolding after_first
  after_first-Told resolved t (finished acts) c v = finished-Told resolved acts v
  after_first-Told resolved t (rejects acts e) c v = rejects-Told acts e (is_settled t) v
  after_first-Told resolved t (schedules acts e q) c v =
      schedules-Told (run t (ops_of data_of acts)) acts e q
        (run-Consistent t (ops_of data_of acts) c) v

  -- Whatever happens to the ticket before and while the first attempt runs, and whatever the breaker,
  -- the bulkhead, the budget and the fetch answer then and in each retry, a request
  -- emits one terminal event ("success", "failure" or "cancelled") and no second one, except that it
  -- emits none if a full queue refused the first attempt and the ticket was settled when
  -- that refusal was handled. It emits at most one "request", gives back every breaker permit it took,
  -- and cleans up. The event reports no fewer attempts than were sent, one more at most,
  -- and at most one more than the configured number of retries.
  pub send-Told :
      (first : FirstTurn) (before meanwhile : List (Ticket.Op A))
      → Told retries
          (missed
            (fire_first_attempt job (is_settled (run (new A) before)) first)
            (is_settled (run (run (new A) before) meanwhile)))
          (send data_of job first turns (run (new A) before) meanwhile)
  unfolding send
  send-Told first before meanwhile =
      let t : Ticket A = run (new A) before in
      after_first-Told (if is_settled t then 0 else 1) (run t meanwhile)
        (fire_first_attempt job (is_settled t) first)
        (run-Consistent t meanwhile (run-new-Consistent before))
        (fire_first_attempt-FirstFine job (is_settled t) first)

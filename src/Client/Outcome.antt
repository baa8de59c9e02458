-- ===== src/Client/Outcome.antt =====
-- How every request leaves its ticket.
use vereda.Common.{
  ℕ, ◌≡◌, refl, ap, ◌∙◌, Bool, true, false, List, ◌++◌, map, sum_by-append, inl, inr, Bool-cases,
  if◌then◌else◌, arith,
}
use vereda.Errors.{AppError}
use vereda.Ticket
use vereda.Ticket.{Ticket, is_settled, run, new}
use vereda.Ticket.Lifecycle.{Consistent, run-Consistent, run-new-Consistent}
use vereda.Ticket.Settled.{run-append, settled-run}
use vereda.RetryLoop.{Turn, run_retry_loop}
use vereda.RetryLoop.Tally.{resolutions}
use vereda.Client.{
  RequestJob, FirstTurn, Act, does, First, finished, rejects, schedules, fails_with,
  fire_first_attempt, retry_job, catches, thrown, catches_thrown, ops_of, schedule_in_bulkhead,
  after_first, send,
}
use vereda.Client.Tally.{lifted, FirstFine}
use vereda.Client.Attempt.{fire_first_attempt-FirstFine}
use vereda.Client.Settled.{ops_of-append, loop-settled, resolves-settled}

module _ {A : Type 0} (data_of : A) (job : RequestJob) (turns : ℕ → Turn) where
  -- What is told after a log finds the ticket as the log left it.
  run-ops_of-append :
      (t : Ticket A) (acts later : List Act)
      → run t (ops_of data_of (acts ++ later))
        ≡ run (run t (ops_of data_of acts)) (ops_of data_of later)
  run-ops_of-append t acts later =
      ap (λ ops. run t ops) (ops_of-append data_of acts later)
      ∙ run-append t (ops_of data_of acts) (ops_of data_of later)

  rejects-settled :
      (t : Ticket A) (acts : List Act) (e : AppError)
      → Consistent t
      → is_settled (run t (ops_of data_of (acts ++ catches e 0 (is_settled t)))) ≡ true
  rejects-settled t acts e c = elim (Bool-cases (is_settled t)) [
    | inl s ↦ settled-run t (ops_of data_of (acts ++ catches e 0 (is_settled t))) c s
    | inr s ↦ rw s (
        resolves-settled data_of (acts ++ fails_with e 0) t
          (omega (arith, sum_by-append (lifted resolutions) acts (fails_with e 0))) c)
  ]

  schedule-settled :
      (t : Ticket A) (e : AppError) (q : ℕ)
      → Consistent t
      → is_settled (run t (ops_of data_of (schedule_in_bulkhead data_of job turns e q t))) ≡ true
  unfolding schedule_in_bulkhead
  schedule-settled t e q c =
      let loop = run_retry_loop (retry_job job e q) turns in
      let over : Ticket A = run t (ops_of data_of (map does loop)) in
      let handled : List Act = catches_thrown (thrown loop) q (is_settled over) in
      rw (run-ops_of-append t (map does loop) handled) (
        settled-run over (ops_of data_of handled)
          (run-Consistent t (ops_of data_of (map does loop)) c)
          (loop-settled data_of (retry_job job e q) turns t c))

  after_first-settled :
      (settled_first : Bool) (t : Ticket A) (f : First)
      → Consistent t
      → (settled_first ≡ true → is_settled t ≡ true)
      → FirstFine (if settled_first then 0 else 1) 1 f
      → is_settled (run t (ops_of data_of (after_first data_of job turns t f))) ≡ true
  unfolding after_first
  after_first-settled true t (finished acts) c s v = settled-run t (ops_of data_of acts) c (s refl)
  after_first-settled false t (finished acts) c s v =
      resolves-settled data_of acts t (omega (arith, v.resolved_of)) c
  after_first-settled b t (rejects acts e) c s v = rejects-settled t acts e c
  after_first-settled b t (schedules acts e q) c s v =
      let scheduled : Ticket A = run t (ops_of data_of acts) in
      rw (run-ops_of-append t acts (schedule_in_bulkhead data_of job turns e q scheduled))
        (schedule-settled scheduled e q (run-Consistent t (ops_of data_of acts) c))

  -- Every request settles its ticket: whatever happens to the ticket before and while the first
  -- attempt runs, and whatever the client is answered then and in each retry, the ticket is settled
  -- when it has been told all that the log of the request tells it.
  pub send-settles :
      (first : FirstTurn) (before meanwhile : List (Ticket.Op A))
      → is_settled (
          run
            (run (run (new A) before) meanwhile)
            (ops_of data_of (send data_of job first turns (run (new A) before) meanwhile)))
        ≡ true
  unfolding send
  send-settles first before meanwhile =
      let t : Ticket A = run (new A) before in
      let c = run-new-Consistent before in
      after_first-settled (is_settled t) (run t meanwhile)
        (fire_first_attempt job (is_settled t) first) (run-Consistent t meanwhile c)
        (λ s. settled-run t meanwhile c s) (fire_first_attempt-FirstFine job (is_settled t) first)

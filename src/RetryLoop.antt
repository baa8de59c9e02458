-- ===== src/RetryLoop.antt =====
-- src/queue/retry.ts: the loop that retries a ticket. What the loop asks of its surroundings in one
-- iteration (the ticket, the breaker, the budget, the bulkhead, the fetch) is the record `Turn`; what
-- it tells them is a log of acts, in order. A callback does not throw, and the only errors that the
-- bulkhead throws are those of `takeToken` and `run`.
pub mod Tally
pub mod Accounting
pub mod Settles
mod Examples
use vereda.Common.{
  ℕ, zero, suc, ◌+◌, ◌-◌, String, Bool, true, false, ◌&&◌, not, Option, none, some, List, [], ◌∷◌,
  ◌++◌, max, ltb, leb, ◌==◌, or_default, sum_by, if◌then◌else◌,
}
use vereda.Errors.{
  AppError, cancelled_error, circuit_open_error, deadline_exceeded_error, deadline_exceeded_after,
  max_retries_exceeded_error, timeout_error,
}
use vereda.Policy.{RetryPolicyContext, RetryWhen, should_retry, default_retry_policy}
use vereda.Backoff.{Backoff, BackoffFn, build_backoff_fn, backoff_cap, resolve_retry_delay}

abbrev pub default_max_retries : ℕ
default_max_retries = 3

abbrev pub no_timeout_configured : ℕ
no_timeout_configured = 0

pub record RetryJob : Type 0 where
  pub display_url : String
  pub partition : String
  pub ctx : RetryPolicyContext
  pub max_retries : Option ℕ
  pub backoff : Option Backoff
  pub retry_when : RetryWhen
  pub attempt_ms : Option ℕ
  pub total_ms : Option ℕ  -- absent when it is not a finite number: `isBoundedMs`
  pub deadline_at : Option ℕ
  pub first_error : AppError
  pub initial_queued_ms : ℕ
  pub jittered : ℕ → ℕ  -- `Math.random() * capped`

-- What comes of the loop's own request for an attempt.
pub data Attempted : Type 0 where
  responded : (status : ℕ) → Attempted
  was_cancelled : (ticket_cancelled : Bool) → Attempted
  timed_out : Attempted
  failed : AppError → Attempted
  threw_cancelled : (ticket_cancelled : Bool) → Attempted  -- from a queue: nothing was sent
  threw_refusal : AppError → (ticket_cancelled : Bool) → Attempted

pub record Turn : Type 0 where
  pub cancelled_first : Bool  -- `ticket.isCancelled` at the top
  pub permit_given : Bool
  pub now : ℕ
  pub pause_ms : ℕ
  pub refusal : Option AppError  -- `bulkhead.refusalAfter(delayMs)`
  pub budget_admits : Bool  -- true as well when there is no budget
  pub slept : Bool  -- false when the signal ended the sleep
  pub cancelled_later : Bool  -- `ticket.isCancelled` after the sleep
  pub waits : List ℕ  -- for tokens and in queues, of each round of the do-while loop
  pub attempted : Attempted

pub data Act : Type 0 where
  takes_permit permit_success permit_release cleans_up budget_exhausted : Act
  permit_failure : AppError → Act
  on_retry : (attempt delay_ms : ℕ) → AppError → Act
  marks_retrying : (attempt delay_ms : ℕ) → Act
  sends : (attempt : ℕ) → Act
  on_success : (status attempts queued_ms : ℕ) → Act
  on_failure : AppError → (attempts queued_ms : ℕ) → Act
  on_cancelled : (attempts queued_ms : ℕ) → Act
  marks_done : Act
  marks_failed : AppError → Act
  rethrows : AppError → Act  -- the error leaves the loop, once `finally` has run

pub record Progress : Type 0 where
  pub last_error : AppError
  pub total_attempts : ℕ
  pub total_queued_ms : ℕ

pub data Step : Type 0 where
  stops : List Act → Step
  goes_on : List Act → Progress → Step

abbrev pub fails : AppError → Progress → List Act
fails e p = cleans_up ∷ on_failure e p.total_attempts p.total_queued_ms ∷ marks_failed e ∷ []

-- Marked failed, and thrown to the client's `catch`.
abbrev pub throws : AppError → Progress → List Act
throws e p = fails e p ++ (rethrows e ∷ [])

abbrev pub cancels : Progress → List Act
cancels p =
    cleans_up ∷ on_cancelled p.total_attempts p.total_queued_ms ∷ marks_failed cancelled_error ∷ []

-- An abort is the deadline's when the ticket itself was not cancelled and a total time was set.
unfoldable pub aborts : RetryJob → (ticket_cancelled : Bool) → Progress → List Act
aborts job ticket_cancelled p = elim job.total_ms [
  | none ↦ cancels p
  | some total ↦
      if ticket_cancelled
      then cancels p
      else fails (deadline_exceeded_error job.display_url total) p
]

-- The attempt's number is one more than the iteration's.
abbrev pub sends_attempt : ℕ → Act
sends_attempt attempt = sends (attempt + 1)

-- The `switch` on the result, and the errors caught before it; `p` has counted the attempt already.
unfoldable pub after_attempt : RetryJob → ℕ → Progress → Attempted → Step
unfolding aborts
after_attempt job attempt p (responded status) = stops (
    sends_attempt attempt
    ∷ permit_success
    ∷ cleans_up
    ∷ on_success status p.total_attempts p.total_queued_ms
    ∷ marks_done
    ∷ [])
after_attempt job attempt p (was_cancelled c) = stops (sends_attempt attempt ∷ aborts job c p)
after_attempt job attempt p timed_out =
    let e = timeout_error job.display_url (or_default job.attempt_ms no_timeout_configured) in
    goes_on (sends_attempt attempt ∷ permit_failure e ∷ []) (record p { last_error = e })
after_attempt job attempt p (failed e) =
    goes_on (sends_attempt attempt ∷ permit_failure e ∷ []) (record p { last_error = e })
after_attempt job attempt p (threw_cancelled c) =
    stops (aborts job c (record p { total_attempts = p.total_attempts - 1 }))
after_attempt job attempt p (threw_refusal e ticket_cancelled) =
    let q = record p { total_attempts = p.total_attempts - 1 } in
    if ticket_cancelled
    then stops (
        cleans_up
        ∷ on_cancelled q.total_attempts q.total_queued_ms
        ∷ marks_failed e
        ∷ rethrows e
        ∷ [])
    else stops (throws e q)

abbrev pub after : List Act → Step → Step
after said (stops acts) = stops (said ++ acts)
after said (goes_on acts q) = goes_on (said ++ acts) q

-- From the retry's announcement on.
unfoldable pub announce : RetryJob → ℕ → Turn → Progress → (delay_ms : ℕ) → Step
announce job attempt t p delay_ms =
    let reported : ℕ = max delay_ms t.pause_ms in
    let said = on_retry attempt reported p.last_error ∷ marks_retrying attempt reported ∷ [] in
    let q = record p {
      total_attempts = suc p.total_attempts;
      total_queued_ms = p.total_queued_ms + sum_by (λ ms. ms) t.waits;
    } in
    if not t.slept
    then stops (said ++ aborts job t.cancelled_later p)
    else if t.cancelled_later
    then stops (said ++ cancels p)
    else after said (after_attempt job attempt q t.attempted)

-- Whether the deadline comes before the retry could go out.
abbrev pub past_deadline : Option ℕ → Option ℕ → (at_ : ℕ) → Option ℕ
past_deadline none total at_ = none
past_deadline (some deadline) none at_ = none
past_deadline (some deadline) (some total) at_ = if leb deadline at_ then some total else none

unfoldable pub by_budget : RetryJob → ℕ → Turn → Progress → (delay_ms : ℕ) → Step
by_budget job attempt t p delay_ms =
    if not t.budget_admits
    then stops (
        cleans_up
        ∷ budget_exhausted
        ∷ on_failure p.last_error p.total_attempts p.total_queued_ms
        ∷ marks_failed p.last_error
        ∷ [])
    else announce job attempt t p delay_ms

unfoldable pub by_refusal : RetryJob → ℕ → Turn → Progress → (delay_ms : ℕ) → Option AppError → Step
by_refusal job attempt t p delay_ms (some refusal) = stops (throws refusal p)
by_refusal job attempt t p delay_ms none = by_budget job attempt t p delay_ms

unfoldable pub by_deadline : RetryJob → ℕ → Turn → Progress → (delay_ms : ℕ) → Option ℕ → Step
by_deadline job attempt t p delay_ms (some total) =
    stops (fails (deadline_exceeded_after job.display_url total p.last_error) p)
by_deadline job attempt t p delay_ms none = by_refusal job attempt t p delay_ms t.refusal

-- What `try` encloses: the gate, the deadline, the rate limit, the budget, and the attempt.
unfoldable pub with_permit : RetryJob → ℕ → Turn → Progress → Step
with_permit job attempt t p =
    let delay_ms : ℕ =
      resolve_retry_delay p.last_error (build_backoff_fn job.jittered job.backoff) attempt
        (backoff_cap job.backoff) in
    if ltb 0 attempt && not (should_retry p.last_error attempt job.ctx job.retry_when)
    then stops (fails p.last_error p)
    else by_deadline job attempt t p delay_ms
        (past_deadline job.deadline_at job.total_ms (t.now + max delay_ms t.pause_ms))

-- `finally` releases the permit on every way out.
abbrev pub holding_permit : Step → Step
holding_permit (stops acts) = stops (takes_permit ∷ (acts ++ (permit_release ∷ [])))
holding_permit (goes_on acts q) = goes_on (takes_permit ∷ (acts ++ (permit_release ∷ []))) q

-- One iteration.
unfoldable pub iteration : RetryJob → ℕ → Turn → Progress → Step
iteration job attempt t p =
    if t.cancelled_first
    then stops (cancels p)
    else if not t.permit_given
    then stops (fails (circuit_open_error job.partition) p)
    else holding_permit (with_permit job attempt t p)

-- After the last iteration.
unfoldable pub exhausted : RetryJob → (max_retries : ℕ) → Progress → List Act
exhausted job max_retries p =
    let q = record p { total_attempts = 1 + max_retries } in
    if max_retries == 0
    then fails p.last_error p
    else if not (default_retry_policy p.last_error max_retries job.ctx)
    then fails p.last_error q
    else fails (max_retries_exceeded_error (1 + max_retries) p.last_error) q

abbrev pub then_loop : Step → (Progress → List Act) → List Act
then_loop (stops acts) rest = acts
then_loop (goes_on acts q) rest = acts ++ rest q

-- The iterations that are left, of which the next is number `attempt`.
unfoldable pub loop : RetryJob → (ℕ → Turn) → (max_retries left attempt : ℕ) → Progress → List Act
loop job turns max_retries zero attempt p = exhausted job max_retries p
loop job turns max_retries (suc left) attempt p =
    then_loop (iteration job attempt (turns attempt) p)
      (λ q. loop job turns max_retries left (suc attempt) q)

unfoldable pub run_retry_loop : RetryJob → (ℕ → Turn) → List Act
unfolding loop
run_retry_loop job turns =
    let max_retries : ℕ = or_default job.max_retries default_max_retries in
    loop job turns max_retries max_retries 0 (record {
      last_error = job.first_error;
      total_attempts = 1;
      total_queued_ms = job.initial_queued_ms;
    })

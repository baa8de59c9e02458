-- ===== src/Client.antt =====
-- src/core/client.ts: what becomes of one request, from `send` to the event that ends it. The answers
-- of the first attempt's surroundings are the record `FirstTurn`, those of the retries the turns of
-- RetryLoop; what the client tells them is a log. The ticket is that of Ticket. Durations, URLs of
-- events, the logger's lines and metrics are left out; neither a listener nor a sink throws, as `emit`
-- makes sure.
pub mod Tally
pub mod Attempt
pub mod Events
pub mod Settled
pub mod Outcome
pub mod Address
mod Examples
use vereda.Common.{
  ℕ, ◌+◌, ◌-◌, String, Bool, true, false, not, Option, none, some, List, [], ◌∷◌, ◌++◌, map, leb,
  ◌==◌, or_default, sum_by, if◌then◌else◌,
}
use vereda.Errors.{
  AppError, cancelled_error, circuit_open_error, configuration_error, deadline_exceeded_error,
  timeout_error,
}
use vereda.Policy.{RetryPolicyContext, RetryWhen, should_retry}
use vereda.Backoff.{Backoff}
use vereda.Ticket
use vereda.Ticket.{Ticket, is_settled}
use vereda.RetryLoop
use vereda.RetryLoop.Settles
use vereda.RetryLoop.{
  RetryJob, Turn, run_retry_loop, default_max_retries, no_timeout_configured, takes_permit,
  permit_success, permit_failure, permit_release, cleans_up, on_success, on_failure, on_cancelled,
  marks_done, marks_failed, sends, rethrows,
}

-- The options of the request, merged with the partition's and the client's.
pub record RequestJob : Type 0 where
  pub url : String
  pub display_url : String
  pub partition : String
  pub start_time : ℕ
  pub ctx : RetryPolicyContext
  pub max_retries : Option ℕ
  pub backoff : Option Backoff
  pub retry_when : RetryWhen
  pub attempt_ms : Option ℕ
  pub total_ms : Option ℕ  -- absent when it is not a finite number: `isBoundedMs`
  pub jittered : ℕ → ℕ

-- What comes of the first attempt. A queue that ends in `CancelledError` counts as cancelled.
pub data FirstOutcome : Type 0 where
  responded : (status : ℕ) → FirstOutcome
  was_cancelled : (was_sent ticket_cancelled : Bool) → FirstOutcome
  timed_out : FirstOutcome
  failed : AppError → FirstOutcome
  token_refused : AppError → FirstOutcome  -- the `RateLimitedError` of `takeToken`
  queue_refused : AppError → FirstOutcome  -- the `QueueFullError` of a slot or a permit

pub record FirstTurn : Type 0 where
  pub resolves : Bool  -- whether the URL does, to one with a host
  pub body_error : Option AppError  -- what each validation throws
  pub options_error : Option AppError
  pub key_error : Option AppError
  pub permit_given : Bool
  pub now : ℕ
  pub pause_ms : ℕ
  pub waits : List ℕ  -- for tokens and in queues, of each round of the do-while loop
  pub outcome : FirstOutcome

-- `does` is an act that the retry loop knows too. Its callbacks are the client's, and emit the event
-- of their name, which is what the acts `on_success`, `on_failure`, `on_cancelled`, `on_retry` and
-- `budget_exhausted` stand for here.
pub data Act : Type 0 where
  emits_request holds records_request marks_queued : Act
  does : RetryLoop.Act → Act

-- How the first attempt ends: it is over, it throws, or it leaves the ticket to the retry loop.
pub data First : Type 0 where
  finished : List Act → First
  rejects : List Act → AppError → First
  schedules : List Act → (first_error : AppError) → (queued_ms : ℕ) → First

abbrev pub saying : List Act → First → First
saying said (finished acts) = finished (said ++ acts)
saying said (rejects acts e) = rejects (said ++ acts) e
saying said (schedules acts e queued_ms) = schedules (said ++ acts) e queued_ms

-- Emit "failure", mark the ticket done, clean up.
abbrev pub fails_with : AppError → (queued_ms : ℕ) → List Act
fails_with e queued_ms =
    does (on_failure e 1 queued_ms) ∷ does (marks_failed e) ∷ does cleans_up ∷ []

abbrev pub cancels_with : (queued_ms : ℕ) → List Act
cancels_with queued_ms =
    does (on_cancelled 1 queued_ms) ∷ does (marks_failed cancelled_error) ∷ does cleans_up ∷ []

-- The case "cancelled": the deadline's abort unless the ticket itself was cancelled.
abbrev pub aborted : RequestJob → (ticket_cancelled : Bool) → (queued_ms : ℕ) → Option ℕ → List Act
aborted job ticket_cancelled queued_ms none = cancels_with queued_ms
aborted job ticket_cancelled queued_ms (some total) =
    if not ticket_cancelled
    then fails_with (deadline_exceeded_error job.display_url total) queued_ms
    else cancels_with queued_ms

-- The cases "error" and "timeout": `vetoed` is the retry gate's answer to attempt 0.
unfoldable pub attempt_failed : RequestJob → AppError → (queued_ms : ℕ) → First
attempt_failed job error queued_ms =
    if or_default job.max_retries default_max_retries == 0
    then finished (fails_with error queued_ms)
    else if not (should_retry error 0 job.ctx job.retry_when)
    then finished (fails_with error queued_ms)
    else schedules (marks_queued ∷ []) error queued_ms

abbrev pub sent_first : Bool → List Act
sent_first true = does (sends 1) ∷ []
sent_first false = []

-- The `switch` on the result, and the error that the queue throws.
unfoldable pub settle_first : RequestJob → (queued_ms : ℕ) → FirstOutcome → First
settle_first job queued_ms (responded status) = finished (
    does (sends 1)
    ∷ does permit_success
    ∷ does (on_success status 1 queued_ms)
    ∷ does marks_done
    ∷ does cleans_up
    ∷ [])
settle_first job queued_ms (was_cancelled was_sent c) =
    finished (sent_first was_sent ++ aborted job c queued_ms job.total_ms)
settle_first job queued_ms timed_out =
    let e = timeout_error job.display_url (or_default job.attempt_ms no_timeout_configured) in
    saying (does (sends 1) ∷ does (permit_failure e) ∷ []) (attempt_failed job e queued_ms)
settle_first job queued_ms (failed e) =
    saying (does (sends 1) ∷ does (permit_failure e) ∷ []) (attempt_failed job e queued_ms)
settle_first job queued_ms (token_refused e) = finished (fails_with e queued_ms)
settle_first job queued_ms (queue_refused e) = rejects [] e

-- `finally` releases the permit. It runs once the retry loop has started; its place in the log is
-- before the loop, and the permit is settled by then.
abbrev pub releasing : First → First
releasing (finished acts) = finished (acts ++ (does permit_release ∷ []))
releasing (rejects acts e) = rejects (acts ++ (does permit_release ∷ [])) e
releasing (schedules acts e queued_ms) = schedules (acts ++ (does permit_release ∷ [])) e queued_ms

-- A pause that lasts to the deadline; the time that is left is at least 0, as a pause is.
abbrev pub paused_past : RequestJob → FirstTurn → Option ℕ → Option ℕ
paused_past job t none = none
paused_past job t (some total) =
    if leb (total - (t.now - job.start_time)) t.pause_ms then some total else none

-- With the breaker's permit.
unfoldable pub permitted : RequestJob → FirstTurn → Option ℕ → First
permitted job t (some total) = finished (
    does takes_permit
    ∷ does permit_release
    ∷ fails_with (deadline_exceeded_error job.display_url total) 0)
permitted job t none =
    saying (does takes_permit ∷ records_request ∷ [])
      (releasing (settle_first job (sum_by (λ ms. ms) t.waits) t.outcome))

-- The first error of those that keep a request from being admitted.
abbrev pub or_else : {A : Type 0} → Option A → Option A → Option A
or_else (some a) other = some a
or_else none other = other

abbrev pub early_error : RequestJob → FirstTurn → Option AppError
early_error job t =
    or_else (if t.resolves then none else some (configuration_error job.url))
      (or_else t.body_error (or_else t.options_error t.key_error))

unfoldable pub by_validity : RequestJob → FirstTurn → Option AppError → First
by_validity job t (some e) = finished (fails_with e 0)
by_validity job t none = saying (emits_request ∷ holds ∷ []) (
    if not t.permit_given
    then finished (fails_with (circuit_open_error job.partition) 0)
    else permitted job t (paused_past job t job.total_ms))

unfoldable pub fire_first_attempt : RequestJob → (settled_first : Bool) → FirstTurn → First
fire_first_attempt job settled_first t =
    if settled_first
    then finished (does (on_cancelled 1 0) ∷ does cleans_up ∷ [])
    else by_validity job t (early_error job t)

-- The retry loop's job.
abbrev pub retry_job : RequestJob → (first_error : AppError) → (queued_ms : ℕ) → RetryJob
retry_job job first_error queued_ms = record {
  display_url = job.display_url;
  partition = job.partition;
  ctx = job.ctx;
  max_retries = job.max_retries;
  backoff = job.backoff;
  retry_when = job.retry_when;
  attempt_ms = job.attempt_ms;
  total_ms = job.total_ms;
  deadline_at = elim job.total_ms [ none ↦ none | some total ↦ some (job.start_time + total) ];
  first_error = first_error;
  initial_queued_ms = queued_ms;
  jittered = job.jittered;
}

-- Both `catch` handlers: a ticket that is settled is not failed again.
abbrev pub catches : AppError → (queued_ms : ℕ) → (settled : Bool) → List Act
catches e queued_ms settled = if settled then does cleans_up ∷ [] else fails_with e queued_ms

-- The error that leaves the loop.
abbrev pub thrown : List RetryLoop.Act → Option AppError
thrown [] = none
thrown (rethrows e ∷ acts) = some e
thrown (_ ∷ acts) = thrown acts

abbrev pub catches_thrown : Option AppError → (queued_ms : ℕ) → (settled : Bool) → List Act
catches_thrown none queued_ms settled = []
catches_thrown (some e) queued_ms settled = catches e queued_ms settled

module _ {A : Type 0} (data_of : A) where
  -- What an act tells the ticket; a success carries `data_of`.
  abbrev pub op_of : Act → List (Ticket.Op A)
  op_of marks_queued = Ticket.marks_queued ∷ []
  op_of (does act) = Settles.op_of data_of act
  op_of _ = []

  abbrev pub ops_of : List Act → List (Ticket.Op A)
  ops_of [] = []
  ops_of (act ∷ acts) = op_of act ++ ops_of acts

  -- The retry loop, which finds the ticket as `t`, and the handler of what it throws.
  unfoldable pub schedule_in_bulkhead :
      RequestJob → (ℕ → Turn) → AppError → (queued_ms : ℕ) → Ticket A → List Act
  schedule_in_bulkhead job turns e queued_ms t =
      let acts = run_retry_loop (retry_job job e queued_ms) turns in
      map does acts
      ++ catches_thrown (thrown acts) queued_ms (is_settled (Ticket.run t (ops_of (map does acts))))

  -- What follows the first attempt, whose handler finds the ticket as `t`.
  unfoldable pub after_first : RequestJob → (ℕ → Turn) → Ticket A → First → List Act
  after_first job turns t (finished acts) = acts
  after_first job turns t (rejects acts e) = acts ++ catches e 0 (is_settled t)
  after_first job turns t (schedules acts e queued_ms) =
      acts ++ schedule_in_bulkhead job turns e queued_ms (Ticket.run t (ops_of acts))

  -- The log of a request. `t` is the ticket when the first attempt starts, `meanwhile` what others do
  -- to it (a cancellation, the deadline's abort) before the first attempt is over.
  unfoldable pub send :
      RequestJob
      → FirstTurn
      → (ℕ → Turn)
      → (t : Ticket A) → (meanwhile : List (Ticket.Op A)) → List Act
  send job first turns t meanwhile =
      after_first job turns (Ticket.run t meanwhile) (fire_first_attempt job (is_settled t) first)

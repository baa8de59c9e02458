-- ===== src/Executor.antt =====
-- src/queue/executor.ts: one attempt, from the fetch to its classification. What the signals say where
-- the code looks at them, and what the fetch, the reading of the body and the caller's `parse` come to,
-- are the record `Attempt`; a middleware is a function of its context and of what follows it.
pub mod Verdict
pub mod Abandon
pub mod Bytes
mod Examples
use vereda.Common.{
  ℕ, ◌+◌, ◌-◌, String, Bool, true, false, not, ◌&&◌, ◌||◌, Option, none, some, List, [], ◌∷◌, max,
  min, leb, includes, or_default, if◌then◌else◌,
}
use vereda.Common.Text.{Text}
use vereda.Errors.{
  AppError, configuration_error, deadline_exceeded_error, http_error, network_error,
  retryable_status_error, timeout_error, validation_error,
}
use vereda.RetryLoop.{no_timeout_configured}
use vereda.RetryAfter.{Clock, parse_retry_after}

abbrev pub default_retry_on_status : List ℕ
default_retry_on_status = 408 ∷ 425 ∷ 429 ∷ 500 ∷ 502 ∷ 503 ∷ 504 ∷ []

-- `composeMiddleware`: the first middleware of the list is the outermost.
abbrev pub compose_middleware : {C R : Type 0} → List (C → (C → R) → R) → (core : C → R) → C → R
compose_middleware [] core = core
compose_middleware (middleware ∷ rest) core = λ ctx. middleware ctx (compose_middleware rest core)

pub data ResponseType : Type 0 where
  json text array_buffer blob no_body : ResponseType

pub record Response : Type 0 where
  pub status : ℕ
  pub retry_after : Text  -- empty when there is no such header

-- `response.ok`.
abbrev pub is_ok : Response → Bool
is_ok r = leb 200 r.status && leb r.status 299

pub record ExecuteRequest : Type 0 where
  pub display_url : String
  pub retry_on_status : Option (List ℕ)
  pub response_type : Option ResponseType
  pub has_parse : Bool
  pub attempt_ms : Option ℕ  -- absent when it is not a finite number: `isBoundedMs`
  pub total_ms : Option ℕ
  pub deadline_at : Option ℕ

-- What the code sees when it looks: the ticket's or the caller's signal, and the attempt's timer.
pub record Signals : Type 0 where
  pub cancelled : Bool
  pub timed_out : Bool

pub data BodyRead : Type 0 where
  read_ok not_json stream_died : BodyRead

pub record Attempt : Type 0 where
  pub cancelled_first : Bool
  pub factory_throws : Bool
  pub fetched : Option Response  -- none when the fetch or a middleware throws, or an abort ends it
  pub after_fetch : Signals
  pub body_read : BodyRead
  pub after_read : Signals  -- looked at when the read failed
  pub parses : Bool
  pub after_parse : Signals  -- looked at when `parse` failed

pub data ExecuteResult : Type 0 where
  success_result timeout_result cancelled_result : ExecuteResult
  error_result : AppError → ExecuteResult

-- What has become of the response's body.
pub data Body : Type 0 where
  none_arrived body_cancelled body_read body_handed_off : Body

pub record Executed : Type 0 where
  pub result : ExecuteResult
  pub body : Body

-- `options.responseType ?? (options.parse ? "json" : undefined)`.
abbrev pub reads_as : ExecuteRequest → Option ResponseType
reads_as req = elim req.response_type [
  | some t ↦ some t
  | none ↦ if req.has_parse then some json else none
]

abbrev pub read_failure : Signals → AppError → ExecuteResult
read_failure signals e =
    if signals.timed_out
    then timeout_result
    else if signals.cancelled
    then cancelled_result
    else error_result e

abbrev pub is_read : ResponseType → Body
is_read no_body = body_cancelled
is_read _ = body_read

abbrev pub parse_body : ExecuteRequest → Attempt → ExecuteResult
parse_body req a =
    if not req.has_parse
    then success_result
    else if a.parses
    then success_result
    else read_failure a.after_parse validation_error

abbrev pub read_body : ExecuteRequest → Attempt → BodyRead → ExecuteResult
read_body req a read_ok = parse_body req a
read_body req a not_json = read_failure a.after_read validation_error
read_body req a stream_died = read_failure a.after_read network_error

abbrev pub deliver : ExecuteRequest → Attempt → Option ResponseType → Executed
deliver req a none = record { result = success_result; body = body_handed_off }
deliver req a (some t) = record { result = read_body req a a.body_read; body = is_read t }

-- The statuses, once no signal is aborted.
unfoldable pub classify : Clock → ExecuteRequest → Attempt → Response → Executed
classify clock req a r =
    if includes r.status (or_default req.retry_on_status default_retry_on_status)
    then record {
      result =
          error_result (retryable_status_error r.status (parse_retry_after clock r.retry_after));
      body = body_cancelled;
    }
    else if not (is_ok r)
    then record { result = error_result (http_error r.status); body = body_handed_off }
    else deliver req a (reads_as req)

-- A response, or what was thrown: a cancellation wins over a timeout.
unfoldable pub settle_fetch : Clock → ExecuteRequest → Attempt → Option Response → Executed
settle_fetch clock req a (some r) =
    if a.after_fetch.cancelled
    then record { result = cancelled_result; body = body_cancelled }
    else if a.after_fetch.timed_out
    then record { result = timeout_result; body = body_cancelled }
    else classify clock req a r
settle_fetch clock req a none =
    if a.after_fetch.cancelled
    then record { result = cancelled_result; body = none_arrived }
    else if a.after_fetch.timed_out
    then record { result = timeout_result; body = none_arrived }
    else record { result = error_result network_error; body = none_arrived }

unfoldable pub execute_request : Clock → ExecuteRequest → Attempt → Executed
execute_request clock req a =
    if a.cancelled_first
    then record { result = cancelled_result; body = none_arrived }
    else if a.factory_throws
    then record {
      result = error_result (configuration_error "body factory threw");
      body = none_arrived;
    }
    else settle_fetch clock req a a.fetched

-- The sooner of two times, of which one that is missing is infinitely late.
abbrev pub sooner : Option ℕ → Option ℕ → Option ℕ
sooner none b = b
sooner (some a) none = some a
sooner (some a) (some b) = some (min a b)

abbrev pub plus : ℕ → Option ℕ → Option ℕ
plus start none = none
plus start (some ms) = some (start + ms)

-- `attemptTimeoutMs !== undefined && attemptDeadline <= totalDeadline`.
abbrev pub attempt_first : (attempt_deadline total_deadline : Option ℕ) → Bool
attempt_first none total = false
attempt_first (some a) none = true
attempt_first (some a) (some total) = leb a total

abbrev pub bound_reason : ExecuteRequest → (attempt_is_first : Bool) → AppError
bound_reason req true =
    timeout_error req.display_url (or_default req.attempt_ms no_timeout_configured)
bound_reason req false = elim req.total_ms [
  | some total ↦ deadline_exceeded_error req.display_url total
  | none ↦ timeout_error req.display_url (or_default req.attempt_ms no_timeout_configured)
]

-- The timer for the body of a response that was handed off: its delay, and what it aborts with.
unfoldable pub bound_read : ExecuteRequest → (attempt_start now : ℕ) → Option (ℕ × AppError)
bound_read req attempt_start now =
    let attempt_deadline = plus attempt_start req.attempt_ms in
    elim (sooner attempt_deadline req.deadline_at) [
      | none ↦ none
      | some bound_at ↦
          some (bound_at - now, bound_reason req (attempt_first attempt_deadline req.deadline_at))
    ]

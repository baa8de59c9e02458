-- ===== src/Errors.antt =====
-- src/core/errors.ts: the errors that a ticket resolves with. Of each class the fields that the code
-- reads are kept; messages and the Response objects are not.
use vereda.Common.{ℕ, String, Option}

-- The `kind` that tells the classes apart.
pub data Kind : Type 0 where
  network http retryable_status timeout deadline validation cancelled queue_full configuration
        max_retries circuit_open rate_limited :
      Kind

-- `QueueFullError.scope`.
pub data Scope : Type 0 where
  partition global : Scope

-- One constructor for each class; `DeadlineExceededError` has two, without and with a `cause`.
pub data AppError : Type 0 where
  network_error : AppError
  http_error : (status_code : ℕ) → AppError
  retryable_status_error : (status_code : ℕ) → (retry_after_ms : Option ℕ) → AppError
  timeout_error : (url : String) → (timeout_ms : ℕ) → AppError
  deadline_exceeded_error : (url : String) → (total_ms : ℕ) → AppError
  deadline_exceeded_after : (url : String) → (total_ms : ℕ) → (cause : AppError) → AppError
  validation_error : AppError
  cancelled_error : AppError
  queue_full_error :
      (name : String) → (queue_size : ℕ) → (max_queue_size : ℕ) → (scope : Scope) → AppError
  configuration_error : (key : String) → AppError
  max_retries_exceeded_error : (attempts : ℕ) → (last_error : AppError) → AppError
  circuit_open_error : (name : String) → AppError
  -- A `max_wait_ms` that is absent is `Infinity`.
  rate_limited_error :
      (name : String)
      → (wait_ms : ℕ) → (max_wait_ms : Option ℕ) → (paused_until : Option ℕ) → AppError

-- The field `kind`, which each constructor fixes.
abbrev pub kind : AppError → Kind
kind network_error = network
kind (http_error s) = http
kind (retryable_status_error s r) = retryable_status
kind (timeout_error u t) = timeout
kind (deadline_exceeded_error u t) = deadline
kind (deadline_exceeded_after u t c) = deadline
kind validation_error = validation
kind cancelled_error = cancelled
kind (queue_full_error p q m s) = queue_full
kind (configuration_error k) = configuration
kind (max_retries_exceeded_error n e) = max_retries
kind (circuit_open_error p) = circuit_open
kind (rate_limited_error p w m u) = rate_limited

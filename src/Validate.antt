-- ===== src/Validate.antt =====
-- src/core/validate.ts: which configurations and options the client accepts, and what it says of the
-- first mistake in those that it does not. An object is a record of its fields, a field that may be
-- missing an Option, a number one of JavaScript's; of a value that breaks its declared type only what
-- the code tests for is kept.
pub mod Sections
pub mod Accepted
pub mod Config
pub mod Trials
mod Examples
use vereda.Common.{
  ℕ, String, Bool, true, false, not, ◌&&◌, ◌||◌, Option, none, some, List, [], ◌∷◌, ◌++◌,
  if◌then◌else◌,
}
use vereda.Common.Text.{Text, codes, has_text, to_upper_case}
use vereda.Common.Number.{Number, num, is_finite, is_integer, less, less_eq}
use vereda.Timer.{max_timer_ms}

-- What a message says of the value.
pub data Rule : Type 0 where
  positive_integer non_negative_integer positive non_negative fits_timer not_over_max_delay : Rule
  positive_finite non_negative_finite finite_from_one percentage error_statuses statuses : Rule
  object_or_false boolean_or_function callable absolute_url required allowed_value : Rule
  forbidden_method stream_factory : Rule

-- A `ConfigurationError`: the path that its message names, and what it says.
pub record Violation : Type 0 where
  pub path : List String
  pub rule : Rule

-- `if (!ok) throw …`.
abbrev pub check : Bool → List String → Rule → Option Violation
check true path rule = none
check false path rule = some (record { path = path; rule = rule })

-- Checks one after another.
abbrev pub then_check : Option Violation → Option Violation → Option Violation
then_check none next = next
then_check (some v) next = some v

abbrev pub check_all : List (Option Violation) → Option Violation
check_all [] = none
check_all (c ∷ cs) = then_check c (check_all cs)

-- A check of a field that is set.
abbrev pub when_set : {A : Type 0} → Option A → (A → Option Violation) → Option Violation
when_set none c = none
when_set (some a) c = c a

-- `X | false`, and any other value that is passed in its place.
pub data Setting (A : Type 0) : Type 0 where
  turned_off not_an_object : Setting A
  object : A → Setting A

abbrev pub when_object :
    {A : Type 0} → Option (Setting A) → List String → (A → Option Violation) → Option Violation
when_object none path c = none
when_object (some turned_off) path c = none
when_object (some not_an_object) path c = check false path object_or_false
when_object (some (object a)) path c = c a

abbrev pub is_positive_integer : Number → Bool
is_positive_integer x = is_integer x && less_eq (num 1) x

abbrev pub is_non_negative_integer : Number → Bool
is_non_negative_integer x = is_integer x && less_eq (num 0) x

abbrev pub is_positive_finite : Number → Bool
is_positive_finite x = is_finite x && less (num 0) x

abbrev pub is_non_negative_finite : Number → Bool
is_non_negative_finite x = is_finite x && less_eq (num 0) x

pub record CloseOptions : Type 0 where
  pub drain : Bool  -- false as well when it is missing
  pub timeout_ms : Option Number  -- absent as well when it is no number

abbrev pub drains : Option CloseOptions → Bool
drains none = false
drains (some opts) = opts.drain

abbrev pub validate_drain_ms : Option Number → Option Violation
validate_drain_ms none = check false ("timeoutMs" ∷ []) positive_finite
validate_drain_ms (some ms) = check_all (
    check (is_positive_finite ms) ("timeoutMs" ∷ []) positive_finite
    ∷ check (less_eq ms (num max_timer_ms)) ("timeoutMs" ∷ []) fits_timer
    ∷ [])

unfoldable pub validate_close_options : Option CloseOptions → Option Violation
validate_close_options none = none
validate_close_options (some opts) =
    if not opts.drain then none else validate_drain_ms opts.timeout_ms

pub record TimeoutConfig : Type 0 where
  pub attempt_ms : Option Number
  pub total_ms : Option Number

abbrev pub validate_timer_ms : List String → Number → Option Violation
validate_timer_ms path ms = check_all (
    check (less (num 0) ms) path positive
    ∷ check (not (is_finite ms && less (num max_timer_ms) ms)) path fits_timer
    ∷ [])

unfoldable pub validate_timeout_config : TimeoutConfig → List String → Option Violation
validate_timeout_config timeout prefix = check_all (
    when_set timeout.attempt_ms (λ ms. validate_timer_ms (prefix ++ ("attemptMs" ∷ [])) ms)
    ∷ when_set timeout.total_ms (λ ms. validate_timer_ms (prefix ++ ("totalMs" ∷ [])) ms)
    ∷ [])

-- `boolean | (() => string)`, or another value.
pub data IdempotencyKey : Type 0 where
  key_flag : Bool → IdempotencyKey
  key_function other_value : IdempotencyKey

abbrev pub is_key : IdempotencyKey → Bool
is_key other_value = false
is_key _ = true

pub record BackoffOptions : Type 0 where
  pub base_delay_ms : Option Number
  pub max_delay_ms : Option Number

pub record RetryConfig : Type 0 where
  pub max_retries : Option Number
  pub idempotency_key : Option IdempotencyKey
  pub retry_on_status : Option (List Number)
  pub backoff : Option BackoffOptions  -- absent as well when it is a function

abbrev pub is_error_status : Number → Bool
is_error_status s = not (not (is_integer s) || less s (num 400) || less (num 599) s)

abbrev pub is_status : Number → Bool
is_status s = is_integer s && less_eq (num 100) s && less_eq s (num 599)

abbrev pub every : (Number → Bool) → List Number → Bool
every p [] = true
every p (x ∷ xs) = if p x then every p xs else false

abbrev pub both_set : Option Number → Option Number → (Number → Number → Bool) → Bool
both_set (some x) (some y) test = test x y
both_set (some x) none test = true
both_set none y test = true

unfoldable pub validate_backoff : BackoffOptions → List String → Option Violation
validate_backoff backoff prefix = check_all (
    when_set backoff.base_delay_ms
      (λ ms. check (less_eq (num 0) ms) (prefix ++ ("baseDelayMs" ∷ [])) non_negative)
    ∷ when_set backoff.max_delay_ms
        (λ ms. check (less_eq (num 0) ms) (prefix ++ ("maxDelayMs" ∷ [])) non_negative)
    ∷ check
        (both_set backoff.base_delay_ms backoff.max_delay_ms (λ base most. not (less most base)))
        (prefix ++ ("baseDelayMs" ∷ [])) not_over_max_delay
    ∷ [])

unfoldable pub validate_retry_config : RetryConfig → List String → Option Violation
validate_retry_config retry prefix = check_all (
    when_set retry.max_retries
      (λ n. check (is_non_negative_integer n) (prefix ++ ("maxRetries" ∷ [])) non_negative_integer)
    ∷ when_set retry.idempotency_key
        (λ k. check (is_key k) (prefix ++ ("idempotencyKey" ∷ [])) boolean_or_function)
    ∷ when_set retry.retry_on_status
        (λ ss. check (every is_error_status ss) (prefix ++ ("retryOnStatus" ∷ [])) error_statuses)
    ∷ when_set retry.backoff (λ b. validate_backoff b (prefix ++ ("backoff" ∷ [])))
    ∷ [])

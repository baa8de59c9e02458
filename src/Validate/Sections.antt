-- ===== src/Validate/Sections.antt =====
-- src/core/validate.ts: the sections of a client's configuration, and a configuration as a whole.
use vereda.Common.{String, Bool, true, false, not, ◌&&◌, Option, none, some, List, [], ◌∷◌, ◌++◌}
use vereda.Common.Text.{Text, codes, has_text, to_upper_case}
use vereda.Common.Number.{Number, num, is_finite, less, less_eq}
use vereda.Validate.{
  positive_integer, non_negative_integer, non_negative, positive_finite, non_negative_finite,
  finite_from_one, percentage, statuses, callable, absolute_url, required, allowed_value,
  forbidden_method, stream_factory, Violation, check, then_check, check_all, when_set, Setting,
  when_object, is_positive_integer, is_non_negative_integer, is_positive_finite,
  is_non_negative_finite, TimeoutConfig, validate_timeout_config, RetryConfig,
  validate_retry_config, is_status, every,
}

pub record PauseConfig : Type 0 where
  pub statuses : Option (Option (List Number))  -- absent inside when it is no array
  pub max_pause_ms : Option Number

abbrev pub are_statuses : Option (List Number) → Bool
are_statuses none = false
are_statuses (some ss) = every is_status ss

unfoldable pub validate_pause : Option (Setting PauseConfig) → List String → Option Violation
validate_pause pause prefix = when_object pause prefix (λ p. check_all (
    when_set p.statuses (λ ss. check (are_statuses ss) (prefix ++ ("statuses" ∷ [])) statuses)
    ∷ when_set p.max_pause_ms
        (λ ms. check (is_positive_finite ms) (prefix ++ ("maxPauseMs" ∷ [])) positive_finite)
    ∷ []))

pub record RateLimitConfig : Type 0 where
  pub tokens_per_sec : Number
  pub burst : Option Number
  pub max_wait_ms : Option Number

unfoldable pub validate_rate_limit :
    Option (Setting RateLimitConfig) → List String → Option Violation
validate_rate_limit rate_limit prefix = when_object rate_limit prefix (λ r. check_all (
    check (is_positive_finite r.tokens_per_sec) (prefix ++ ("tokensPerSec" ∷ [])) positive_finite
    ∷ when_set r.burst
        (λ n. check (is_finite n && less_eq (num 1) n) (prefix ++ ("burst" ∷ [])) finite_from_one)
    ∷ when_set r.max_wait_ms
        (λ ms. check (less_eq (num 0) ms) (prefix ++ ("maxWaitMs" ∷ [])) non_negative)
    ∷ []))

pub record RetryBudgetConfig : Type 0 where
  pub ratio : Number
  pub window_ms : Number
  pub min_retries_per_sec : Option Number

unfoldable pub validate_retry_budget :
    Option (Setting RetryBudgetConfig) → List String → Option Violation
validate_retry_budget budget prefix = when_object budget prefix (λ b. check_all (
    check (is_non_negative_finite b.ratio) (prefix ++ ("ratio" ∷ [])) non_negative_finite
    ∷ check (is_positive_finite b.window_ms) (prefix ++ ("windowMs" ∷ [])) positive_finite
    ∷ when_set b.min_retries_per_sec (λ n.
      check (is_non_negative_finite n) (prefix ++ ("minRetriesPerSec" ∷ [])) non_negative_finite)
    ∷ []))

pub record WindowConfig : Type 0 where
  pub size_ms : Number
  pub failure_rate_percent : Number
  pub minimum_requests : Number

pub record CircuitBreakerConfig : Type 0 where
  pub failure_threshold : Option Number
  pub reset_timeout_ms : Option Number
  pub half_open_max_attempts : Option Number
  pub is_failure : Option Bool  -- whether it is a function
  pub window : Option WindowConfig

unfoldable pub validate_window : WindowConfig → List String → Option Violation
validate_window window prefix = check_all (
    check (is_positive_finite window.size_ms) (prefix ++ ("sizeMs" ∷ [])) positive_finite
    ∷ check
        (less (num 0) window.failure_rate_percent && less_eq window.failure_rate_percent (num 100))
        (prefix ++ ("failureRatePercent" ∷ [])) percentage
    ∷ check (is_positive_integer window.minimum_requests) (prefix ++ ("minimumRequests" ∷ []))
        positive_integer
    ∷ [])

unfoldable pub validate_circuit_breaker : CircuitBreakerConfig → List String → Option Violation
validate_circuit_breaker breaker prefix = check_all (
    when_set breaker.failure_threshold
      (λ n. check (is_positive_integer n) (prefix ++ ("failureThreshold" ∷ [])) positive_integer)
    ∷ when_set breaker.reset_timeout_ms
        (λ ms. check (is_positive_finite ms) (prefix ++ ("resetTimeoutMs" ∷ [])) positive_finite)
    ∷ when_set breaker.half_open_max_attempts (λ n.
      check (is_positive_integer n) (prefix ++ ("halfOpenMaxAttempts" ∷ [])) positive_integer)
    ∷ when_set breaker.is_failure (λ f. check f (prefix ++ ("isFailure" ∷ [])) callable)
    ∷ when_set breaker.window (λ w. validate_window w (prefix ++ ("window" ∷ [])))
    ∷ [])

pub record PartitionConfig : Type 0 where
  pub concurrency : Option Number
  pub max_queue_size : Option Number
  pub retry : Option RetryConfig
  pub timeout : Option TimeoutConfig
  pub circuit_breaker : Option CircuitBreakerConfig
  pub retry_budget : Option (Setting RetryBudgetConfig)
  pub rate_limit : Option (Setting RateLimitConfig)
  pub pause_on_retry_after : Option (Setting PauseConfig)

abbrev pub partition_checks : PartitionConfig → List String → List (Option Violation)
partition_checks config prefix =
    when_set config.concurrency
      (λ n. check (is_positive_integer n) (prefix ++ ("concurrency" ∷ [])) positive_integer)
    ∷ when_set config.max_queue_size
        (λ n. check (is_positive_integer n) (prefix ++ ("maxQueueSize" ∷ [])) positive_integer)
    ∷ when_set config.retry (λ r. validate_retry_config r (prefix ++ ("retry" ∷ [])))
    ∷ when_set config.timeout (λ t. validate_timeout_config t (prefix ++ ("timeout" ∷ [])))
    ∷ when_set config.circuit_breaker
        (λ b. validate_circuit_breaker b (prefix ++ ("circuitBreaker" ∷ [])))
    ∷ validate_retry_budget config.retry_budget (prefix ++ ("retryBudget" ∷ []))
    ∷ validate_rate_limit config.rate_limit (prefix ++ ("rateLimit" ∷ []))
    ∷ validate_pause config.pause_on_retry_after (prefix ++ ("pauseOnRetryAfter" ∷ []))
    ∷ []

unfoldable pub validate_partition_config : PartitionConfig → List String → Option Violation
validate_partition_config config prefix = check_all (partition_checks config prefix)

unfoldable pub validate_partitions : List (String × PartitionConfig) → Option Violation
validate_partitions [] = none
validate_partitions ((name, config) ∷ rest) =
    then_check (validate_partition_config config ("partitions" ∷ name ∷ []))
      (validate_partitions rest)

pub record ClientConfig : Type 0 where
  pub base_url : Option Bool  -- whether `URL.canParse` can parse it
  pub concurrency : Option Number
  pub max_queue_size : Option Number
  pub timeout : Option TimeoutConfig
  pub retry : Option RetryConfig
  pub circuit_breaker : Option CircuitBreakerConfig
  pub retry_budget : Option (Setting RetryBudgetConfig)
  pub rate_limit : Option (Setting RateLimitConfig)
  pub pause_on_retry_after : Option (Setting PauseConfig)
  pub partitions : List (String × PartitionConfig)  -- empty as well when they are missing
  pub default_partition : Option PartitionConfig
  pub redirect : Option Bool  -- whether it is one of `REDIRECT_MODES`

-- `timeout.attemptMs` may not be missing.
abbrev pub has_attempt_ms : Option TimeoutConfig → Bool
has_attempt_ms none = false
has_attempt_ms (some t) = elim t.attempt_ms [ none ↦ false | some ms ↦ true ]

abbrev pub config_checks : ClientConfig → List (Option Violation)
config_checks config =
    when_set config.base_url (λ ok. check ok ("baseUrl" ∷ []) absolute_url)
    ∷ when_set config.concurrency
        (λ n. check (is_positive_integer n) ("concurrency" ∷ []) positive_integer)
    ∷ when_set config.max_queue_size
        (λ n. check (is_non_negative_integer n) ("maxQueueSize" ∷ []) non_negative_integer)
    ∷ check (has_attempt_ms config.timeout) ("timeout" ∷ "attemptMs" ∷ []) required
    ∷ when_set config.timeout (λ t. validate_timeout_config t ("timeout" ∷ []))
    ∷ when_set config.retry (λ r. validate_retry_config r ("retry" ∷ []))
    ∷ when_set config.circuit_breaker (λ b. validate_circuit_breaker b ("circuitBreaker" ∷ []))
    ∷ validate_retry_budget config.retry_budget ("retryBudget" ∷ [])
    ∷ validate_rate_limit config.rate_limit ("rateLimit" ∷ [])
    ∷ validate_pause config.pause_on_retry_after ("pauseOnRetryAfter" ∷ [])
    ∷ validate_partitions config.partitions
    ∷ when_set config.default_partition (λ p. validate_partition_config p ("defaultPartition" ∷ []))
    ∷ when_set config.redirect (λ ok. check ok ("redirect" ∷ []) allowed_value)
    ∷ []

unfoldable pub validate_config : ClientConfig → Option Violation
validate_config config = check_all (config_checks config)

abbrev pub forbidden_methods : List Text
forbidden_methods = codes "TRACE" ∷ codes "CONNECT" ∷ codes "TRACK" ∷ []

abbrev pub response_types : List Text
response_types =
    codes "json" ∷ codes "text" ∷ codes "arrayBuffer" ∷ codes "blob" ∷ codes "none" ∷ []

pub record RequestOptions : Type 0 where
  pub method : Option Text
  pub response_type : Option Text
  pub timeout : Option TimeoutConfig
  pub retry : Option RetryConfig

unfoldable pub validate_request_options : RequestOptions → Option Violation
validate_request_options options = check_all (
    when_set options.method (λ m.
      check (not (has_text (to_upper_case m) forbidden_methods)) ("method" ∷ []) forbidden_method)
    ∷ when_set options.response_type
        (λ t. check (has_text t response_types) ("request" ∷ "responseType" ∷ []) allowed_value)
    ∷ when_set options.timeout (λ t. validate_timeout_config t ("request" ∷ "timeout" ∷ []))
    ∷ when_set options.retry (λ r. validate_retry_config r ("request" ∷ "retry" ∷ []))
    ∷ [])

-- Of a body, whether it has a `getReader`.
unfoldable pub validate_request_body : (is_readable_stream : Bool) → Option Violation
validate_request_body is_readable_stream =
    check (not is_readable_stream) ("body" ∷ []) stream_factory

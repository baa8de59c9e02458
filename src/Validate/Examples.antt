-- ===== src/Validate/Examples.antt =====
-- A configuration with a partition of its own, and one mistake.
use vereda.Common.{◌≡◌, refl, true, false, none, some, [], ◌∷◌}
use vereda.Common.Number.{Number, nan, infinite, fraction, num}
use vereda.Validate.{positive, validate_timeout_config}
use vereda.Validate.Sections.{
  CircuitBreakerConfig, PartitionConfig, ClientConfig, validate_window, validate_circuit_breaker,
  validate_retry_budget, validate_rate_limit, validate_pause, validate_partition_config,
  validate_partitions, validate_config, has_attempt_ms,
}
use vereda.Validate.Accepted.{ValidCircuitBreaker, Holds}
use vereda.Validate.Config.{ValidBreakers, ValidBreakerOf, validate_config-breakers}

abbrev breaker : CircuitBreakerConfig
breaker = record {
  failure_threshold = some (num 5);
  reset_timeout_ms = some (fraction false 61 1);
  half_open_max_attempts = some (num 2);
  is_failure = none;
  window =
      some
        (record { size_ms = num 10000; failure_rate_percent = num 50; minimum_requests = num 20 });
}

abbrev partition : PartitionConfig
partition = record {
  concurrency = some (num 4);
  max_queue_size = none;
  retry = none;
  timeout = none;
  circuit_breaker = some breaker;
  retry_budget = none;
  rate_limit = none;
  pause_on_retry_after = none;
}

abbrev config_with : Number → ClientConfig
config_with attempt_ms = record {
  base_url = some true;
  concurrency = none;
  max_queue_size = some (num 0);
  timeout = some (record { attempt_ms = some attempt_ms; total_ms = some (infinite false) });
  retry = none;
  circuit_breaker = none;
  retry_budget = none;
  rate_limit = none;
  pause_on_retry_after = none;
  partitions = ("api", partition) ∷ [];
  default_partition = none;
  redirect = none;
}

accepted : validate_config (config_with (num 1000)) ≡ none
unfolding validate_config validate_timeout_config validate_partitions validate_partition_config
    validate_circuit_breaker validate_window validate_retry_budget validate_rate_limit
    validate_pause
accepted = refl

-- NaN passes no comparison.
nan_refused :
    validate_config (config_with nan)
    ≡ some (record { path = "timeout" ∷ "attemptMs" ∷ []; rule = positive })
unfolding validate_config validate_timeout_config validate_partitions validate_partition_config
    validate_circuit_breaker validate_window validate_retry_budget validate_rate_limit
    validate_pause
nan_refused = refl

validate_config-breakers_example :
    (has_attempt_ms
        (some (record { attempt_ms = some (num 1000); total_ms = some (infinite false) }))
      ≡ true)
    × Holds (config_with (num 1000)).circuit_breaker ValidCircuitBreaker
    × ValidBreakers (("api", partition) ∷ [])
    × Holds (config_with (num 1000)).default_partition ValidBreakerOf
validate_config-breakers_example = validate_config-breakers (config_with (num 1000)) accepted

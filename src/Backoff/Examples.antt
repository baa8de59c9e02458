-- ===== src/Backoff/Examples.antt =====
-- Delays with a cap of a second and half jitter.
use vereda.Common.{ℕ, ◌/◌, ◌≤◌, ◌≡◌, refl, false, some, arith}
use vereda.Errors.{retryable_status_error}
use vereda.Backoff.{
  BackoffOptions, options, exponential, build_backoff_fn, backoff_cap, resolve_retry_delay,
}
use vereda.Backoff.Bounds.{resolve_retry_delay-le, exponential_mono}

abbrev half : ℕ → ℕ
half capped = capped / 2

half_le : (c : ℕ) → half c ≤ c
half_le c = omega arith

abbrev capped_at_second : BackoffOptions
capped_at_second = record {
  base_delay_ms = some 300;
  max_delay_ms = some 1000;
  jitter = some false;
}

delays : (exponential half capped_at_second 1 ≡ 600) × (exponential half capped_at_second 2 ≡ 1000)
unfolding exponential
delays = (refl, refl)

resolve_retry_delay-le_example :
    resolve_retry_delay
      (retryable_status_error 503 (some 5000))
      (build_backoff_fn half (some (options capped_at_second)))
      1
      (backoff_cap (some (options capped_at_second)))
    ≤ backoff_cap (some (options capped_at_second))
resolve_retry_delay-le_example =
    resolve_retry_delay-le half half_le (retryable_status_error 503 (some 5000))
      (some (options capped_at_second)) 1 tt

exponential_mono_example : exponential half capped_at_second 1 ≤ exponential half capped_at_second 2
exponential_mono_example = exponential_mono half capped_at_second 1 refl

-- ===== src/Backoff.antt =====
-- src/core/backoff.ts, and `resolveRetryDelay` of src/queue/retry.ts: how long a retry waits.
-- `Math.random() * capped` is a parameter, a function `jittered` of `capped`; delays are whole ms.
pub mod Bounds
mod Examples
use vereda.Common.{ℕ, ◌*◌, ◌^◌, min, Bool, true, Option, none, some, not, or_default, if◌then◌else◌}
use vereda.Errors.{AppError, retryable_status_error}

pub record BackoffOptions : Type 0 where
  pub base_delay_ms : Option ℕ
  pub max_delay_ms : Option ℕ
  pub jitter : Option Bool

abbrev pub BackoffFn : Type 0
BackoffFn = (attempt : ℕ) → ℕ

-- What `RetryConfig.backoff` holds when it is set.
pub data Backoff : Type 0 where
  custom : BackoffFn → Backoff
  options : BackoffOptions → Backoff

abbrev pub default_base_delay_ms : ℕ
default_base_delay_ms = 200

abbrev pub default_max_delay_ms : ℕ
default_max_delay_ms = 30000

abbrev default_jitter : Bool
default_jitter = true

abbrev pub no_options : BackoffOptions
no_options = record { base_delay_ms = none; max_delay_ms = none; jitter = none }

module _ (jittered : (capped : ℕ) → ℕ) where
  unfoldable pub exponential : BackoffOptions → BackoffFn
  exponential config attempt =
      let exponential : ℕ = or_default config.base_delay_ms default_base_delay_ms * 2 ^ attempt in
      let capped : ℕ = min exponential (or_default config.max_delay_ms default_max_delay_ms) in
      if not (or_default config.jitter default_jitter) then capped else jittered capped

  unfoldable pub build_backoff_fn : Option Backoff → BackoffFn
  unfolding exponential
  build_backoff_fn none = exponential no_options
  build_backoff_fn (some (custom f)) = f
  build_backoff_fn (some (options config)) = exponential config

-- `backoffCap` of `runRetryLoop`.
unfoldable pub backoff_cap : Option Backoff → ℕ
backoff_cap none = default_max_delay_ms
backoff_cap (some (custom f)) = default_max_delay_ms
backoff_cap (some (options config)) = or_default config.max_delay_ms default_max_delay_ms

unfoldable pub resolve_retry_delay : AppError → BackoffFn → (attempt cap : ℕ) → ℕ
resolve_retry_delay (retryable_status_error s (some retry_after_ms)) backoff_fn attempt cap =
    min retry_after_ms cap
resolve_retry_delay _ backoff_fn attempt cap = backoff_fn attempt

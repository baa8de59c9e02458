-- ===== src/Backoff/Bounds.antt =====
-- Bounds on the delay of a retry.
use vereda.Common.{ℕ, suc, ◌*◌, ◌^◌, ◌≤◌, ◌≡◌, min, false, Option, none, some, or_default, arith}
use native.Mathlib.Nat.{pow-suc}
use vereda.Errors.{AppError, retryable_status_error}
use vereda.Backoff.{
  Backoff, BackoffOptions, BackoffFn, custom, options, exponential, build_backoff_fn, backoff_cap,
  resolve_retry_delay, default_max_delay_ms, default_base_delay_ms, no_options,
}

-- Not a function of the caller's own.
abbrev pub IsBuiltIn : Option Backoff → Type 0
IsBuiltIn none = Unit {0}
IsBuiltIn (some (custom f)) = ⊥
IsBuiltIn (some (options config)) = Unit {0}

-- The exponential, cut at the cap.
abbrev capped : BackoffOptions → ℕ → ℕ
capped config attempt =
    min (or_default config.base_delay_ms default_base_delay_ms * 2 ^ attempt)
      (or_default config.max_delay_ms default_max_delay_ms)

resolve-le :
    (e : AppError) (f : BackoffFn) (attempt cap : ℕ)
    → f attempt ≤ cap
    → resolve_retry_delay e f attempt cap ≤ cap
unfolding resolve_retry_delay
resolve-le (retryable_status_error s (some r)) f attempt cap h = omega arith
resolve-le _ f attempt cap h = h

module _ (jittered : ℕ → ℕ) (jittered_le : (c : ℕ) → jittered c ≤ c) where
  exponential-le :
      (config : BackoffOptions) (attempt : ℕ)
      → exponential jittered config attempt ≤ or_default config.max_delay_ms default_max_delay_ms
  unfolding exponential
  exponential-le config attempt = ground (arith, jittered_le (capped config attempt))

  -- With the built-in backoff every delay, of any attempt, after any error, with or without a
  -- `Retry-After`, is at most the cap: the configured `maxDelayMs`, or its default.
  pub resolve_retry_delay-le :
      (e : AppError) (b : Option Backoff) (attempt : ℕ)
      → IsBuiltIn b
      → resolve_retry_delay e (build_backoff_fn jittered b) attempt (backoff_cap b) ≤ backoff_cap b
  unfolding build_backoff_fn backoff_cap
  resolve_retry_delay-le e none attempt h =
      resolve-le e _ attempt _ (exponential-le no_options attempt)
  resolve_retry_delay-le e (some (custom f)) attempt h = absurd h
  resolve_retry_delay-le e (some (options config)) attempt h =
      resolve-le e _ attempt _ (exponential-le config attempt)

doubled : (b p : ℕ) → b * p ≤ b * (p * 2)
doubled b p = grind arith

-- Without jitter a later attempt never waits less than an earlier one, up to the cap.
pub exponential_mono :
    (jittered : ℕ → ℕ) (config : BackoffOptions) (attempt : ℕ)
    → config.jitter ≡ some false
    → exponential jittered config attempt ≤ exponential jittered config (suc attempt)
unfolding exponential
exponential_mono jittered config attempt h =
    let base : ℕ = or_default config.base_delay_ms default_base_delay_ms in
    ground (arith, h, pow-suc 2 attempt, doubled base (2 ^ attempt))

-- ===== src/Validate/Trials.antt =====
-- A circuit breaker with a configuration that has been accepted.
use vereda.Common.{
  ℕ, zero, suc, ◌*◌, ◌≤◌, ◌≡◌, sym, ap, ◌∙◌, false, Option, none, some, List, or_default, String,
  arith,
}
use vereda.Common.Number.{Number, fraction}
use vereda.Breaker
use vereda.Breaker.{max_attempts, half_open}
use vereda.Breaker.Permits.{Op, run, start, try_acquire}
use vereda.Breaker.Trials.{run-start-Inv}
use vereda.Breaker.HalfOpen.{AllSettled, half_open_admits}
use vereda.Validate.Sections.{CircuitBreakerConfig, validate_circuit_breaker}
use vereda.Validate.Accepted.{IsCount, validate_circuit_breaker_iff, Holds}

-- The number that a field is set to, as the breaker reads it.
abbrev pub Reads : Option Number → Option ℕ → Type 0
Reads none none = Unit {0}
Reads (some x) (some n) = (d : ℕ) × (x ≡ fraction false (n * suc d) d)
Reads (some x) none = ⊥
Reads none (some n) = ⊥

product_positive : (m k n d : ℕ) → 1 ≤ m → m * suc k ≡ n * suc d → 1 ≤ n
product_positive zero k n d h e = ground (arith, h)
product_positive (suc m) k zero d h e = omega (arith, e)
product_positive (suc m) k (suc n) d h e = omega arith

abbrev numerator : Number → ℕ
numerator (fraction s n d) = n
numerator _ = 0

count_read : (x : Option Number) (n : Option ℕ) → Holds x IsCount → Reads x n → 1 ≤ or_default n 1
count_read none none h r = omega arith
count_read none (some n) h r = absurd r
count_read (some x) none h r = absurd r
count_read (some x) (some n) (m, (k, (p, e))) (d, f) =
    product_positive m k n d p (ap (λ x. numerator x) (sym e ∙ f))

-- A circuit whose configuration has been accepted is never wedged half-open: with `halfOpenMaxAttempts`
-- read as it was given, after any history in which every permit it has given was settled, a half-open
-- circuit admits the next request as a trial.
pub accepted-half_open_admits :
    (options : CircuitBreakerConfig) (prefix : List String) (config : Breaker.CircuitBreakerConfig)
    (ops : List Op) (now : ℕ)
    → validate_circuit_breaker options prefix ≡ none
    → Reads options.half_open_max_attempts config.half_open_max_attempts
    → (run (start config) ops).breaker.state ≡ half_open
    → AllSettled (run (start config) ops).permits
    → (try_acquire (run (start config) ops).breaker now).1
      ≡ some (record {
        trial_generation = some (run (start config) ops).breaker.half_open_generation;
        settled = false;
      })
accepted-half_open_admits options prefix config ops now accepted reads h settled =
    let valid = (validate_circuit_breaker_iff options prefix).0 accepted in
    let trials : 1 ≤ or_default config.half_open_max_attempts 1 =
      count_read options.half_open_max_attempts config.half_open_max_attempts valid.1.1.0 reads in
    half_open_admits config ops now h settled (rw (run-start-Inv config ops).configured trials)

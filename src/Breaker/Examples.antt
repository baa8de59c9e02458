-- ===== src/Breaker/Examples.antt =====
-- Two failures open the circuit, for 100 ms; one trial at a time.
use vereda.Common.{ℕ, ◌≤◌, ◌≡◌, ◌↔◌, refl, Bool, true, false, none, some, List, [], ◌∷◌, arith}
use vereda.Errors.{network_error}
use vereda.Common.Double.{quotient, product, exceeds}
use vereda.Breaker.Window
use vereda.Breaker.Window.{record_all, total_requests, failure_count, spec_total, spec_failures}
use vereda.Breaker.WindowLaws.{record_all-counts}
use vereda.Breaker.{
  CircuitBreaker, CircuitBreakerConfig, WindowConfig, closed, open_, half_open, opened, new,
  record_classified_failure, count_failure, evaluate_trip_condition,
}
use vereda.Breaker.Permits.{
  failure, release, Op, acquires, settles, try_acquire, settle, start, run, acquire, settle_at,
}
use vereda.Breaker.Trials.{Inv, run-start-Inv}
use vereda.Common.Number.{num}
use vereda.Validate.Sections
use vereda.Validate.Trials.{accepted-half_open_admits}
use vereda.Breaker.Trip.{
  percentage, record_outcomes, record_outcomes_opens, record_classified_failure_opens,
}

abbrev config : CircuitBreakerConfig
config = record {
  enabled = some true;
  failure_threshold = some 2;
  window = none;
  reset_timeout_ms = some 100;
  half_open_max_attempts = none;
  is_failure = none;
}

-- Two failed requests at 10 and 11, then at 120 a trial whose permit is released.
abbrev ops : List Op
ops =
    acquires 0
    ∷ acquires 1
    ∷ settles 0 (failure network_error) 10
    ∷ settles 1 (failure network_error) 11
    ∷ acquires 50
    ∷ acquires 120
    ∷ settles 2 release 130
    ∷ []

abbrev recovering : CircuitBreaker
recovering = record {
  config = config;
  state = half_open;
  consecutive_failures = 2;
  opened_at = 11;
  half_open_in_flight = 0;
  active_tickets = 0;
  half_open_generation = 1;
  window = none;
  notices = opened ∷ [];
}

abbrev tripped : CircuitBreaker
tripped = record recovering { state = open_; half_open_generation = 0 }

run_lem : run (start config) ops ≡ record {
  breaker = recovering;
  permits =
      record { trial_generation = none; settled = true }
      ∷ record { trial_generation = none; settled = true }
      ∷ record { trial_generation = some 1; settled = true }
      ∷ [];
}
unfolding run start acquire settle_at settle record_classified_failure count_failure
    evaluate_trip_condition
run_lem = refl

run-start-Inv_example : Inv config (run (start config) ops)
run-start-Inv_example = run-start-Inv config ops

abbrev options : Sections.CircuitBreakerConfig
options = record {
  failure_threshold = some (num 2);
  reset_timeout_ms = some (num 100);
  half_open_max_attempts = none;
  is_failure = none;
  window = none;
}

options_accepted : Sections.validate_circuit_breaker options ("circuitBreaker" ∷ []) ≡ none
unfolding Sections.validate_circuit_breaker
options_accepted = refl

accepted-half_open_admits_example :
    (try_acquire (run (start config) ops).breaker 140).1
    ≡ some (record {
      trial_generation = some (run (start config) ops).breaker.half_open_generation;
      settled = false;
    })
accepted-half_open_admits_example =
    accepted-half_open_admits options ("circuitBreaker" ∷ []) config ops 140 options_accepted tt
      (rw run_lem refl) (rw run_lem (refl, (refl, (refl, tt))))

record_outcomes_opens_example :
    (record_outcomes (new config) ((0, true) ∷ (1, false) ∷ (2, true) ∷ (3, true) ∷ [])).state
    ≡ open_
record_outcomes_opens_example =
    record_outcomes_opens config ((0, true) ∷ (1, false) ∷ (2, true) ∷ (3, true) ∷ []) refl refl
      (omega arith)

-- In a window of 1 s, at least 2 outcomes, more than half of them failures.
abbrev window : WindowConfig
window = record { size_ms = 1000; failure_rate_percent = 50; minimum_requests = 2 }

abbrev outcomes : List (ℕ × Bool)
outcomes = (100, true) ∷ (900, false) ∷ []

record_all-counts_example :
    ((total_requests (record_all (Window.new 1000) outcomes) 1150).1 ≡ 1)
    × ((failure_count (record_all (Window.new 1000) outcomes) 1150).1 ≡ 0)
record_all-counts_example = record_all-counts 1000 1150 outcomes (omega arith)

abbrev watched : CircuitBreaker
watched = record recovering {
  config = record config { window = some window };
  state = closed;
  window = some (record_all (Window.new 1000) outcomes);
}

-- Two failures of three.
record_classified_failure_opens_example :
    ((record_classified_failure watched 1000).state ≡ open_)
    ↔ ((2 ≤ 3) × (exceeds (percentage 2 3) 50 ≡ true))
record_classified_failure_opens_example =
    record_classified_failure_opens watched window outcomes 1000 refl refl refl refl (omega arith)

-- 11 of 20 are 55 per cent; the product of doubles is above 55.
eleven_of_twenty : exceeds (percentage 11 20) 55 ≡ true
unfolding quotient product
eleven_of_twenty = refl

three_of_ten : exceeds (percentage 3 10) 30 ≡ false
unfolding quotient product
three_of_ten = refl

-- ===== src/Breaker/HalfOpen.antt =====
-- How an open circuit admits trials again, and what their outcomes do.
use vereda.Common.{
  ℕ, ◌+◌, ◌-◌, ◌≤◌, ◌<◌, ◌≡◌, ◌≢◌, refl, true, false, Option, none, some, List, [], ◌∷◌, arith,
}
use vereda.Errors.{AppError, kind}
use vereda.Breaker.{
  CircuitBreaker, CircuitBreakerConfig, closed, open_, half_open, opened, shut, is_enabled,
  max_attempts, reset_timeout, reset_counters, record_success, classifies,
  record_classified_failure,
}
use vereda.Breaker.Permits.{
  CircuitPermit, Settlement, success, failure, release, Op, never_sent_kind, try_acquire, settle,
  start, run,
}
use vereda.Breaker.Trials.{live_trials, run-start-Inv}

abbrev pub AllSettled : List CircuitPermit → Type 0
AllSettled [] = Unit {0}
AllSettled (p ∷ ps) = (p.settled ≡ true) × AllSettled ps

live_trials_settled : (g : ℕ) (ps : List CircuitPermit) → AllSettled ps → live_trials g ps ≡ 0
live_trials_settled g [] h = refl
live_trials_settled g (p ∷ ps) h = ground (arith, h.0, live_trials_settled g ps h.1)

-- A circuit is never wedged half-open: after any history, if every permit it has given was settled
-- and at least one trial is allowed, the next request is admitted as a trial.
pub half_open_admits :
    (config : CircuitBreakerConfig) (ops : List Op) (now : ℕ)
    → (run (start config) ops).breaker.state ≡ half_open
    → AllSettled (run (start config) ops).permits
    → 1 ≤ max_attempts (run (start config) ops).breaker
    → (try_acquire (run (start config) ops).breaker now).1
      ≡ some (record {
        trial_generation = some (run (start config) ops).breaker.half_open_generation;
        settled = false;
      })
unfolding try_acquire
half_open_admits config ops now h settled trials =
    let v = run-start-Inv config ops in
    ground (
      arith,
      v.exact h,
      v.enabled h,
      live_trials_settled (run (start config) ops).breaker.half_open_generation
          (run (start config) ops).permits settled,
    )

-- An open circuit admits nothing before its reset timeout, and is left as it is; from then on the
-- next request is a trial, the only one in flight of a new half-open generation.
try_acquire_open :
    (b : CircuitBreaker) (now : ℕ)
    → is_enabled b ≡ true
    → b.state ≡ open_
    → 1 ≤ max_attempts b
    → (now < b.opened_at + reset_timeout b → try_acquire b now ≡ (b, none))
      × (b.opened_at + reset_timeout b ≤ now
          → try_acquire b now ≡ (
            record b {
              state = half_open;
              half_open_in_flight = 1;
              half_open_generation = b.half_open_generation + 1;
            },
            some (record { trial_generation = some (b.half_open_generation + 1); settled = false }),
          ))
unfolding try_acquire
try_acquire_open b now e s m = (λ h. ground arith, λ h. ground arith)

-- While a circuit is half-open, no request but a trial of the current generation can move it: the
-- outcome of one admitted earlier, or its release, changes nothing.
settle_stale :
    (b : CircuitBreaker) (trial : Option ℕ) (s : Settlement) (now : ℕ)
    → b.state ≡ half_open
    → trial ≢ some b.half_open_generation
    → settle b trial s now ≡ b
unfolding settle
settle_stale b trial success now h stale = ground arith
settle_stale b trial (failure error) now h stale = ground arith
settle_stale b trial release now h stale = ground arith

-- What the outcome of a current trial decides. A success, and an error that neither counts as a
-- failure nor shows that nothing was sent, close the circuit with all counters cleared. A failure
-- opens it at that moment. An attempt never sent, and a release, free one trial slot and nothing else.
settle_current_trial :
    (b : CircuitBreaker) (error : AppError) (now : ℕ)
    → is_enabled b ≡ true
    → b.state ≡ half_open
    → let trial = some b.half_open_generation in
      let shut_again =
        reset_counters
          (record b { state = closed; half_open_in_flight = 0; notices = shut ∷ b.notices }) in
      let freed = record b { half_open_in_flight = b.half_open_in_flight - 1 } in
      (settle b trial success now ≡ shut_again)
      × (settle b trial release now ≡ freed)
      × (never_sent_kind (kind error) ≡ true → settle b trial (failure error) now ≡ freed)
      × (never_sent_kind (kind error) ≡ false
          → classifies b error ≡ false
          → settle b trial (failure error) now ≡ shut_again)
      × (never_sent_kind (kind error) ≡ false
          → classifies b error ≡ true
          → settle b trial (failure error) now
            ≡ record freed { state = open_; opened_at = now; notices = opened ∷ b.notices })
unfolding settle record_success record_classified_failure
settle_current_trial b error now e s =
    (ground arith, ground arith, λ h. ground arith, λ h k. ground arith, λ h k. ground arith)

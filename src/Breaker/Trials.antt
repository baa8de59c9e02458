-- ===== src/Breaker/Trials.antt =====
-- The trial slots of a half-open circuit, over every order of requests and outcomes.
use vereda.Common.{
  ℕ, ◌+◌, ◌-◌, ◌≤◌, ◌<◌, ◌≡◌, ◌≢◌, refl, ◌∙◌, inl, inr, true, false, Option, none, some, List, [],
  ◌∷◌, get_elem?, set, sum_by, sum_by-append, sum_by-set, Option-cases, Bool-cases, if◌then◌else◌,
  arith, ◌==◌,
}
use vereda.Breaker.{
  CircuitBreaker, CircuitBreakerConfig, half_open, count_failure, is_enabled, max_attempts,
  record_success, evaluate_trip_condition, record_classified_failure,
}
use vereda.Breaker.Permits.{
  CircuitPermit, Circuit, Settlement, success, failure, release, Op, acquires, settles, try_acquire,
  settle, start, acquire, settle_at, step, run, given,
}

abbrev pub of_trial : ℕ → Option ℕ → ℕ
of_trial generation none = 0
of_trial generation (some g) = if g == generation then 1 else 0

-- 1 for a permit that holds a trial slot of the generation.
abbrev pub is_live : ℕ → CircuitPermit → ℕ
is_live generation p = if p.settled then 0 else of_trial generation p.trial_generation

-- The trials of a generation that have not been settled.
abbrev pub live_trials : ℕ → List CircuitPermit → ℕ
live_trials generation = sum_by (is_live generation)

pub record Inv (config : CircuitBreakerConfig) (c : Circuit) : Type 0 where
  pub configured : c.breaker.config ≡ config
  pub enabled : c.breaker.state ≡ half_open → is_enabled c.breaker ≡ true
  pub exact :
      c.breaker.state ≡ half_open
      → c.breaker.half_open_in_flight ≡ live_trials c.breaker.half_open_generation c.permits
  pub bounded : c.breaker.state ≡ half_open → c.breaker.half_open_in_flight ≤ max_attempts c.breaker
  pub no_later : (g : ℕ) → c.breaker.half_open_generation < g → live_trials g c.permits ≡ 0

start-Inv : (config : CircuitBreakerConfig) → Inv config (start config)
unfolding start
start-Inv config = record {
  configured = refl;
  enabled = λ h. ground arith;
  exact = λ h. refl;
  bounded = λ h. ground arith;
  no_later = λ g h. refl;
}

live_trials-given :
    (g : ℕ) (c : Circuit) (now : ℕ)
    → live_trials g (acquire c now).permits
      ≡ live_trials g c.permits + live_trials g (given (try_acquire c.breaker now).1)
unfolding acquire
live_trials-given g c now = sum_by-append (is_live g) c.permits _

acquire-Inv :
    (config : CircuitBreakerConfig) (c : Circuit) (now : ℕ)
    → Inv config c
    → Inv config (acquire c now)
unfolding acquire
acquire-Inv config c now v =
    let at = λ (g : ℕ). sum_by-append (is_live g) c.permits (given (try_acquire c.breaker now).1) in
    record {
      configured = ground arith;
      enabled = λ h. ground arith;
      exact = λ h. ground (
        arith,
        at c.breaker.half_open_generation,
        at (c.breaker.half_open_generation + 1),
        v.no_later (c.breaker.half_open_generation + 1),
        v.exact,
      );
      bounded = λ h. ground arith;
      no_later = λ g h. ground (arith, at g, v.no_later g);
    }

-- Neither changes what kind of state the breaker is in.
evaluate_trip_condition-keeps :
    (b : CircuitBreaker) (now : ℕ)
    → let b' = (evaluate_trip_condition b now).0 in
      (b'.state ≡ b.state)
      × (b'.config ≡ b.config)
      × (b'.half_open_generation ≡ b.half_open_generation)
unfolding evaluate_trip_condition
evaluate_trip_condition-keeps b now = (ground arith, ground arith, ground arith)

-- Where trials can only be in flight in an enabled breaker, an outcome that is recorded leaves no
-- circuit half-open, and the configuration and the generation alone.
abbrev Decides : CircuitBreaker → CircuitBreaker → Type 0
Decides b b' =
    (b'.config ≡ b.config)
    × (b'.half_open_generation ≡ b.half_open_generation)
    × (b'.state ≢ half_open)

record_success-Decides :
    (b : CircuitBreaker) (now : ℕ)
    → (b.state ≡ half_open → is_enabled b ≡ true)
    → Decides b (record_success b now)
unfolding record_success
record_success-Decides b now e = (ground arith, ground arith, λ h. ground arith)

record_classified_failure-Decides :
    (b : CircuitBreaker) (now : ℕ)
    → (b.state ≡ half_open → is_enabled b ≡ true)
    → Decides b (record_classified_failure b now)
unfolding record_classified_failure count_failure
record_classified_failure-Decides b now e =
    let keeps = evaluate_trip_condition-keeps (count_failure b now) now in
    (ground (arith, keeps), ground (arith, keeps), λ h. ground (arith, keeps))

-- What a settlement does to the trial slots: it never makes a circuit half-open, and where it
-- leaves it so, exactly the slot of a current trial is given back.
settle-slots :
    (b : CircuitBreaker) (trial : Option ℕ) (s : Settlement) (now : ℕ)
    → (b.state ≡ half_open → is_enabled b ≡ true)
    → let b' = settle b trial s now in
      (b'.config ≡ b.config)
      × (b'.half_open_generation ≡ b.half_open_generation)
      × (b'.state ≡ half_open
          → (b.state ≡ half_open)
            × (b'.half_open_in_flight
                ≡ b.half_open_in_flight - of_trial b.half_open_generation trial))
unfolding settle
settle-slots b trial success now e =
    let d = record_success-Decides b now e in
    (ground (arith, d), ground (arith, d), λ h. ground (arith, d))
settle-slots b trial (failure error) now e =
    let d = record_success-Decides b now e in
    let d' = record_classified_failure-Decides b now e in
    (ground (arith, d, d'), ground (arith, d, d'), λ h. ground (arith, d, d'))
settle-slots b trial release now e = (ground arith, ground arith, λ h. ground arith)

-- The circuit once the permit `p` at place `i` has been settled.
abbrev settled_at : Circuit → ℕ → CircuitPermit → Settlement → ℕ → Circuit
settled_at c i p s now = record {
  breaker = settle c.breaker p.trial_generation s now;
  permits = set c.permits i (record p { settled = true });
}

settled_at-Inv :
    (config : CircuitBreakerConfig) (c : Circuit) (i : ℕ) (p : CircuitPermit) (s : Settlement)
    (now : ℕ)
    → get_elem? c.permits i ≡ some p
    → p.settled ≡ false
    → Inv config c
    → Inv config (settled_at c i p s now)
settled_at-Inv config c i p s now e open_permit v =
    let slots = settle-slots c.breaker p.trial_generation s now v.enabled in
    let at = λ (g : ℕ). sum_by-set (is_live g) c.permits i p (record p { settled = true }) e in
    record {
      configured = slots.0 ∙ v.configured;
      enabled = λ h. rw (slots.0) (v.enabled ((slots.2 h).0));
      exact = λ h. rw (slots.1) (
          ground (
            arith,
            slots.2 h,
            v.exact ((slots.2 h).0),
            at c.breaker.half_open_generation,
            open_permit,
          ));
      bounded = λ h. rw (slots.0) (omega (arith, slots.2 h, v.bounded ((slots.2 h).0)));
      no_later = λ g h. ground (arith, at g, v.no_later g, slots.1, open_permit);
    }

settle_at-Inv :
    (config : CircuitBreakerConfig) (c : Circuit) (i : ℕ) (s : Settlement) (now : ℕ)
    → Inv config c
    → Inv config (settle_at c i s now)
unfolding settle_at
settle_at-Inv config c i s now v = elim (Option-cases (get_elem? c.permits i)) [
  | inl e ↦ rw (e, settle_at) v
  | inr (p, e) ↦ elim (Bool-cases p.settled) [
    | inl done ↦ rw (e, settle_at, done) v
    | inr fresh ↦ rw (e, settle_at, fresh) (settled_at-Inv config c i p s now e fresh v)
  ]
]

step-Inv :
    (config : CircuitBreakerConfig) (c : Circuit) (op : Op) → Inv config c → Inv config (step c op)
unfolding step
step-Inv config c (acquires now) v = acquire-Inv config c now v
step-Inv config c (settles i s now) v = settle_at-Inv config c i s now v

run-Inv :
    (config : CircuitBreakerConfig) (c : Circuit) (ops : List Op)
    → Inv config c
    → Inv config (run c ops)
unfolding run
run-Inv config c [] v = v
run-Inv config c (op ∷ ops) v = run-Inv config (step c op) ops (step-Inv config c op v)

-- After any requests and any settlements of their permits, in any order and at any times: while
-- the circuit is half-open, its count of trials in flight is exactly the number of permits of
-- the current generation that are not settled, and no more than `halfOpenMaxAttempts`; no permit
-- is of a generation that is still to come.
pub run-start-Inv :
    (config : CircuitBreakerConfig) (ops : List Op) → Inv config (run (start config) ops)
run-start-Inv config ops = run-Inv config (start config) ops (start-Inv config)

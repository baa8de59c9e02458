-- ===== src/Breaker/Trip.antt =====
-- When a closed circuit opens, in its two modes.
use vereda.Common.{
  ℕ, zero, suc, ◌+◌, ◌≤◌, ◌<◌, ◌≡◌, refl, ◌∙◌, ◌↔◌, inl, inr, Bool-cases, max, Bool, true, false,
  ◌&&◌, none, some, List, [], ◌∷◌, ◌++◌, leb, or_default, if◌then◌else◌, arith,
}
use vereda.Common.Double.{Double, whole, quotient, product, exceeds}
use vereda.Breaker.Window
use vereda.Breaker.Window.{RollingWindow, record_all, outcome, spec_total, spec_failures, AllBy}
use vereda.Breaker.WindowLaws.{width, record_all-counts, rate_after_total}
use vereda.Breaker.{
  CircuitBreaker, CircuitBreakerConfig, WindowConfig, new, closed, open_, is_enabled,
  default_failure_threshold, record_success, record_classified_failure, count_failure,
  evaluate_trip_condition, trip_by_window,
}

-- The outcomes of requests admitted while closed: a time, and whether it failed.
unfoldable pub record_outcomes : CircuitBreaker → List (ℕ × Bool) → CircuitBreaker
record_outcomes b [] = b
record_outcomes b ((now, failed) ∷ more) =
    record_outcomes (if failed then record_classified_failure b now else record_success b now) more

-- The longest run of failures, where `n` failures came just before.
abbrev pub longest_run : (n : ℕ) → List (ℕ × Bool) → ℕ
longest_run n [] = n
longest_run n ((now, true) ∷ more) = longest_run (n + 1) more
longest_run n ((now, false) ∷ more) = max n (longest_run 0 more)

longest_run-ge : (n : ℕ) (os : List (ℕ × Bool)) → n ≤ longest_run n os
longest_run-ge n [] = omega arith
longest_run-ge n ((now, true) ∷ more) = omega (arith, longest_run-ge (n + 1) more)
longest_run-ge n ((now, false) ∷ more) = omega arith

abbrev pub threshold : CircuitBreaker → ℕ
threshold b = or_default b.config.failure_threshold default_failure_threshold

-- A breaker that is on, counts consecutive failures and is closed.
abbrev pub Counting : CircuitBreaker → Type 0
Counting b = (is_enabled b ≡ true) × (b.window ≡ none) × (b.state ≡ closed)

stays_open :
    (b : CircuitBreaker) (os : List (ℕ × Bool))
    → b.state ≡ open_
    → (record_outcomes b os).state ≡ open_
unfolding record_outcomes record_success record_classified_failure
stays_open b [] h = h
stays_open b ((now, true) ∷ os) h = stays_open (record_classified_failure b now) os (ground arith)
stays_open b ((now, false) ∷ os) h = stays_open (record_success b now) os (ground arith)

one_failure :
    (b : CircuitBreaker) (now : ℕ)
    → Counting b
    → let b' = record_classified_failure b now in
      (b'.config ≡ b.config)
      × (b'.window ≡ none)
      × (b'.consecutive_failures ≡ b.consecutive_failures + 1)
      × (b'.state ≡ (if leb (threshold b) (b.consecutive_failures + 1) then open_ else closed))
unfolding record_classified_failure count_failure evaluate_trip_condition
one_failure b now c = (ground arith, ground arith, ground arith, ground arith)

one_success :
    (b : CircuitBreaker) (now : ℕ)
    → Counting b
    → let b' = record_success b now in
      (b'.config ≡ b.config)
      × (b'.window ≡ none)
      × (b'.consecutive_failures ≡ 0)
      × (b'.state ≡ closed)
unfolding record_success
one_success b now c = (ground arith, ground arith, ground arith, ground arith)

module _ (k : ℕ) where
  run_opens :
      (n : ℕ) (b : CircuitBreaker) (os : List (ℕ × Bool))
      → Counting b
      → threshold b ≡ k
      → b.consecutive_failures ≡ n
      → n < k
      → (record_outcomes b os).state ≡ (if leb k (longest_run n os) then open_ else closed)
  unfolding record_outcomes
  run_opens n b [] c t e h = ground arith
  run_opens n b ((now, true) ∷ os) c t e h =
      let f = one_failure b now c in
      let b' = record_classified_failure b now in
      elim (Bool-cases (leb k (n + 1))) [
        | inl trips ↦ ground (arith, f, stays_open b' os, longest_run-ge (n + 1) os)
        | inr not_yet ↦
            run_opens (n + 1) b' os (ground (arith, f)) (ground (arith, f)) (ground (arith, f))
              (ground arith)
      ]
  run_opens n b ((now, false) ∷ os) c t e h =
      let f = one_success b now c in
      run_opens 0 (record_success b now) os (ground (arith, f)) (ground (arith, f)) f.2
        (omega arith)
      ∙ ground arith

-- Without a window, a new breaker that is on, fed the outcomes of requests it admitted while closed,
-- is open exactly when some run of consecutive failures among them reached `failureThreshold`, and
-- closed otherwise.
pub record_outcomes_opens :
    (config : CircuitBreakerConfig) (os : List (ℕ × Bool))
    → or_default config.enabled false ≡ true
    → config.window ≡ none
    → 0 < or_default config.failure_threshold default_failure_threshold
    → (record_outcomes (new config) os).state ≡ (
        if leb (or_default config.failure_threshold default_failure_threshold) (longest_run 0 os)
        then open_
        else closed)
unfolding new
record_outcomes_opens config os e w t =
    run_opens _ 0 (new config) os (e, (ground arith), refl) refl refl t

record_all-snoc :
    (w : RollingWindow) (os : List (ℕ × Bool)) (now : ℕ)
    → record_all w (os ++ ((now, true) ∷ [])) ≡ Window.record_failure (record_all w os) now
unfolding record_all outcome
record_all-snoc w [] now = refl
record_all-snoc w (o ∷ os) now = record_all-snoc (outcome w o) os now

trip_by_window_lem :
    (b : CircuitBreaker) (w : RollingWindow) (config : WindowConfig) (now : ℕ)
    → ((trip_by_window b w config now).0.state ≡ b.state)
      × ((trip_by_window b w config now).1 ≡ (
          leb config.minimum_requests (Window.total_requests w now).1
          && (Window.failure_rate_above
              (Window.total_requests w now).0
              config.failure_rate_percent
              now).1))
unfolding trip_by_window
trip_by_window_lem b w config now = (ground arith, ground arith)

AllBy-snoc : (now : ℕ) (os : List (ℕ × Bool)) → AllBy now os → AllBy now (os ++ ((now, true) ∷ []))
AllBy-snoc now [] h = (omega arith, tt)
AllBy-snoc now (o ∷ os) h = (h.0, AllBy-snoc now os h.1)

-- So many of so many, in per cent, as doubles are divided and multiplied.
abbrev pub percentage : (failures total : ℕ) → Double
percentage failures zero = whole 0
percentage failures (suc n) = product (quotient failures (suc n)) (whole 100)

rate_of-percentage :
    (failures total : ℕ) → Window.rate_of failures total ≡ percentage failures total
rate_of-percentage failures zero = refl
rate_of-percentage failures (suc n) = ground arith

Trips : WindowConfig → (now : ℕ) → List (ℕ × Bool) → Type 0
Trips config now all =
    (config.minimum_requests ≤ spec_total config.size_ms (width config.size_ms) now all)
    × (exceeds
          (percentage (spec_failures config.size_ms (width config.size_ms) now all)
            (spec_total config.size_ms (width config.size_ms) now all))
          config.failure_rate_percent
        ≡ true)

and_splits :
    (m n : ℕ) (r : Bool) (b : Bool) → b ≡ leb m n && r → (b ≡ true) ↔ ((m ≤ n) × (r ≡ true))
and_splits m n r b e = (λ h. ground (arith, e, h), λ h. ground (arith, e, h))

trip_by_window_iff :
    (b : CircuitBreaker) (config : WindowConfig) (all : List (ℕ × Bool)) (now : ℕ)
    → AllBy now all
    → ((trip_by_window b (record_all (Window.new config.size_ms) all) config now).1 ≡ true)
      ↔ Trips config now all
unfolding Trips
trip_by_window_iff b config all now h =
    let w = record_all (Window.new config.size_ms) all in
    let counts = record_all-counts config.size_ms now all h in
    let rate = rate_after_total w config.failure_rate_percent now in
    let t = (trip_by_window_lem b w config now).1 in
    let total = spec_total config.size_ms (width config.size_ms) now all in
    let failures = spec_failures config.size_ms (width config.size_ms) now all in
    let code : (trip_by_window b w config now).1
        ≡ leb config.minimum_requests total
          && exceeds (percentage failures total) config.failure_rate_percent =
      t ∙ rw (rate, counts.0, counts.1, rate_of-percentage failures total) refl in
    and_splits config.minimum_requests total
      (exceeds (percentage failures total) config.failure_rate_percent)
      (trip_by_window b w config now).1 code

trips_iff :
    (b : CircuitBreaker) (config : WindowConfig) (w : RollingWindow) (now : ℕ)
    → is_enabled b ≡ true
    → b.state ≡ closed
    → b.config.window ≡ some config
    → b.window ≡ some w
    → ((record_classified_failure b now).state ≡ open_)
      ↔ ((trip_by_window (count_failure b now) (Window.record_failure w now) config now).1 ≡ true)
unfolding record_classified_failure count_failure evaluate_trip_condition
trips_iff b config w now e s c h =
    let t = trip_by_window_lem (count_failure b now) (Window.record_failure w now) config now in
    (λ k. ground (arith, t.0), λ k. ground (arith, t.0))

-- With a window, a closed breaker that has recorded the outcomes `os` and now records a failure opens
-- exactly when the outcomes still covered, this one included, are at least `minimumRequests` and
-- their percentage of failures, as doubles are divided and multiplied, exceeds `failureRatePercent`, a
-- whole number.
pub record_classified_failure_opens :
    (b : CircuitBreaker) (config : WindowConfig) (os : List (ℕ × Bool)) (now : ℕ)
    → is_enabled b ≡ true
    → b.state ≡ closed
    → b.config.window ≡ some config
    → b.window ≡ some (record_all (Window.new config.size_ms) os)
    → AllBy now os
    → let all = os ++ ((now, true) ∷ []) in
      let total = spec_total config.size_ms (width config.size_ms) now all in
      let failures = spec_failures config.size_ms (width config.size_ms) now all in
      ((record_classified_failure b now).state ≡ open_) ↔ (
        (config.minimum_requests ≤ total)
        × (exceeds (percentage failures total) config.failure_rate_percent ≡ true))
unfolding Trips
record_classified_failure_opens b config os now e s c w h =
    let all = os ++ ((now, true) ∷ []) in
    let spec = trip_by_window_iff (count_failure b now) config all now (AllBy-snoc now os h) in
    let code = trips_iff b config (record_all (Window.new config.size_ms) os) now e s c w in
    let spec' = rw (record_all-snoc (Window.new config.size_ms) os now) at spec in
    (λ k. spec'.0 (code.0 k), λ k. code.1 (spec'.1 k))

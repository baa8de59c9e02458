-- ===== src/Breaker.antt =====
-- `CircuitBreaker` of src/queue/circuit-breaker.ts, one for each partition. `Date.now()` is the
-- argument `now`; `notices` is what `onStateChange` has been called with, the last call first.
pub mod Window
pub mod WindowLaws
pub mod Permits
pub mod Trials
pub mod HalfOpen
pub mod Trip
mod Examples
use vereda.Common.{
  ℕ, zero, suc, ◌+◌, ◌-◌, Bool, true, false, not, ◌&&◌, ◌||◌, Option, none, some, List, [], ◌∷◌,
  leb, ltb, ◌==◌, includes, erase, length, or_default, if◌then◌else◌,
}
use vereda.Errors.{AppError, kind}
use vereda.Policy.{retriable_kind}
use Window.{RollingWindow}
use Window

abbrev pub default_failure_threshold : ℕ
default_failure_threshold = 5

abbrev pub default_reset_timeout_ms : ℕ
default_reset_timeout_ms = 30000

abbrev pub default_half_open_max_attempts : ℕ
default_half_open_max_attempts = 1

pub record WindowConfig : Type 0 where
  pub size_ms : ℕ
  pub failure_rate_percent : ℕ
  pub minimum_requests : ℕ

pub record CircuitBreakerConfig : Type 0 where
  pub enabled : Option Bool
  pub failure_threshold : Option ℕ
  pub window : Option WindowConfig
  pub reset_timeout_ms : Option ℕ
  pub half_open_max_attempts : Option ℕ
  pub is_failure : Option (AppError → Bool)

pub data CircuitState : Type 0 where
  closed open_ half_open : CircuitState

-- The argument of `onStateChange`.
pub data Notice : Type 0 where
  opened shut : Notice

pub record CircuitBreaker : Type 0 where
  pub config : CircuitBreakerConfig
  pub state : CircuitState
  pub consecutive_failures : ℕ
  pub opened_at : ℕ
  pub half_open_in_flight : ℕ
  pub active_tickets : ℕ
  pub half_open_generation : ℕ
  pub window : Option RollingWindow
  pub notices : List Notice

unfoldable pub new : CircuitBreakerConfig → CircuitBreaker
new config = record {
  config = config;
  state = closed;
  consecutive_failures = 0;
  opened_at = 0;
  half_open_in_flight = 0;
  active_tickets = 0;
  half_open_generation = 0;
  window = elim config.window [ none ↦ none | some w ↦ some (Window.new w.size_ms) ];
  notices = [];
}

abbrev pub is_enabled : CircuitBreaker → Bool
is_enabled b = or_default b.config.enabled false

abbrev pub reset_timeout : CircuitBreaker → ℕ
reset_timeout b = or_default b.config.reset_timeout_ms default_reset_timeout_ms

abbrev pub max_attempts : CircuitBreaker → ℕ
max_attempts b = or_default b.config.half_open_max_attempts default_half_open_max_attempts

abbrev pub is_state : CircuitState → CircuitState → Bool
is_state closed closed = true
is_state open_ open_ = true
is_state half_open half_open = true
is_state _ _ = false

-- `Date.now() - this.openedAt >= resetTimeoutMs`.
abbrev pub reset_elapsed : CircuitBreaker → (now : ℕ) → Bool
reset_elapsed b now = leb (b.opened_at + reset_timeout b) now

unfoldable pub is_evictable : CircuitBreaker → (now : ℕ) → Bool
is_evictable b now =
    if ltb 0 b.active_tickets
    then false
    else if is_state b.state closed
    then true
    else reset_elapsed b now

-- The tail of `canRequest`, once an open circuit has become half-open or has refused.
unfoldable pub reserve_trial : CircuitBreaker → CircuitBreaker × Bool
reserve_trial b =
    if is_state b.state half_open
    then (if leb (max_attempts b) b.half_open_in_flight
        then (b, false)
        else (record b { half_open_in_flight = b.half_open_in_flight + 1 }, true))
    else (b, true)

unfoldable pub can_request : CircuitBreaker → (now : ℕ) → CircuitBreaker × Bool
unfolding reserve_trial
can_request b now =
    if not (is_enabled b)
    then (b, true)
    else if is_state b.state open_
    then (if reset_elapsed b now
        then reserve_trial (record b {
          state = half_open;
          half_open_in_flight = 0;
          half_open_generation = b.half_open_generation + 1;
        })
        else (b, false))
    else reserve_trial b

unfoldable pub reset_counters : CircuitBreaker → CircuitBreaker
reset_counters b = record b {
  consecutive_failures = 0;
  half_open_in_flight = 0;
  window = elim b.window [ none ↦ none | some w ↦ some (Window.reset w) ];
}

unfoldable pub record_success : CircuitBreaker → (now : ℕ) → CircuitBreaker
unfolding reset_counters
record_success b now =
    if not (is_enabled b)
    then b
    else if is_state b.state half_open
    then (let b' =
          reset_counters
            (record b { half_open_in_flight = b.half_open_in_flight - 1; state = closed }) in
        record b' { notices = shut ∷ b'.notices })
    else if is_state b.state closed
    then record b {
      consecutive_failures = 0;
      window = elim b.window [ none ↦ none | some w ↦ some (Window.record_success w now) ];
    }
    else b

-- With a window its two queries leave it pruned.
unfoldable pub trip_by_window :
    CircuitBreaker → RollingWindow → WindowConfig → (now : ℕ) → CircuitBreaker × Bool
trip_by_window b w config now =
    let (w1, total) = Window.total_requests w now in
    let (w2, above) = Window.failure_rate_above w1 config.failure_rate_percent now in
    if leb config.minimum_requests total
    then (record b { window = some w2 }, above)
    else (record b { window = some w1 }, false)

unfoldable pub evaluate_trip_condition : CircuitBreaker → (now : ℕ) → CircuitBreaker × Bool
unfolding trip_by_window
evaluate_trip_condition b now =
    let by_run =
      leb (or_default b.config.failure_threshold default_failure_threshold)
        b.consecutive_failures in
    elim b.window [
      | none ↦ (b, by_run)
      | some w ↦ elim b.config.window [
        | none ↦ (b, by_run)
        | some config ↦ trip_by_window b w config now
      ]
    ]

-- `this.state = "open"`, its time and its notice.
unfoldable pub open_circuit : CircuitBreaker → (now : ℕ) → CircuitBreaker
open_circuit b now = record b { state = open_; opened_at = now; notices = opened ∷ b.notices }

-- The counters that a failure moves while the circuit is closed.
unfoldable pub count_failure : CircuitBreaker → (now : ℕ) → CircuitBreaker
count_failure b now = record b {
  consecutive_failures = b.consecutive_failures + 1;
  window = elim b.window [ none ↦ none | some w ↦ some (Window.record_failure w now) ];
}

unfoldable pub record_classified_failure : CircuitBreaker → (now : ℕ) → CircuitBreaker
unfolding open_circuit
record_classified_failure b now =
    if not (is_enabled b)
    then b
    else if is_state b.state half_open
    then open_circuit (record b { half_open_in_flight = b.half_open_in_flight - 1 }) now
    else if is_state b.state closed
    then (let (b', trips) = evaluate_trip_condition (count_failure b now) now in
        if trips then open_circuit b' now else b')
    else b

unfoldable pub classifies : CircuitBreaker → AppError → Bool
classifies b error = elim b.config.is_failure [
  | none ↦ retriable_kind (kind error)
  | some is_failure ↦ is_failure error
]

unfoldable pub record_failure : CircuitBreaker → AppError → (now : ℕ) → CircuitBreaker
unfolding classifies record_classified_failure
record_failure b error now =
    if not (is_enabled b)
    then b
    else if not (classifies b error)
    then b
    else record_classified_failure b now

unfoldable pub record_neutral : CircuitBreaker → (now : ℕ) → CircuitBreaker
unfolding record_success
record_neutral b now = record_success b now

-- `CircuitSnapshot`, without the partition's name.
pub record CircuitSnapshot : Type 0 where
  pub state : CircuitState
  pub failures : ℕ
  pub opened_at : Option ℕ
  pub next_attempt_at : Option ℕ

-- The window's query leaves it pruned.
unfoldable pub snapshot : CircuitBreaker → (now : ℕ) → CircuitBreaker × CircuitSnapshot
snapshot b now =
    let shot : ℕ → CircuitSnapshot = λ failures. record {
      state = b.state;
      failures = failures;
      opened_at = (if is_state b.state closed then none else some b.opened_at);
      next_attempt_at =
          (if is_state b.state closed then none else some (b.opened_at + reset_timeout b));
    } in
    elim b.window [
      | none ↦ (b, shot b.consecutive_failures)
      | some w ↦
          let (w', failures) = Window.failure_count w now in
          (record b { window = some w' }, shot failures)
    ]

unfoldable pub retain : CircuitBreaker → CircuitBreaker
retain b = record b { active_tickets = b.active_tickets + 1 }

-- The function that `retain` returns, with its flag `released`.
unfoldable pub release_hold : CircuitBreaker → (released : Bool) → CircuitBreaker × Bool
release_hold b released =
    if released then (b, released) else (record b { active_tickets = b.active_tickets - 1 }, true)

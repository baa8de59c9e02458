-- ===== src/Breaker/Permits.antt =====
-- The permits of `tryAcquire` in src/queue/circuit-breaker.ts: one for each request admitted, each
-- with its own flag `settled`. `Circuit` is a breaker with all permits it has given, the first
-- given first; callers settle them in any order, by their place in that list.
use vereda.Common.{
  ℕ, ◌-◌, Bool, true, false, not, ◌&&◌, ◌||◌, Option, none, some, List, [], ◌∷◌, ◌++◌, ◌==◌,
  get_elem?, set, if◌then◌else◌,
}
use vereda.Errors.{AppError, Kind, kind, configuration}
use vereda.Breaker.{
  CircuitBreaker, CircuitBreakerConfig, half_open, is_state, is_enabled, new, can_request,
  record_success, classifies, record_classified_failure, record_neutral,
}

pub record CircuitPermit : Type 0 where
  pub trial_generation : Option ℕ
  pub settled : Bool

abbrev pub never_sent_kind : Kind → Bool
never_sent_kind configuration = true
never_sent_kind _ = false

unfoldable pub try_acquire : CircuitBreaker → (now : ℕ) → CircuitBreaker × Option CircuitPermit
unfolding can_request
try_acquire b now =
    let (b', admitted) = can_request b now in
    if not admitted then (b', none) else (
      b',
      some (record {
        trial_generation =
            (if is_enabled b' && is_state b'.state half_open
              then some b'.half_open_generation
              else none);
        settled = false;
      }),
    )

abbrev pub is_current_trial : CircuitBreaker → Option ℕ → Bool
is_current_trial b none = false
is_current_trial b (some generation) = generation == b.half_open_generation

abbrev pub may_record : CircuitBreaker → Option ℕ → Bool
may_record b trial = not (is_state b.state half_open) || is_current_trial b trial

unfoldable pub free_trial_slot : CircuitBreaker → Option ℕ → CircuitBreaker
free_trial_slot b trial =
    if is_state b.state half_open && is_current_trial b trial
    then record b { half_open_in_flight = b.half_open_in_flight - 1 }
    else b

-- What a caller tells a permit.
pub data Settlement : Type 0 where
  success : Settlement
  failure : AppError → Settlement
  release : Settlement

-- The function that `settle` is given, for a permit whose `trialGeneration` is the second argument.
unfoldable pub settle : CircuitBreaker → Option ℕ → Settlement → (now : ℕ) → CircuitBreaker
unfolding free_trial_slot record_neutral classifies
settle b trial success now = if may_record b trial then record_success b now else b
settle b trial (failure error) now =
    if not (may_record b trial)
    then b
    else if never_sent_kind (kind error)
    then free_trial_slot b trial
    else if classifies b error
    then record_classified_failure b now
    else free_trial_slot (record_neutral b now) trial
settle b trial release now = free_trial_slot b trial

pub record Circuit : Type 0 where
  pub breaker : CircuitBreaker
  pub permits : List CircuitPermit

unfoldable pub start : CircuitBreakerConfig → Circuit
unfolding new
start config = record { breaker = new config; permits = [] }

abbrev pub given : Option CircuitPermit → List CircuitPermit
given none = []
given (some p) = p ∷ []

unfoldable pub acquire : Circuit → (now : ℕ) → Circuit
unfolding try_acquire
acquire c now =
    let (b, permit) = try_acquire c.breaker now in
    record { breaker = b; permits = c.permits ++ given permit }

-- A method of the permit at place `i`: only the first of its calls has an effect.
unfoldable pub settle_at : Circuit → (i : ℕ) → Settlement → (now : ℕ) → Circuit
settle_at c i s now = elim (get_elem? c.permits i) [
  | none ↦ c
  | some p ↦ if p.settled then c else record {
    breaker = settle c.breaker p.trial_generation s now;
    permits = set c.permits i (record p { settled = true });
  }
]

pub data Op : Type 0 where
  acquires : (now : ℕ) → Op
  settles : (i : ℕ) → Settlement → (now : ℕ) → Op

unfoldable pub step : Circuit → Op → Circuit
unfolding acquire settle_at
step c (acquires now) = acquire c now
step c (settles i s now) = settle_at c i s now

unfoldable pub run : Circuit → List Op → Circuit
unfolding step
run c [] = c
run c (op ∷ ops) = run (step c op) ops

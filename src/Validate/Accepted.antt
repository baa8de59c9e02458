-- ===== src/Validate/Accepted.antt =====
-- What the accepted values are.
use native.Mathlib.Nat.{div-add-mod', mul-mod_left}
use vereda.Common.{
  ℕ, zero, suc, ◌*◌, ◌/◌, ◌%◌, ◌≤◌, ◌≡◌, refl, ap, ◌↔◌, String, Bool, true, false, ◌&&◌, Option,
  none, some, List, [], arith,
}
use vereda.Common.Number.{Number, nan, infinite, fraction, num, less, less_eq}
use vereda.Validate.{
  Rule, Violation, check, then_check, check_all, when_set, is_positive_integer, is_positive_finite,
}
use vereda.Validate.Sections.{
  WindowConfig, CircuitBreakerConfig, validate_window, validate_circuit_breaker,
}

-- A natural number from 1 on, as a fraction; a positive fraction; one of at most 100.
abbrev pub IsCount : Number → Type 0
IsCount x = (n : ℕ) × ((d : ℕ) × ((1 ≤ n) × (x ≡ fraction false (n * suc d) d)))

abbrev pub IsPositive : Number → Type 0
IsPositive x = (m : ℕ) × ((d : ℕ) × ((1 ≤ m) × (x ≡ fraction false m d)))

abbrev pub IsPercentage : Number → Type 0
IsPercentage x = (m : ℕ) × ((d : ℕ) × ((1 ≤ m) × ((m ≤ 100 * suc d) × (x ≡ fraction false m d))))

positive_factor : (m q k : ℕ) → m ≡ q * k → 1 ≤ m → 1 ≤ q
positive_factor m zero k e h = ground (arith, e, h)
positive_factor m (suc q) k e h = omega arith

IsCount-accepted : (x : Number) → IsCount x → is_positive_integer x ≡ true
IsCount-accepted x (zero, (d, (h, e))) = ground (arith, h)
IsCount-accepted x (suc k, (d, (h, e))) = rw e (ground (arith, mul-mod_left (suc k) (suc d)))

accepted-IsCount : (x : Number) → is_positive_integer x ≡ true → IsCount x
accepted-IsCount nan h = ground (arith, h)
accepted-IsCount (infinite s) h = ground (arith, h)
accepted-IsCount (fraction true m d) h = ground (arith, h)
accepted-IsCount (fraction false m d) h =
    let parts : (m % suc d ≡ 0) × (suc d ≤ m) = ground (arith, h) in
    let whole : m ≡ m / suc d * suc d = omega (arith, div-add-mod' m (suc d), parts.0) in
    (
      m / suc d,
      (
        d,
        (
          positive_factor m (m / suc d) (suc d) whole (omega (arith, parts.1)),
          ap (λ k. fraction false k d) whole,
        ),
      ),
    )

IsPositive-accepted : (x : Number) → IsPositive x → is_positive_finite x ≡ true
IsPositive-accepted x (m, (d, (h, e))) = rw e (ground (arith, h))

accepted-IsPositive : (x : Number) → is_positive_finite x ≡ true → IsPositive x
accepted-IsPositive nan h = ground (arith, h)
accepted-IsPositive (infinite s) h = ground (arith, h)
accepted-IsPositive (fraction true m d) h = ground (arith, h)
accepted-IsPositive (fraction false m d) h = (m, (d, (ground (arith, h), refl)))

abbrev is_percentage : Number → Bool
is_percentage x = less (num 0) x && less_eq x (num 100)

IsPercentage-accepted : (x : Number) → IsPercentage x → is_percentage x ≡ true
IsPercentage-accepted x (m, (d, (h, (k, e)))) = rw e (ground (arith, h, k))

accepted-IsPercentage : (x : Number) → is_percentage x ≡ true → IsPercentage x
accepted-IsPercentage nan h = ground (arith, h)
accepted-IsPercentage (infinite true) h = ground (arith, h)
accepted-IsPercentage (infinite false) h = ground (arith, h)
accepted-IsPercentage (fraction true m d) h = ground (arith, h)
accepted-IsPercentage (fraction false m d) h =
    (m, (d, (ground (arith, h), (ground (arith, h), refl))))

-- What is said of a field that is set.
abbrev pub Holds : {A : Type 0} → Option A → (A → Type 0) → Type 0
Holds none P = Unit {0}
Holds (some a) P = P a

check_iff :
    {P : Type 0}
    → (b : Bool) (path : List String) (rule : Rule) → (b ≡ true) ↔ P
    → (check b path rule ≡ none) ↔ P
check_iff true path rule h = (λ e. h.0 refl, λ v. refl)
check_iff false path rule h = (λ e. ground (arith, e), λ v. ground (arith, h.1 v))

then_check_iff :
    {P Q : Type 0}
    → (c next : Option Violation) → (c ≡ none) ↔ P
    → (next ≡ none) ↔ Q
    → (then_check c next ≡ none) ↔ (P × Q)
then_check_iff none next h k = (λ e. (h.0 refl, k.0 e), λ v. k.1 v.1)
then_check_iff (some w) next h k = (λ e. ground (arith, e), λ v. h.1 v.0)

when_set_iff :
    {A : Type 0}
    → {P : A → Type 0} → (o : Option A) (c : A → Option Violation) → ((a : A) → (c a ≡ none) ↔ P a)
    → (when_set o c ≡ none) ↔ Holds o P
when_set_iff none c h = (λ e. tt, λ v. refl)
when_set_iff (some a) c h = h a

abbrev pub ValidWindow : WindowConfig → Type 0
ValidWindow w =
    IsPositive w.size_ms
    × (IsPercentage w.failure_rate_percent × (IsCount w.minimum_requests × Unit {0}))

-- What a circuit breaker's configuration has to be.
abbrev pub ValidCircuitBreaker : CircuitBreakerConfig → Type 0
ValidCircuitBreaker b =
    Holds b.failure_threshold IsCount
    × (Holds b.reset_timeout_ms IsPositive
        × (Holds b.half_open_max_attempts IsCount
            × (Holds b.is_failure (λ callable. callable ≡ true)
                × (Holds b.window ValidWindow × Unit {0}))))

nothing_iff : (check_all [] ≡ none) ↔ Unit {0}
nothing_iff = (λ e. tt, λ v. refl)

IsCount-iff :
    (path : List String) (rule : Rule) (x : Number)
    → (check (is_positive_integer x) path rule ≡ none) ↔ IsCount x
IsCount-iff path rule x =
    check_iff (is_positive_integer x) path rule (accepted-IsCount x, IsCount-accepted x)

IsPositive-iff :
    (path : List String) (rule : Rule) (x : Number)
    → (check (is_positive_finite x) path rule ≡ none) ↔ IsPositive x
IsPositive-iff path rule x =
    check_iff (is_positive_finite x) path rule (accepted-IsPositive x, IsPositive-accepted x)

validate_window_iff :
    (w : WindowConfig) (prefix : List String) → (validate_window w prefix ≡ none) ↔ ValidWindow w
unfolding validate_window
validate_window_iff w prefix = then_check_iff _ _ (IsPositive-iff _ _ w.size_ms) (
    then_check_iff _ _
      (check_iff (is_percentage w.failure_rate_percent) _ _ (
        accepted-IsPercentage w.failure_rate_percent,
        IsPercentage-accepted w.failure_rate_percent,
      ))
      (then_check_iff _ _ (IsCount-iff _ _ w.minimum_requests) nothing_iff))

-- A circuit breaker's configuration is accepted exactly when its thresholds and trial counts are whole
-- numbers from 1 on, its times positive and finite, its failure rate above 0 and at most 100, and
-- `isFailure` a function, each where it is set.
pub validate_circuit_breaker_iff :
    (b : CircuitBreakerConfig) (prefix : List String)
    → (validate_circuit_breaker b prefix ≡ none) ↔ ValidCircuitBreaker b
unfolding validate_circuit_breaker
validate_circuit_breaker_iff b prefix =
    then_check_iff _ _ (when_set_iff b.failure_threshold _ (λ x. IsCount-iff _ _ x)) (
      then_check_iff _ _ (when_set_iff b.reset_timeout_ms _ (λ x. IsPositive-iff _ _ x)) (
        then_check_iff _ _ (when_set_iff b.half_open_max_attempts _ (λ x. IsCount-iff _ _ x)) (
          then_check_iff _ _ (when_set_iff b.is_failure _ (λ f. check_iff f _ _ (λ e. e, λ e. e))) (
            then_check_iff _ _ (when_set_iff b.window _ (λ w. validate_window_iff w _))
              nothing_iff))))

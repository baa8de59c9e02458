-- ===== src/Validate/Config.antt =====
-- What a configuration that is accepted as a whole promises of its parts.
use vereda.Common.{
  ℕ, zero, suc, ◌≤◌, ◌*◌, ◌≡◌, refl, ◌↔◌, String, Bool, true, false, Option, none, some, List, [],
  ◌∷◌, ◌++◌, get_elem?, inl, inr, Bool-cases, arith,
}
use vereda.Common.Number.{Number, nan, infinite, fraction}
use vereda.Validate.{
  required, Rule, Violation, check, then_check, check_all, when_set, CloseOptions,
  validate_drain_ms, validate_close_options,
}
use vereda.Validate.Sections.{
  PartitionConfig, CircuitBreakerConfig, ClientConfig, validate_circuit_breaker, partition_checks,
  config_checks, validate_partition_config, validate_partitions, validate_config, has_attempt_ms,
}
use vereda.Validate.Accepted.{ValidCircuitBreaker, Holds, validate_circuit_breaker_iff}

pub check-true : (b : Bool) (path : List String) (rule : Rule) → check b path rule ≡ none → b ≡ true
check-true true path rule e = refl
check-true false path rule e = ground (arith, e)

pub both_checked :
    (c next : Option Violation) → then_check c next ≡ none → (c ≡ none) × (next ≡ none)
both_checked none next e = (refl, e)
both_checked (some w) next e = ground (arith, e)

-- The check number `i` of those that a whole sequence has passed.
passed :
    (cs : List (Option Violation)) (i : ℕ) (c : Option Violation)
    → check_all cs ≡ none
    → get_elem? cs i ≡ some c
    → c ≡ none
passed [] i c e h = ground (arith, h)
passed (x ∷ cs) zero c e h = ground (arith, (both_checked x (check_all cs) e).0, h)
passed (x ∷ cs) (suc i) c e h = passed cs i c (both_checked x (check_all cs) e).1 h

set-Holds :
    {A : Type 0}
    → {P : A → Type 0} → (o : Option A) (c : A → Option Violation) → ((a : A) → c a ≡ none → P a)
    → when_set o c ≡ none
    → Holds o P
set-Holds none c h e = tt
set-Holds (some a) c h e = h a e

abbrev pub ValidBreakerOf : PartitionConfig → Type 0
ValidBreakerOf p = Holds p.circuit_breaker ValidCircuitBreaker

abbrev pub ValidBreakers : List (String × PartitionConfig) → Type 0
ValidBreakers [] = Unit {0}
ValidBreakers ((name, p) ∷ rest) = ValidBreakerOf p × ValidBreakers rest

set_breaker-Holds :
    (o : Option CircuitBreakerConfig) (prefix : List String)
    → when_set o (λ b. validate_circuit_breaker b prefix) ≡ none
    → Holds o ValidCircuitBreaker
set_breaker-Holds o prefix e =
    set-Holds o (λ b. validate_circuit_breaker b prefix)
      (λ b h. (validate_circuit_breaker_iff b prefix).0 h) e

partition-breaker :
    (p : PartitionConfig) (prefix : List String)
    → validate_partition_config p prefix ≡ none
    → ValidBreakerOf p
unfolding validate_partition_config
partition-breaker p prefix e =
    let at_ : List String = prefix ++ ("circuitBreaker" ∷ []) in
    set_breaker-Holds p.circuit_breaker at_ (
      passed (partition_checks p prefix) 4
        (when_set p.circuit_breaker (λ b. validate_circuit_breaker b at_)) e refl)

partitions-breakers :
    (ps : List (String × PartitionConfig)) → validate_partitions ps ≡ none → ValidBreakers ps
unfolding validate_partitions
partitions-breakers [] e = tt
partitions-breakers ((name, p) ∷ rest) e =
    let prefix : List String = "partitions" ∷ name ∷ [] in
    let both = both_checked (validate_partition_config p prefix) (validate_partitions rest) e in
    (partition-breaker p prefix both.0, partitions-breakers rest both.1)

-- A client is only created with a configuration that sets `timeout.attemptMs` and in which each
-- circuit breaker it can come to use (its own, that of each partition, that of the default
-- partition) is valid.
pub validate_config-breakers :
    (config : ClientConfig)
    → validate_config config ≡ none
    → (has_attempt_ms config.timeout ≡ true)
      × Holds config.circuit_breaker ValidCircuitBreaker
      × ValidBreakers config.partitions
      × Holds config.default_partition ValidBreakerOf
unfolding validate_config
validate_config-breakers config e =
    let checked : (i : ℕ) (c : Option Violation)
        → get_elem? (config_checks config) i ≡ some c
        → c ≡ none =
      λ i c h. passed (config_checks config) i c e h in
    let attempt_ms : List String = "timeout" ∷ "attemptMs" ∷ [] in
    let own : List String = "circuitBreaker" ∷ [] in
    let fallback : List String = "defaultPartition" ∷ [] in
    (
      check-true (has_attempt_ms config.timeout) attempt_ms required
          (checked 3 (check (has_attempt_ms config.timeout) attempt_ms required) refl),
      set_breaker-Holds config.circuit_breaker own
          (checked 6 (when_set config.circuit_breaker (λ b. validate_circuit_breaker b own)) refl),
      partitions-breakers config.partitions
          (checked 10 (validate_partitions config.partitions) refl),
      set-Holds config.default_partition (λ p. validate_partition_config p fallback)
          (λ p h. partition-breaker p fallback h)
          (checked 11
            (when_set config.default_partition (λ p. validate_partition_config p fallback)) refl),
    )

-- A time that a timer can hold: above 0 and at most 2^31 - 1 ms.
abbrev FitsTimer : Number → Type 0
FitsTimer x =
    (m : ℕ) × ((d : ℕ) × ((1 ≤ m) × ((m ≤ 2147483647 * suc d) × (x ≡ fraction false m d))))

abbrev ValidDrain : Option Number → Type 0
ValidDrain none = ⊥
ValidDrain (some ms) = FitsTimer ms

abbrev ValidClose : Option CloseOptions → Type 0
ValidClose none = Unit {0}
ValidClose (some opts) = opts.drain ≡ true → ValidDrain opts.timeout_ms

drain-accepted : (o : Option Number) → ValidDrain o → validate_drain_ms o ≡ none
drain-accepted none v = absurd v
drain-accepted (some ms) (m, (d, (h, (k, e)))) = rw e (ground (arith, h, k))

accepted-drain : (o : Option Number) → validate_drain_ms o ≡ none → ValidDrain o
accepted-drain none e = ground (arith, e)
accepted-drain (some nan) e = ground (arith, e)
accepted-drain (some (infinite true)) e = ground (arith, e)
accepted-drain (some (infinite false)) e = ground (arith, e)
accepted-drain (some (fraction true m d)) e = ground (arith, e)
accepted-drain (some (fraction false m d)) e =
    (m, (d, (ground (arith, e), (ground (arith, e), refl))))

-- `close` accepts its options exactly when they ask for no drain or give it a time that a timer can
-- hold, above 0 and at most 2147483647 ms.
validate_close_options_iff :
    (opts : Option CloseOptions) → (validate_close_options opts ≡ none) ↔ ValidClose opts
unfolding validate_close_options
validate_close_options_iff none = (λ e. tt, λ v. refl)
validate_close_options_iff (some opts) = elim (Bool-cases opts.drain) [
  | inl h ↦
      rw h
        ((λ e d. accepted-drain opts.timeout_ms e), (λ v. drain-accepted opts.timeout_ms (v refl)))
  | inr h ↦ rw h ((λ e d. ground (arith, d)), (λ v. refl))
]

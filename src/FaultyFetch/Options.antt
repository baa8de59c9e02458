-- ===== src/FaultyFetch/Options.antt =====
-- src/testing/index.ts: which options faultyFetch accepts. A value that the caller passes is one of
-- JavaScript's, of which is kept what the checks test for; a property that is not there is told from
-- one that is there as undefined. Whether `new Headers` takes the headers of a fault with its
-- Retry-After is that class's answer, a flag of the fault.
use vereda.Common.{
  ℕ, suc, ◌*◌, Bool, true, false, not, ◌&&◌, ◌||◌, Option, none, some, List, [], ◌∷◌, ◌==◌,
  if◌then◌else◌,
}
use vereda.Common.Text.{Text}
use vereda.Common.Number.{Number, num, is_finite, is_integer, less, less_eq}

pub data Value : Type 0 where
  undefined null function array object : Value
  number : Number → Value
  text : Text → Value
  boolean : Bool → Value

-- An entry of `faults`.
pub record GivenFault : Type 0 where
  pub is_object : Bool  -- neither null nor a primitive
  pub status : Option Value
  pub latency_ms : Option Value
  pub network_error : Option Value
  pub hang : Option Value
  pub retry_after : Value
  pub body : Value
  pub headers_form : Bool  -- whether `responseHeaders(fault)` returns

pub record FaultyFetchOptions : Type 0 where
  pub match_ : Value
  pub rate : Value
  pub seed : Value
  pub faults : Option (List GivenFault)  -- none when it is no array

pub data FaultMistake : Type 0 where
  not_exactly_one status_not_valid body_not_allowed body_not_text retry_after_not_valid
        headers_not_valid latency_not_valid network_error_not_true hang_not_true :
      FaultMistake

-- The ConfigurationError that is thrown.
pub data Mistake : Type 0 where
  inner_not_function options_not_object match_not_function rate_not_valid seed_not_integer
        faults_empty :
      Mistake
  at_fault : (i : ℕ) → FaultMistake → Mistake

pub data FaultKey : Type 0 where
  of_status of_latency_ms of_network_error of_hang : FaultKey

abbrev pub key_of : {A : Type 0} → Option A → FaultKey → List FaultKey → List FaultKey
key_of none k ks = ks
key_of (some a) k ks = k ∷ ks

-- `FAULT_KEYS.filter((key) => … key in fault)`.
abbrev pub keys : GivenFault → List FaultKey
keys f =
    if f.is_object
    then key_of f.status of_status (
        key_of f.latency_ms of_latency_ms
          (key_of f.network_error of_network_error (key_of f.hang of_hang [])))
    else []

-- `x === k`.
abbrev pub is_number : Number → ℕ → Bool
is_number (Number.fraction false n d) k = n == k * suc d
is_number (Number.fraction true n d) k = n == 0 && k == 0
is_number _ k = false

-- `BODYLESS_STATUSES.has(x)`.
abbrev pub is_bodyless : Number → Bool
is_bodyless x = is_number x 204 || is_number x 205 || is_number x 304

abbrev pub is_status : Value → Bool
is_status (number x) = is_integer x && not (less x (num 200)) && not (less (num 599) x)
is_status _ = false

abbrev pub bodyless : Value → Bool
bodyless (number x) = is_bodyless x
bodyless _ = false

abbrev pub is_set : Value → Bool
is_set undefined = false
is_set _ = true

abbrev pub is_text : Value → Bool
is_text (text t) = true
is_text _ = false

-- 2^53 - 1.
abbrev pub max_safe_integer : ℕ
max_safe_integer = 9007199254740991

abbrev pub is_retry_after : Value → Bool
is_retry_after undefined = true
is_retry_after (text []) = false
is_retry_after (text (c ∷ t)) = true
is_retry_after (number x) = is_integer x && less_eq x (num max_safe_integer) && less_eq (num 0) x
is_retry_after _ = false

-- `case "status"`.
unfoldable pub check_status : GivenFault → Value → Option FaultMistake
check_status f status =
    if not (is_status status)
    then some status_not_valid
    else if bodyless status && is_set f.body
    then some body_not_allowed
    else if is_set f.body && not (is_text f.body)
    then some body_not_text
    else if not (is_retry_after f.retry_after)
    then some retry_after_not_valid
    else if not f.headers_form
    then some headers_not_valid
    else none

abbrev pub is_latency : Value → Bool
is_latency (number x) = is_finite x && not (less x (num 0))
is_latency _ = false

abbrev pub is_true : Value → Bool
is_true (boolean b) = b
is_true _ = false

abbrev pub value_at : Option Value → Value
value_at none = undefined
value_at (some v) = v

abbrev pub check_key : GivenFault → FaultKey → Option FaultMistake
check_key f of_status = check_status f (value_at f.status)
check_key f of_latency_ms =
    if is_latency (value_at f.latency_ms) then none else some latency_not_valid
check_key f of_network_error =
    if is_true (value_at f.network_error) then none else some network_error_not_true
check_key f of_hang = if is_true (value_at f.hang) then none else some hang_not_true

abbrev pub check_keys : GivenFault → List FaultKey → Option FaultMistake
check_keys f (k ∷ []) = check_key f k
check_keys f _ = some not_exactly_one

abbrev pub or_at : (i : ℕ) → Option FaultMistake → Option Mistake → Option Mistake
or_at i (some m) later = some (at_fault i m)
or_at i none later = later

-- `faults.forEach`, from index `i`.
abbrev pub check_faults : (i : ℕ) → List GivenFault → Option Mistake
check_faults i [] = none
check_faults i (f ∷ fs) = or_at i (check_keys f (keys f)) (check_faults (suc i) fs)

abbrev pub is_function : Value → Bool
is_function function = true
is_function _ = false

abbrev pub is_rate : Value → Bool
is_rate (number x) = less_eq (num 0) x && less_eq x (num 1)
is_rate _ = false

abbrev pub is_seed : Value → Bool
is_seed (number x) = is_integer x
is_seed _ = false

abbrev pub check_list : Option (List GivenFault) → Option Mistake
check_list none = some faults_empty
check_list (some []) = some faults_empty
check_list (some (f ∷ fs)) = check_faults 0 (f ∷ fs)

abbrev pub check_options : FaultyFetchOptions → Option Mistake
check_options o =
    if is_set o.match_ && not (is_function o.match_)
    then some match_not_function
    else if is_set o.rate && not (is_rate o.rate)
    then some rate_not_valid
    else if is_set o.seed && not (is_seed o.seed)
    then some seed_not_integer
    else check_list o.faults

abbrev pub check_object : Option FaultyFetchOptions → Option Mistake
check_object none = some options_not_object
check_object (some o) = check_options o

-- `options` is none when it is null or no object.
unfoldable pub validate : (inner : Value) → (options : Option FaultyFetchOptions) → Option Mistake
unfolding check_status
validate inner options =
    if not (is_function inner) then some inner_not_function else check_object options

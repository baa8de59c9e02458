-- ===== src/Merge/Attempts.antt =====
-- Whether an attempt has a legal timeout.
use vereda.Common.{
  ◌≡◌, refl, sym, ap, ◌∙◌, String, Bool, true, false, Option, none, some, List, [], ◌∷◌, ◌++◌, not,
  ◌&&◌, arith,
}
use vereda.Common.Number.{Number, num, less, is_finite}
use vereda.Timer.{max_timer_ms}
use vereda.Validate.{
  Violation, positive, fits_timer, check, check_all, when_set, TimeoutConfig, validate_timer_ms,
  validate_timeout_config,
}
use vereda.Validate.Config.{check-true, both_checked}
use vereda.Validate.Sections.{has_attempt_ms}
use vereda.Merge.{
  Field, missing, undefined_value, set_to, spread, read, Timeouts, spread_timeouts, seen,
  merge_timeout,
}

-- A time that an attempt may take, `Infinity` included.
abbrev pub IsLegal : Number → Type 0
IsLegal ms = (less (num 0) ms ≡ true) × ((is_finite ms && less (num max_timer_ms) ms) ≡ false)

-- The field is missing, or set to a legal time.
abbrev pub Given : Field Number → Type 0
Given missing = Unit {0}
Given undefined_value = ⊥
Given (set_to ms) = IsLegal ms

abbrev pub IsTimed : Field Number → Type 0
IsTimed missing = ⊥
IsTimed undefined_value = ⊥
IsTimed (set_to ms) = IsLegal ms

not-true : (b : Bool) → not b ≡ true → b ≡ false
not-true true h = ground (arith, h)
not-true false h = refl

timer-IsLegal : (path : List String) (ms : Number) → validate_timer_ms path ms ≡ none → IsLegal ms
timer-IsLegal path ms e =
    let over : Bool = is_finite ms && less (num max_timer_ms) ms in
    let later : Option Violation = check_all (check (not over) path fits_timer ∷ []) in
    let both = both_checked (check (less (num 0) ms) path positive) later e in
    (
      check-true (less (num 0) ms) path positive both.0,
      not-true over (
          check-true (not over) path fits_timer
            (both_checked (check (not over) path fits_timer) none both.1).0),
    )

attempt-IsLegal :
    (t : TimeoutConfig) (prefix : List String) (ms : Number)
    → validate_timeout_config t prefix ≡ none
    → t.attempt_ms ≡ some ms
    → IsLegal ms
unfolding validate_timeout_config
attempt-IsLegal t prefix ms e h =
    let timer : String → Number → Option Violation =
      λ field ms. validate_timer_ms (prefix ++ (field ∷ [])) ms in
    let later : Option Violation = check_all (when_set t.total_ms (timer "totalMs") ∷ []) in
    let first = both_checked (when_set t.attempt_ms (timer "attemptMs")) later e in
    timer-IsLegal (prefix ++ ("attemptMs" ∷ [])) ms
      (sym (ap (λ o. when_set o (timer "attemptMs")) h) ∙ first.0)

spread-IsTimed : (a b : Field Number) → IsTimed a → Given b → IsTimed (spread a b)
spread-IsTimed a missing v w = v
spread-IsTimed a undefined_value v w = absurd w
spread-IsTimed a (set_to ms) v w = w

abbrev pub is_undefined : {A : Type 0} → Field A → Bool
is_undefined undefined_value = true
is_undefined _ = false

field-Given :
    (f : Field Number)
    → ((ms : Number) → read f ≡ some ms → IsLegal ms)
    → is_undefined f ≡ false
    → Given f
field-Given missing legal h = tt
field-Given undefined_value legal h = ground (arith, h)
field-Given (set_to ms) legal h = legal ms refl

field-IsTimed :
    (f : Field Number) (total : Option Number)
    → ((ms : Number) → read f ≡ some ms → IsLegal ms)
    → has_attempt_ms (some (record { attempt_ms = read f; total_ms = total })) ≡ true
    → IsTimed f
field-IsTimed missing total legal h = ground (arith, h)
field-IsTimed undefined_value total legal h = ground (arith, h)
field-IsTimed (set_to ms) total legal h = legal ms refl

-- Timeouts that have passed validation, if there are any, in which `attemptMs` is not there as undefined.
abbrev pub Passed : List String → Option Timeouts → Type 0
Passed prefix none = Unit {0}
Passed prefix (some t) =
    (validate_timeout_config (seen t) prefix ≡ none) × (is_undefined t.attempt_ms ≡ false)

spread_timeouts-IsTimed :
    (earlier : Timeouts) (later : Option Timeouts) (prefix : List String)
    → IsTimed earlier.attempt_ms
    → Passed prefix later
    → IsTimed (spread_timeouts earlier later).attempt_ms
spread_timeouts-IsTimed earlier none prefix v w = v
spread_timeouts-IsTimed earlier (some later) prefix v w =
    spread-IsTimed earlier.attempt_ms later.attempt_ms v
      (field-Given later.attempt_ms (λ ms h. attempt-IsLegal (seen later) prefix ms w.0 h) w.1)

-- An attempt has a legal timeout: with client timeouts that were accepted and set `attemptMs`, and
-- partition and request timeouts that were accepted and do not have `attemptMs` as an explicit
-- undefined, the merged `attemptMs` is set to a positive time that is infinite or fits a timer.
pub merge_timeout-IsTimed :
    (client : Timeouts) (partition request : Option Timeouts) (p q r : List String)
    → validate_timeout_config (seen client) p ≡ none
    → has_attempt_ms (some (seen client)) ≡ true
    → Passed q partition
    → Passed r request
    → IsTimed (merge_timeout client partition request).attempt_ms
unfolding merge_timeout
merge_timeout-IsTimed client partition request p q r e h v w =
    spread_timeouts-IsTimed (spread_timeouts client partition) request r
      (spread_timeouts-IsTimed client partition q
        (field-IsTimed client.attempt_ms (read client.total_ms)
          (λ ms g. attempt-IsLegal (seen client) p ms e g) h)
        v)
      w

-- ===== src/Merge/Partition/Accepted.antt =====
-- The merged rate limit of a partition is one that validation accepts.
use vereda.Common.{
  ◌≡◌, refl, sym, ap, ◌∙◌, String, Bool, true, Option, none, some, List, [], ◌∷◌, ◌++◌, ◌&&◌,
}
use vereda.Common.Number.{Number, num, less_eq, is_finite}
use vereda.Validate.{
  finite_from_one, non_negative, positive_finite, Rule, Violation, check, check_all, when_set,
  is_positive_finite,
}
use vereda.Validate.Config.{check-true, both_checked}
use vereda.Validate.Sections.{validate_rate_limit}
use vereda.Merge.{Field, missing, undefined_value, set_to, spread, read}
use vereda.Merge.Partition.{
  Override, unset, opted_out, overridden, merge_optional, RateLimits, spread_rate_limits,
  partition_rate_limit, number_of, setting_of,
}

-- What the validation of a rate limit tests, field by field.
abbrev IsRate : Field Number → Type 0
IsRate f = is_positive_finite (number_of (read f)) ≡ true

abbrev Passes : (test : Number → Bool) → Field Number → Type 0
Passes test f = (x : Number) → read f ≡ some x → test x ≡ true

abbrev is_burst : Number → Bool
is_burst n = is_finite n && less_eq (num 1) n

abbrev is_wait : Number → Bool
is_wait ms = less_eq (num 0) ms

abbrev IsSound : RateLimits → Type 0
IsSound r = IsRate r.tokens_per_sec × (Passes is_burst r.burst × Passes is_wait r.max_wait_ms)

spread-IsRate : (g p : Field Number) → IsRate g → IsRate p → IsRate (spread g p)
spread-IsRate g missing v w = v
spread-IsRate g undefined_value v w = w
spread-IsRate g (set_to x) v w = w

spread-Passes :
    (test : Number → Bool) (g p : Field Number)
    → Passes test g
    → Passes test p
    → Passes test (spread g p)
spread-Passes test g missing v w = v
spread-Passes test g undefined_value v w = w
spread-Passes test g (set_to x) v w = w

when_set-Passes :
    (test : Number → Bool) (path : List String) (rule : Rule) (f : Field Number)
    → when_set (read f) (λ x. check (test x) path rule) ≡ none
    → Passes test f
when_set-Passes test path rule f h x e =
    check-true (test x) path rule (sym (ap (λ o. when_set o (λ y. check (test y) path rule)) e) ∙ h)

Passes-when_set :
    (test : Number → Bool) (path : List String) (rule : Rule) (f : Field Number)
    → Passes test f
    → when_set (read f) (λ x. check (test x) path rule) ≡ none
Passes-when_set test path rule missing v = refl
Passes-when_set test path rule undefined_value v = refl
Passes-when_set test path rule (set_to x) v = ap (λ b. check b path rule) (v x refl)

accepted-IsSound :
    (r : RateLimits) (prefix : List String)
    → validate_rate_limit (setting_of (overridden r)) prefix ≡ none
    → IsSound r
unfolding validate_rate_limit
accepted-IsSound r prefix e =
    let at_ : String → List String = λ field. prefix ++ (field ∷ []) in
    let wait : Option Violation =
      when_set (read r.max_wait_ms) (λ x. check (is_wait x) (at_ "maxWaitMs") non_negative) in
    let burst : Option Violation =
      when_set (read r.burst) (λ x. check (is_burst x) (at_ "burst") finite_from_one) in
    let rate : Bool = is_positive_finite (number_of (read r.tokens_per_sec)) in
    let path : List String = at_ "tokensPerSec" in
    let first = both_checked (check rate path positive_finite) (check_all (burst ∷ wait ∷ [])) e in
    let second = both_checked burst (check_all (wait ∷ [])) first.1 in
    (
      check-true rate path positive_finite first.0,
      (
        when_set-Passes is_burst (at_ "burst") finite_from_one r.burst second.0,
        when_set-Passes is_wait (at_ "maxWaitMs") non_negative r.max_wait_ms
            (both_checked wait none second.1).0,
      ),
    )

IsSound-accepted :
    (r : RateLimits) (prefix : List String)
    → IsSound r
    → validate_rate_limit (setting_of (overridden r)) prefix ≡ none
unfolding validate_rate_limit
IsSound-accepted r prefix v =
    let burst = Passes-when_set is_burst (prefix ++ ("burst" ∷ [])) finite_from_one r.burst v.1.0 in
    let wait =
      Passes-when_set is_wait (prefix ++ ("maxWaitMs" ∷ [])) non_negative r.max_wait_ms v.1.1 in
    rw (v.0, burst, wait) refl

spread_rate_limits-IsSound :
    (g p : RateLimits) → IsSound g → IsSound p → IsSound (spread_rate_limits g p)
spread_rate_limits-IsSound g p v w = (
  spread-IsRate g.tokens_per_sec p.tokens_per_sec v.0 w.0,
  (
    spread-Passes is_burst g.burst p.burst v.1.0 w.1.0,
    spread-Passes is_wait g.max_wait_ms p.max_wait_ms v.1.1 w.1.1,
  ),
)

-- A setting that holds an object holds one of which `P` is true.
abbrev Overrides : {T : Type 0} → (P : T → Type 0) → Override T → Type 0
Overrides P unset = Unit {0}
Overrides P opted_out = Unit {0}
Overrides P (overridden t) = P t

abbrev AcceptedAt : List String → RateLimits → Type 0
AcceptedAt prefix r = validate_rate_limit (setting_of (overridden r)) prefix ≡ none

-- The messages' prefix does not matter.
setting-Overrides :
    (o : Override RateLimits) (q prefix : List String)
    → validate_rate_limit (setting_of o) q ≡ none
    → Overrides (AcceptedAt prefix) o
setting-Overrides unset q prefix e = tt
setting-Overrides opted_out q prefix e = tt
setting-Overrides (overridden r) q prefix e = IsSound-accepted r prefix (accepted-IsSound r q e)

abbrev Holds : {T : Type 0} → (P : T → Type 0) → Option T → Type 0
Holds P none = Unit {0}
Holds P (some t) = P t

-- What is true of both sides, and kept by their spread, is true of the merged setting, if there is one.
pub merge_optional-Holds :
    {T : Type 0}
    → (P : T → Type 0) (join : T → T → T) (global partition : Override T)
    → ((g p : T) → P g → P p → P (join g p))
    → Overrides P global
    → Overrides P partition
    → Holds P (merge_optional join global partition)
unfolding merge_optional
merge_optional-Holds P join unset unset keeps v w = tt
merge_optional-Holds P join unset opted_out keeps v w = tt
merge_optional-Holds P join unset (overridden p) keeps v w = w
merge_optional-Holds P join opted_out unset keeps v w = tt
merge_optional-Holds P join opted_out opted_out keeps v w = tt
merge_optional-Holds P join opted_out (overridden p) keeps v w = tt
merge_optional-Holds P join (overridden g) unset keeps v w = v
merge_optional-Holds P join (overridden g) opted_out keeps v w = tt
merge_optional-Holds P join (overridden g) (overridden p) keeps v w = keeps g p v w

-- A partition's bucket is made of legal numbers: when the client's rate limit and the partition's were
-- accepted, so is the one that the partition gets from them, if it gets one.
pub partition_rate_limit-accepted :
    (global partition : Override RateLimits) (q r prefix : List String)
    → validate_rate_limit (setting_of global) q ≡ none
    → validate_rate_limit (setting_of partition) r ≡ none
    → Holds (AcceptedAt prefix) (partition_rate_limit global partition)
unfolding partition_rate_limit
partition_rate_limit-accepted global partition q r prefix e h =
    merge_optional-Holds (AcceptedAt prefix) spread_rate_limits global partition
      (λ g p v w. IsSound-accepted (spread_rate_limits g p) prefix (
        spread_rate_limits-IsSound g p (accepted-IsSound g prefix v) (accepted-IsSound p prefix w)))
      (setting-Overrides global q prefix e) (setting-Overrides partition r prefix h)

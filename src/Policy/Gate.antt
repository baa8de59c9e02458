-- ===== src/Policy/Gate.antt =====
-- The retry gate, rule by rule.
use vereda.Common.{ℕ, ◌≡◌, ◌↔◌, ◌⊎◌, true, false, some, arith}
use vereda.Errors.{AppError, kind}
use vereda.Policy.{
  RetryPolicyContext, RetryWhen, retriable_kind, is_idempotent_method, has_idempotency_key,
  default_retry_policy, vetoes, should_retry,
}

-- The gate lets a retry through exactly when the error is of a transient kind, the request is safe
-- to repeat (an idempotent method, the `idempotent` option or an `Idempotency-Key` header), and
-- the caller's `retryWhen`, where there is one, does not veto it.
should_retry_iff :
    (e : AppError) (attempt : ℕ) (ctx : RetryPolicyContext) (retry_when : RetryWhen)
    → (should_retry e attempt ctx retry_when ≡ true) ↔ (
        (retriable_kind (kind e) ≡ true)
        × ((is_idempotent_method ctx.method ≡ true)
            ⊎ (ctx.idempotent ≡ some true)
            ⊎ (has_idempotency_key ctx.headers ≡ true))
        × (vetoes retry_when e attempt ≡ false))
unfolding should_retry default_retry_policy
should_retry_iff e attempt ctx retry_when = (λ h. ground arith, λ h. ground arith)

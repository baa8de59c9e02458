-- ===== src/Policy/Examples.antt =====
-- The retry gate at a POST with an idempotency key.
use vereda.Common.{◌≡◌, true, none, some, [], ◌∷◌, refl}
use vereda.Common.Text.{codes}
use vereda.Errors.{AppError, retryable_status_error}
use vereda.Policy.{
  RetryPolicyContext, is_idempotent_method, has_idempotency_key, should_retry, default_retry_policy,
}

abbrev post : RetryPolicyContext
post = record {
  method = codes "POST";
  headers = some (codes "Idempotency-Key" ∷ []);
  idempotent = none;
}

abbrev unavailable : AppError
unavailable = retryable_status_error 503 none

post_retried : should_retry unavailable 0 post none ≡ true
unfolding should_retry default_retry_policy is_idempotent_method has_idempotency_key
post_retried = refl

lower_case_get : is_idempotent_method (codes "get") ≡ true
unfolding is_idempotent_method
lower_case_get = refl

-- ===== src/Policy.antt =====
-- src/queue/policy.ts: which failed attempts may be retried. Header values do not matter to it, so
-- headers are the list of their names; a `retryWhen` is a function of the error and the attempt.
pub mod Gate
mod Examples
use vereda.Common.{
  ℕ, Bool, true, false, not, ◌&&◌, ◌||◌, Option, none, some, List, [], ◌∷◌, map, if◌then◌else◌,
  or_default,
}
use vereda.Common.Text.{Text, codes, text_eq, has_text, to_upper_case, to_lower_case}
use vereda.Errors.{AppError, Kind, kind, network, timeout, retryable_status}

pub record RetryPolicyContext : Type 0 where
  pub method : Text
  pub headers : Option (List Text)
  pub idempotent : Option Bool

abbrev pub retriable_kind : Kind → Bool
retriable_kind network = true
retriable_kind timeout = true
retriable_kind retryable_status = true
retriable_kind _ = false

abbrev idempotent_methods : List Text
idempotent_methods =
    codes "GET" ∷ codes "HEAD" ∷ codes "OPTIONS" ∷ codes "PUT" ∷ codes "DELETE" ∷ []

unfoldable pub is_idempotent_method : Text → Bool
is_idempotent_method method = has_text (to_upper_case method) idempotent_methods

-- `new Headers(headers).has("idempotency-key")`, where names are compared in lower case.
unfoldable pub has_idempotency_key : Option (List Text) → Bool
has_idempotency_key none = false
has_idempotency_key (some names) = has_text (codes "idempotency-key") (map to_lower_case names)

unfoldable pub default_retry_policy : AppError → (attempt : ℕ) → RetryPolicyContext → Bool
default_retry_policy error attempt ctx =
    if not (retriable_kind (kind error))
    then false
    else if is_idempotent_method ctx.method
    then true
    else if or_default ctx.idempotent false
    then true
    else if has_idempotency_key ctx.headers
    then true
    else false

abbrev pub RetryWhen : Type 0
RetryWhen = Option (AppError → ℕ → Bool)

-- `retryWhen && !retryWhen(error, attempt)`.
abbrev pub vetoes : RetryWhen → AppError → ℕ → Bool
vetoes none error attempt = false
vetoes (some retry_when) error attempt = not (retry_when error attempt)

unfoldable pub should_retry : AppError → ℕ → RetryPolicyContext → RetryWhen → Bool
should_retry error attempt ctx retry_when =
    if not (default_retry_policy error attempt ctx)
    then false
    else if vetoes retry_when error attempt
    then false
    else true

-- ===== src/Middleware/Examples.antt =====
-- A request with its own authorization, and a logger whose sink throws.
use vereda.Common.{ℕ, ◌≡◌, refl, true, none, [], ◌∷◌, arith}
use vereda.Common.Text.{Text, codes}
use vereda.Idempotency.{Headers, values_of}
use vereda.Redact
use vereda.Middleware.{Ended, returned, completed, default_headers, request_logger}
use vereda.Middleware.Defaults.{own_or, values_of-default_headers}

abbrev defaults : Headers
defaults = (codes "authorization", codes "base") ∷ (codes "x-api-key", codes "k") ∷ []

abbrev own : Headers
own = (codes "Authorization", codes "mine") ∷ []

sent :
    default_headers defaults own
    ≡ (codes "Authorization", codes "mine") ∷ (codes "x-api-key", codes "k") ∷ []
unfolding default_headers
sent = refl

values_of-default_headers_example :
    values_of (codes "authorization") (default_headers defaults own)
    ≡ own_or (values_of (codes "authorization") own) (values_of (codes "authorization") defaults)
values_of-default_headers_example =
    values_of-default_headers (codes "authorization") defaults own (omega arith)

abbrev response : Ended ℕ Text
response = returned 200

logged :
    (request_logger
      (λ s. s)
      (λ m. m)
      none
      (λ l. true)
      (codes "https://a.b/?k=v")
      5
      12
      response).lines
    ≡ completed (codes "https://a.b/?k=[redacted]") 200 7 ∷ []
unfolding request_logger Redact.redact_url Redact.redact_query_values Redact.redact_userinfo
logged = refl

kept :
    (request_logger
      (λ s. s)
      (λ m. m)
      none
      (λ l. true)
      (codes "https://a.b/?k=v")
      5
      12
      response).ended
    ≡ response
unfolding request_logger
kept = refl

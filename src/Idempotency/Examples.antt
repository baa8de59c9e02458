-- ===== src/Idempotency/Examples.antt =====
-- A POST request with one header of its own, and a generated key.
use vereda.Common.{◌≡◌, refl, true, none, some, [], ◌∷◌}
use vereda.Common.Text.{codes}
use vereda.Policy.{is_idempotent_method}
use vereda.Idempotency.{
  Headers, with_headers, throws, generator_empty, on_, generator, gave, KeySetting, KeyRequest,
  with_idempotency_key,
}
use vereda.Idempotency.Retried.{
  Sent, AllRetried, context, sent_headers, with_idempotency_key-AllRetried,
}

abbrev given : Headers
given = (codes "accept", codes "text/html") ∷ []

abbrev post : KeySetting → KeyRequest
post setting = record {
  setting = setting;
  method = some (codes "POST");
  headers = some given;
  uuid = codes "4d2c";
  is_value = λ key. true;
}

key_added :
    with_idempotency_key (post on_)
    ≡ with_headers
        ((codes "accept", codes "text/html") ∷ (codes "idempotency-key", codes "4d2c") ∷ [])
unfolding with_idempotency_key is_idempotent_method
key_added = refl

blank_key_refused :
    with_idempotency_key (post (generator (gave (codes "  ")))) ≡ throws generator_empty
unfolding with_idempotency_key is_idempotent_method
blank_key_refused = refl

with_idempotency_key-AllRetried_example :
    Sent
      (λ hs. AllRetried (context (post on_) none hs))
      (sent_headers given (with_idempotency_key (post on_)))
with_idempotency_key-AllRetried_example =
    with_idempotency_key-AllRetried (post on_) none given refl refl

-- ===== src/Idempotency/Retried.antt =====
-- What a key means for the retries of a request.
use vereda.Common.{
  ℕ, ◌≡◌, refl, sym, ap, ◌∙◌, Bool, true, false, not, Option, none, some, List, [], ◌∷◌, ◌++◌, map,
  inl, inr, Bool-cases, or_default, if◌then◌else◌, arith,
}
use vereda.Common.Text.{Text, codes, has_text, to_lower_case}
use vereda.Errors.{AppError, kind}
use vereda.Policy.{
  RetryPolicyContext, retriable_kind, is_idempotent_method, has_idempotency_key,
  default_retry_policy,
}
use vereda.Idempotency.{
  Generated, threw, no_text, gave, off, generator, is_on, is_blank, with_generated, header, Headers,
  KeySetting, on_, KeyRequest, Keyed, as_given, with_headers, throws, is_named, values_of, combined,
  has_value, remove_named, set_key, with_setting, with_checked, with_idempotency_key,
}

-- The names of the headers, which are what the retry policy looks at.
abbrev pub names : Headers → List Text
names [] = []
names ((n, v) ∷ hs) = n ∷ names hs

-- The headers that the attempts are sent with: none where the call throws.
abbrev pub sent_headers : Headers → Keyed → Option Headers
sent_headers given as_given = some given
sent_headers given (with_headers hs) = some hs
sent_headers given (throws e) = none

abbrev pub context : KeyRequest → Option Bool → Headers → RetryPolicyContext
context req idempotent hs = record {
  method = or_default req.method (codes "GET");
  headers = some (names hs);
  idempotent = idempotent;
}

-- Whether every transient error is retried by default.
abbrev pub AllRetried : RetryPolicyContext → Type 0
AllRetried ctx = (e : AppError) (n : ℕ) → default_retry_policy e n ctx ≡ retriable_kind (kind e)

kept_kind : (k : Bool) → (if not k then false else true) ≡ k
kept_kind true = refl
kept_kind false = refl

key_decides :
    (k m i : Bool) → (if not k then false else if m then true else if i then true else true) ≡ k
key_decides true true i = refl
key_decides true false true = refl
key_decides true false false = refl
key_decides false m i = refl

retried_by_method :
    (ctx : RetryPolicyContext) → is_idempotent_method ctx.method ≡ true → AllRetried ctx
unfolding default_retry_policy
retried_by_method ctx h e n = rw h (kept_kind (retriable_kind (kind e)))

retried_by_key :
    (ctx : RetryPolicyContext) → has_idempotency_key ctx.headers ≡ true → AllRetried ctx
unfolding default_retry_policy
retried_by_key ctx h e n = rw h (
    key_decides (retriable_kind (kind e)) (is_idempotent_method ctx.method)
      (or_default ctx.idempotent false))

named-has :
    (hs : Headers)
    → has_value (combined (values_of header hs)) ≡ true
    → has_text header (map to_lower_case (names hs)) ≡ true
named-has [] h = ground (arith, h)
named-has ((n, v) ∷ hs) h = elim (Bool-cases (is_named header (n, v))) [
  | inl e ↦ rw e refl
  | inr e ↦
      let same : values_of header ((n, v) ∷ hs) ≡ values_of header hs = rw e refl in
      rw e (named-has hs (ap (λ vs. has_value (combined vs)) (sym same) ∙ h))
]

set-has :
    (hs : Headers) (key : Text)
    → has_text header (map to_lower_case (names (hs ++ ((header, key) ∷ [])))) ≡ true
set-has [] key = refl
set-has ((n, v) ∷ hs) key = elim (Bool-cases (is_named header (n, v))) [
  | inl e ↦ rw e refl
  | inr e ↦ rw e (set-has hs key)
]

-- What is said of the headers that the attempts are sent with, if any are.
abbrev pub Sent : (Headers → Type 0) → Option Headers → Type 0
Sent P none = Unit {0}
Sent P (some hs) = P hs

module _ (req : KeyRequest) (idempotent : Option Bool) (given : Headers) where
  abbrev Retried : Keyed → Type 0
  Retried k = Sent (λ hs. AllRetried (context req idempotent hs)) (sent_headers given k)

  set_key-Retried : (hs : Headers) (key : Text) → Retried (set_key req hs key)
  unfolding has_idempotency_key
  set_key-Retried hs key = elim (Bool-cases (req.is_value key)) [
    | inl e ↦ rw e (
        retried_by_key (context req idempotent (remove_named header hs ++ ((header, key) ∷ [])))
          (set-has (remove_named header hs) key))
    | inr e ↦ rw e tt
  ]

  with_generated-Retried : (hs : Headers) (g : Generated) → Retried (with_generated req hs g)
  with_generated-Retried hs threw = tt
  with_generated-Retried hs no_text = tt
  with_generated-Retried hs (gave key) = elim (Bool-cases (is_blank key)) [
    | inl e ↦ rw e tt
    | inr e ↦ rw e (set_key-Retried hs key)
  ]

  with_setting-Retried :
      (hs : Headers) (s : KeySetting) → is_on s ≡ true → Retried (with_setting req hs s)
  with_setting-Retried hs off h = ground (arith, h)
  with_setting-Retried hs on_ h = set_key-Retried hs req.uuid
  with_setting-Retried hs (generator g) h = with_generated-Retried hs g

  with_checked-Retried : is_on req.setting ≡ true → Retried (with_checked req (some given))
  unfolding has_idempotency_key
  with_checked-Retried h = elim (Bool-cases (has_value (combined (values_of header given)))) [
    | inl e ↦ rw e (retried_by_key (context req idempotent given) (named-has given e))
    | inr e ↦ rw e (with_setting-Retried given req.setting h)
  ]

-- With `idempotencyKey` on, a request that is sent at all is retried by default after every transient
-- error: for any method, headers and generator, either the key's setting makes the call throw, or the
-- default policy retries each attempt with the headers it is sent with exactly when the
-- error is of a transient kind.
pub with_idempotency_key-AllRetried :
    (req : KeyRequest) (idempotent : Option Bool) (given : Headers)
    → is_on req.setting ≡ true
    → req.headers ≡ some given
    → Sent
        (λ hs. AllRetried (context req idempotent hs))
        (sent_headers given (with_idempotency_key req))
unfolding with_idempotency_key
with_idempotency_key-AllRetried req idempotent given h g =
    let method : Text = or_default req.method (codes "GET") in
    elim (Bool-cases (is_idempotent_method method)) [
      | inl e ↦ rw (h, e) (retried_by_method (context req idempotent given) e)
      | inr e ↦ rw (h, e, g) (with_checked-Retried req idempotent given h)
    ]

-- ===== src/Idempotency.antt =====
-- src/core/idempotency.ts: withIdempotencyKey. A `Headers` is the list of its names and values, in no
-- order that matters; what a generator answers, a new UUID and which values a header can carry are
-- parameters.
pub mod Retried
mod Examples
use vereda.Common.{
  ℕ, Bool, true, false, not, Option, none, some, List, [], ◌∷◌, ◌++◌, map, or_default,
  if◌then◌else◌,
}
use vereda.Common.Text.{Text, codes, text_eq, to_lower_case}
use vereda.Policy.{is_idempotent_method}
use vereda.RetryAfter.{trim}

abbrev pub header : Text
header = codes "idempotency-key"

abbrev pub Headers : Type 0
Headers = List (Text × Text)

-- What the caller's generator does.
pub data Generated : Type 0 where
  threw no_text : Generated
  gave : Text → Generated

-- `retry.idempotencyKey`.
pub data KeySetting : Type 0 where
  off on_ : KeySetting
  generator : Generated → KeySetting

pub record KeyRequest : Type 0 where
  pub setting : KeySetting
  pub method : Option Text
  pub headers : Option Headers  -- none when they cannot form a `Headers`
  pub uuid : Text
  pub is_value : Text → Bool  -- whether a header can carry it

pub data KeyError : Type 0 where
  headers_not_valid generator_threw generator_empty key_not_valid : KeyError

-- The headers of the options that are returned, or the error that is thrown.
pub data Keyed : Type 0 where
  as_given : Keyed
  with_headers : Headers → Keyed
  throws : KeyError → Keyed

abbrev pub is_named : Text → Text × Text → Bool
is_named name (n, v) = text_eq (to_lower_case n) name

abbrev pub values_of : Text → Headers → List Text
values_of name [] = []
values_of name (h ∷ hs) =
    let rest = values_of name hs in if is_named name h then h.1 ∷ rest else rest

abbrev pub join_values : Text → List Text → Text
join_values v [] = v
join_values v (w ∷ ws) = v ++ (codes ", " ++ join_values w ws)

-- `headers.get(name)`.
abbrev pub combined : List Text → Option Text
combined [] = none
combined (v ∷ vs) = some (join_values v vs)

abbrev pub is_empty : Text → Bool
is_empty [] = true
is_empty (c ∷ t) = false

abbrev pub is_blank : Text → Bool
is_blank t = is_empty (trim t)

-- `existing !== null && existing.trim() !== ""`.
abbrev pub has_value : Option Text → Bool
has_value none = false
has_value (some t) = not (is_blank t)

-- `headers.set(HEADER, key)`.
abbrev pub remove_named : Text → Headers → Headers
remove_named name [] = []
remove_named name (h ∷ hs) =
    let rest = remove_named name hs in if is_named name h then rest else h ∷ rest

abbrev pub set_key : KeyRequest → Headers → Text → Keyed
set_key req hs key =
    if req.is_value key
    then with_headers (remove_named header hs ++ ((header, key) ∷ []))
    else throws key_not_valid

abbrev pub with_generated : KeyRequest → Headers → Generated → Keyed
with_generated req hs threw = throws generator_threw
with_generated req hs no_text = throws generator_empty
with_generated req hs (gave key) =
    if is_blank key then throws generator_empty else set_key req hs key

abbrev pub with_setting : KeyRequest → Headers → KeySetting → Keyed
with_setting req hs off = as_given
with_setting req hs on_ = set_key req hs req.uuid
with_setting req hs (generator g) = with_generated req hs g

abbrev pub with_checked : KeyRequest → Option Headers → Keyed
with_checked req none = throws headers_not_valid
with_checked req (some hs) =
    if has_value (combined (values_of header hs)) then as_given else with_setting req hs req.setting

abbrev pub is_on : KeySetting → Bool
is_on off = false
is_on _ = true

unfoldable pub with_idempotency_key : KeyRequest → Keyed
with_idempotency_key req =
    if not (is_on req.setting)
    then as_given
    else if is_idempotent_method (or_default req.method (codes "GET"))
    then as_given
    else with_checked req req.headers

-- ===== src/FaultyFetch/Examples.antt =====
-- The generator with seed 42, three calls of which one is not matched, and a status fault.
use vereda.Common.{
  ◌≡◌, refl, inl, inr, Bool, true, false, not, ◌&&◌, Option, none, some, List, [], ◌∷◌,
  if◌then◌else◌, arith,
}
use vereda.Common.Text.{codes}
use vereda.Common.Number.{num, fraction}
use vereda.FaultyFetch.{state_at, mulberry32, call}
use vereda.FaultyFetch.Options.{
  Value, GivenFault, FaultyFetchOptions, is_status, bodyless, validate, at_fault, body_not_allowed,
}
use vereda.FaultyFetch.Faults.{live, faulty_call}
use vereda.FaultyFetch.Works.{Documented, EndsAs, faulty_call-fine}

first_draw : mulberry32 42 0 ≡ 2581720956
unfolding mulberry32 state_at
first_draw = refl

third_draw : mulberry32 42 2 ≡ 3661312704
unfolding mulberry32 state_at
third_draw = refl

abbrev calls : List Bool
calls = true ∷ false ∷ true ∷ []

-- A `new Response` that fails where the platform's does.
abbrev made_of : Value → Option Value → Option (Value × Option Value)
made_of status none = if is_status status then some (status, none) else none
made_of status (some body) =
    if is_status status && not (bodyless status) then some (status, some body) else none

made_of-Documented : Documented made_of
made_of-Documented x none h b = ((Value.number x, none), rw h refl)
made_of-Documented x (some t) h (inl b) =
    ((Value.number x, some (Value.text t)), ground (arith, h, b))
made_of-Documented x (some t) h (inr b) = absurd (cc)

abbrev unavailable : GivenFault
unavailable = record {
  is_object = true;
  status = some (Value.number (num 503));
  latency_ms = none;
  network_error = none;
  hang = none;
  retry_after = Value.number (num 1);
  body = Value.text (codes "busy");
  headers_form = true;
}

abbrev options : List GivenFault → FaultyFetchOptions
options faults = record {
  match_ = Value.undefined;
  rate = Value.number (fraction false 1 1);
  seed = Value.number (num 42);
  faults = some faults;
}

-- No body goes with 204, however the number is written.
no_content :
    validate Value.function (
      some
        (options (record unavailable { status = some (Value.number (fraction false 408 1)) } ∷ [])))
    ≡ some (at_fault 0 body_not_allowed)
unfolding validate
no_content = refl

valid : validate Value.function (some (options (unavailable ∷ []))) ≡ none
unfolding validate
valid = refl

faulty_call-fine_example :
    EndsAs made_of
      (unavailable ∷ [])
      live
      (call (record { num = 1; den = 2 }) 1 (mulberry32 42) true 0).0
      (faulty_call made_of
        (record { num = 1; den = 2 })
        (unavailable ∷ [])
        (mulberry32 42)
        true
        0
        live)
faulty_call-fine_example =
    faulty_call-fine made_of Value.function (options (unavailable ∷ [])) (unavailable ∷ [])
      (record { num = 1; den = 2 }) (mulberry32 42) true 0 live made_of-Documented valid refl

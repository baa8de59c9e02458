-- ===== src/FaultyFetch/Works.antt =====
-- With options that faultyFetch accepts, a call ends as the fault that was drawn for it asks.
use vereda.Common.{
  ℕ, zero, suc, ◌+◌, ◌*◌, ◌<◌, ◌≡◌, ◌≢◌, refl, sym, ap, ◌∙◌, subst, ◌⊎◌, inl, inr, Bool, true,
  false, not, ◌&&◌, Option, none, some, List, [], ◌∷◌, get_elem?, length, Option-cases, arith, ltb,
}
use vereda.Common.Text.{Text}
use vereda.Common.Number.{Number}
use vereda.FaultyFetch.{Rate, Answer, faulted, answer, pick_of, call, word}
use vereda.FaultyFetch.Options.{
  Value, GivenFault, FaultyFetchOptions, keys, is_bodyless, bodyless, is_status, is_set, is_text,
  check_status, check_keys, is_true, check_faults, check_list, validate,
}
use vereda.FaultyFetch.Faults.{
  Signal, absent, live, aborted, Outcome, calls_inner, rejects_with_reason, network_failure, hangs,
  responds, waits, body_of, respond, by_status, inject, settle, faulty_call,
}

get_elem?-lt : {A : Type 0} (xs : List A) (i : ℕ) → i < length xs → get_elem? xs i ≢ none
get_elem?-lt [] i h e = absurd (omega arith)
get_elem?-lt (x ∷ xs) zero h e = cc
get_elem?-lt (x ∷ xs) (suc i) h e = get_elem?-lt xs i (omega arith) e

some_inj : (g f : GivenFault) → some g ≡ some f → g ≡ f
some_inj g f e = cc

-- The fault that stands at a place of a list that was accepted.
accepted_at :
    (i p : ℕ) (fs : List GivenFault) (f : GivenFault)
    → check_faults i fs ≡ none
    → get_elem? fs p ≡ some f
    → check_keys f (keys f) ≡ none
accepted_at i p [] f h e = absurd (cc)
accepted_at i zero (g ∷ fs) f h e = elim (Option-cases (check_keys g (keys g))) [
  | inl fine ↦ subst (λ k. check_keys k (keys k) ≡ none) (some_inj g f e) fine
  | inr (m, bad) ↦ absurd (ground (arith, bad, h))
]
accepted_at i (suc p) (g ∷ fs) f h e = elim (Option-cases (check_keys g (keys g))) [
  | inl fine ↦ accepted_at (suc i) p fs f (ground (arith, fine, h)) e
  | inr (m, bad) ↦ absurd (ground (arith, bad, h))
]

-- The body of a response: what the fault gives as its text, or none.
abbrev pub IsBody : Value → Option Value → Type 0
IsBody Value.undefined b = b ≡ none
IsBody (Value.text t) b = b ≡ some (Value.text t)
IsBody v b = ⊥

-- The call ends as the fault asks.
abbrev pub DoesAs :
    {R : Type 0}
    → (new_response : Value → Option Value → Option R) → GivenFault
    → Outcome R
    → Type 0
DoesAs new_response f (responds r) =
    (v : Value) × (b : Option Value) × (f.status ≡ some v)
    × IsBody f.body b
    × (new_response v b ≡ some r)
DoesAs new_response f (waits ms) = f.latency_ms ≡ some ms
DoesAs new_response f network_failure = f.network_error ≡ some (Value.boolean true)
DoesAs new_response f hangs = f.hang ≡ some (Value.boolean true)
DoesAs new_response f o = ⊥

-- What becomes of a call that was given an answer.
abbrev pub EndsAs :
    {R : Type 0}
    → (new_response : Value → Option Value → Option R) → List GivenFault
    → Signal
    → Answer
    → Outcome R
    → Type 0
EndsAs new_response fs aborted (faulted pick) o = o ≡ rejects_with_reason
EndsAs new_response fs absent (faulted pick) o =
    (f : GivenFault) × (get_elem? fs pick ≡ some f) × DoesAs new_response f o
EndsAs new_response fs live (faulted pick) o =
    (f : GivenFault) × (get_elem? fs pick ≡ some f) × DoesAs new_response f o
EndsAs new_response fs s answer o = o ≡ calls_inner

-- What the platform says of `new Response`: an integer status from 200 to 599, and no body where
-- the status allows none.
abbrev pub Documented : {R : Type 0} → (Value → Option Value → Option R) → Type 0
Documented {R} new_response =
    (x : Number) (body : Option Text)
    → is_status (Value.number x) ≡ true
    → is_bodyless x ≡ false ⊎ (body ≡ none)
    → (r : R) × (new_response (Value.number x)
          (elim body [ none ↦ none | some t ↦ some (Value.text t) ])
        ≡ some r)

module _ {R : Type 0} (new_response : Value → Option Value → Option R)
    (documented : Documented new_response) where
  made_for :
      (status body : Value)
      → is_status status ≡ true
      → (bodyless status && is_set body) ≡ false
      → (is_set body && not (is_text body)) ≡ false
      → IsBody body (body_of body) × ((r : R) × (new_response status (body_of body) ≡ some r))
  made_for (Value.number x) Value.undefined h b t = (refl, documented x none h (inr refl))
  made_for (Value.number x) (Value.text u) h b t =
      (refl, documented x (some u) h (inl (ground (arith, b))))
  made_for (Value.number x) Value.null h b t = absurd (cc)
  made_for (Value.number x) Value.function h b t = absurd (cc)
  made_for (Value.number x) Value.array h b t = absurd (cc)
  made_for (Value.number x) Value.object h b t = absurd (cc)
  made_for (Value.number x) (Value.number y) h b t = absurd (cc)
  made_for (Value.number x) (Value.boolean y) h b t = absurd (cc)
  made_for Value.undefined body h b t = absurd (cc)
  made_for Value.null body h b t = absurd (cc)
  made_for Value.function body h b t = absurd (cc)
  made_for Value.array body h b t = absurd (cc)
  made_for Value.object body h b t = absurd (cc)
  made_for (Value.text u) body h b t = absurd (cc)
  made_for (Value.boolean u) body h b t = absurd (cc)

  responds_as :
      (f : GivenFault) (status : Value)
      → f.status ≡ some status
      → check_status f status ≡ none
      → DoesAs new_response f (respond new_response f status)
  unfolding check_status
  responds_as f status e h =
      let (is_body, (r, made)) =
        made_for status f.body (ground (arith, h)) (ground (arith, h)) (ground (arith, h)) in
      let forms : f.headers_form ≡ true = ground (arith, h) in
      rw (forms, made) (status, body_of f.body, e, is_body, made)

  true_of : (v : Value) → is_true v ≡ true → v ≡ Value.boolean true
  true_of (Value.boolean true) h = refl
  true_of (Value.boolean false) h = absurd (cc)
  true_of Value.undefined h = absurd (cc)
  true_of Value.null h = absurd (cc)
  true_of Value.function h = absurd (cc)
  true_of Value.array h = absurd (cc)
  true_of Value.object h = absurd (cc)
  true_of (Value.number x) h = absurd (cc)
  true_of (Value.text x) h = absurd (cc)

  -- The fault's four keys, as `inject` tests them.
  by_keys :
      (f : GivenFault) (a b c d : Option Value)
      → f.status ≡ a
      → f.latency_ms ≡ b
      → f.network_error ≡ c
      → f.hang ≡ d
      → check_keys f (keys f) ≡ none
      → DoesAs new_response f (by_status new_response f f.status)
  by_keys f (some v) none none none p q r s h =
      subst (λ o. DoesAs new_response f (by_status new_response f o)) (sym p)
        (responds_as f v p (ground (arith, h, p, q, r, s)))
  by_keys f none (some v) none none p q r s h = rw (p, q) refl
  by_keys f none none (some v) none p q r s h =
      let e : v ≡ Value.boolean true = true_of v (ground (arith, h, p, q, r, s)) in
      rw (p, q, r) (ap some e)
  by_keys f none none none (some v) p q r s h =
      let e : v ≡ Value.boolean true = true_of v (ground (arith, h, p, q, r, s)) in
      rw (p, q, r) (s ∙ ap some e)
  by_keys f none none none none p q r s h = absurd (ground (arith, h, p, q, r, s))
  by_keys f (some v) (some w) c d p q r s h = absurd (ground (arith, h, p, q, r, s))
  by_keys f (some v) none (some w) d p q r s h = absurd (ground (arith, h, p, q, r, s))
  by_keys f (some v) none none (some w) p q r s h = absurd (ground (arith, h, p, q, r, s))
  by_keys f none (some v) (some w) d p q r s h = absurd (ground (arith, h, p, q, r, s))
  by_keys f none (some v) none (some w) p q r s h = absurd (ground (arith, h, p, q, r, s))
  by_keys f none none (some v) (some w) p q r s h = absurd (ground (arith, h, p, q, r, s))

  inject_as :
      (f : GivenFault)
      → check_keys f (keys f) ≡ none
      → DoesAs new_response f (by_status new_response f f.status)
  inject_as f h = by_keys f f.status f.latency_ms f.network_error f.hang refl refl refl refl h

  found_as :
      (fs : List GivenFault) (pick : ℕ)
      → check_faults 0 fs ≡ none
      → pick < length fs
      → (f : GivenFault) × (get_elem? fs pick ≡ some f)
        × DoesAs new_response f (inject new_response (get_elem? fs pick) live)
  found_as fs pick h lt = elim (Option-cases (get_elem? fs pick)) [
    | inl none' ↦ absurd (get_elem?-lt fs pick lt none')
    | inr (f, e) ↦ (
      f,
      e,
      subst (λ o. DoesAs new_response f (inject new_response o live)) (sym e)
          (inject_as f (accepted_at 0 pick fs f h e)),
    )
  ]

  picked_as :
      (fs : List GivenFault) (pick : ℕ) (s : Signal)
      → check_faults 0 fs ≡ none
      → pick < length fs
      → EndsAs new_response fs s (faulted pick) (inject new_response (get_elem? fs pick) s)
  picked_as fs pick aborted h lt = refl
  picked_as fs pick absent h lt = found_as fs pick h lt
  picked_as fs pick live h lt = found_as fs pick h lt

  settle_as :
      (fs : List GivenFault) (b : Bool) (draw : ℕ) (s : Signal)
      → check_list (some fs) ≡ none
      → EndsAs new_response fs s
          (answer b (pick_of draw (length fs)))
          (settle new_response fs s (answer b (pick_of draw (length fs))))
  settle_as [] b draw s h = absurd (cc)
  settle_as (f ∷ fs) false draw absent h = refl
  settle_as (f ∷ fs) false draw live h = refl
  settle_as (f ∷ fs) false draw aborted h = refl
  settle_as (f ∷ fs) true draw s h =
      picked_as (f ∷ fs) (pick_of draw (length (f ∷ fs))) s h (omega arith)

-- With options that were accepted, whatever the rate, the draws and the state of the caller's signal, and given
-- what the platform documents of `new Response`: a call that gets no fault goes to the inner fetch. One that
-- gets a fault rejects with the reason of a signal that is aborted already; otherwise there is a fault at the
-- place that was picked, and the call does what that fault asks: a response of its status and body is
-- made, it waits its latency before the inner fetch, it fails like the network, or it hangs.
pub faulty_call-fine :
    {R : Type 0} (new_response : Value → Option Value → Option R) (inner : Value)
    (o : FaultyFetchOptions) (fs : List GivenFault) (rate : Rate) (draws : ℕ → ℕ) (matches : Bool)
    (taken : ℕ) (s : Signal)
    → Documented new_response
    → validate inner (some o) ≡ none
    → o.faults ≡ some fs
    → EndsAs new_response fs s
        (call rate (length fs) draws matches taken).0
        (faulty_call new_response rate fs draws matches taken s)
unfolding faulty_call call validate
faulty_call-fine new_response inner o fs rate draws false taken absent doc v e = refl
faulty_call-fine new_response inner o fs rate draws false taken live doc v e = refl
faulty_call-fine new_response inner o fs rate draws false taken aborted doc v e = refl
faulty_call-fine new_response inner o fs rate draws true taken s doc v e =
    let b : Bool = ltb (draws taken * rate.den) (rate.num * word) in
    let listed : check_list o.faults ≡ none = ground (arith, v) in
    settle_as new_response doc fs b (draws (taken + 1)) s
      (subst (λ l. check_list l ≡ none) e listed)

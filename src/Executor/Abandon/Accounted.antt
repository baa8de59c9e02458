-- ===== src/Executor/Abandon/Accounted.antt =====
-- What becomes of the response of a fetch that an abort may overtake.
use vereda.Common.{
  ◌≡◌, ◌⊎◌, refl, inl, inr, Bool, true, false, List, [], ◌∷◌, sym, subst, if-either, if◌then◌else◌,
}
use vereda.Executor.Abandon.{
  Settlement, waits, rejected_with_reason, rejected_with_error, resolved, Pending, runs, failed,
  fulfilled, Race, start, settle, on_abort, Event, aborts, fails, fulfils, step, run,
}

module _ {A : Type 0} where
  abbrev pub Accounted : Pending A → Race A → Type 0
  Accounted runs r =
      ((r.settlement ≡ waits) × (r.listening ≡ true) × (r.released ≡ false) × (r.attached ≡ true))
      ⊎ ((r.settlement ≡ rejected_with_reason) × (r.listening ≡ false) × (r.released ≡ true))
  Accounted failed r =
      ((r.settlement ≡ rejected_with_error) × (r.listening ≡ false) × (r.released ≡ false))
      ⊎ ((r.settlement ≡ rejected_with_reason) × (r.listening ≡ false) × (r.released ≡ true))
  Accounted (fulfilled a) r =
      ((r.settlement ≡ resolved a) × (r.listening ≡ false) × (r.body_cancelled ≡ false))
      ⊎ ((r.settlement ≡ rejected_with_reason) × (r.listening ≡ false) × (r.body_cancelled ≡ true))

  abort-Accounted :
      (p : Pending A) (r : Race A)
      → r.transport ≡ p
      → Accounted p r
      → Accounted (on_abort r).transport (on_abort r)
  abort-Accounted runs r t (inl (w, l, f, a)) = simp l (rw (t, w) (inr (refl, refl, refl)))
  abort-Accounted runs r t (inr (w, l, f)) = simp l (rw t (inr (w, l, f)))
  abort-Accounted failed r t (inl (w, l, f)) = simp l (rw t (inl (w, l, f)))
  abort-Accounted failed r t (inr (w, l, f)) = simp l (rw t (inr (w, l, f)))
  abort-Accounted (fulfilled a) r t (inl (w, l, f)) = simp l (rw t (inl (w, l, f)))
  abort-Accounted (fulfilled a) r t (inr (w, l, f)) = simp l (rw t (inr (w, l, f)))

  -- A promise that was rejected stays so.
  overtaken :
      (r : Race A) (next : Settlement A)
      → r.settlement ≡ rejected_with_reason
      → (if r.attached then settle r.settlement next else r.settlement) ≡ rejected_with_reason
  overtaken r next h =
      if-either (λ k. k ≡ rejected_with_reason) r.attached
        (subst (λ k. settle k next ≡ rejected_with_reason) (sym h) refl) h

  fails-Accounted :
      (p : Pending A) (r : Race A)
      → r.transport ≡ p
      → Accounted p r
      → Accounted (step r fails).transport (step r fails)
  unfolding step
  fails-Accounted runs r t (inl (w, l, f, a)) = simp t (rw (a, w) (inl (refl, refl, f)))
  fails-Accounted runs r t (inr (w, l, f)) = simp t (inr (overtaken r _ w, refl, f))
  fails-Accounted failed r t v = simp t v
  fails-Accounted (fulfilled a) r t v = simp t v

  fulfils-Accounted :
      (a : A) (p : Pending A) (r : Race A)
      → r.transport ≡ p
      → Accounted p r
      → Accounted (step r (fulfils a)).transport (step r (fulfils a))
  unfolding step
  fulfils-Accounted a runs r t (inl (w, l, f, at)) = simp t (rw (at, w) (inl (refl, refl, f)))
  fulfils-Accounted a runs r t (inr (w, l, f)) = simp t (inr (overtaken r _ w, refl, f))
  fulfils-Accounted a failed r t v = simp t v
  fulfils-Accounted a (fulfilled b) r t v = simp t v

  step-Accounted :
      (e : Event A) (r : Race A)
      → Accounted r.transport r
      → Accounted (step r e).transport (step r e)
  unfolding step
  step-Accounted aborts r v = abort-Accounted r.transport r refl v
  step-Accounted fails r v = fails-Accounted r.transport r refl v
  step-Accounted (fulfils a) r v = fulfils-Accounted a r.transport r refl v

  run-Accounted :
      (es : List (Event A)) (r : Race A)
      → Accounted r.transport r
      → Accounted (run r es).transport (run r es)
  unfolding run
  run-Accounted [] r v = v
  run-Accounted (e ∷ es) r v = run-Accounted es (step r e) (step-Accounted e r v)

start-Accounted :
    (A : Type 0) (aborted : Bool) → let r : Race A = start aborted in Accounted r.transport r
unfolding start
start-Accounted A true = inr (refl, refl, refl)
start-Accounted A false = inl (refl, refl, refl, refl)

-- However the transport and the signal race, also when the signal is aborted before the call: while the
-- transport runs, the promise waits and listens to the signal, or it has been rejected with the signal's
-- reason. Once the transport has failed, it has been rejected with the error, or with the reason. A
-- response that the transport resolves to is the one that the promise resolves with, and then its
-- body is not cancelled, or the promise has been rejected with the reason, and then its body is
-- cancelled. A promise that is settled leaves no listener on the signal.
pub run-start-Accounted :
    {A : Type 0} (aborted : Bool) (es : List (Event A))
    → let r : Race A = run (start aborted) es in Accounted r.transport r
run-start-Accounted {A} aborted es = run-Accounted es (start aborted) (start-Accounted A aborted)

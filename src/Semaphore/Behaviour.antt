-- ===== src/Semaphore/Behaviour.antt =====
-- What single operations of the semaphore do.
use vereda.Common.{
  ℕ, ◌+◌, ◌≤◌, ◌≡◌, refl, ◌↔◌, inl, inr, Bool, true, false, List, [], ◌∷◌, arith, length, count,
  includes, erase, count-erase, length-erase, count-includes, Bool-cases, ltb,
}
use vereda.Errors.{queue_full_error, global}
use vereda.Semaphore.{
  Semaphore, rejected, waiting, acquire, grant, on_abort, drain_from, drain, release,
}
use vereda.Semaphore.Invariant.{Inv}

-- A call is refused with `QueueFullError` exactly when its signal has not aborted, all permits are
-- held and the queue is at its limit; it is then the only trace of the call that its number is used.
acquire_refused :
    (s : Semaphore) (aborted : Bool)
    → ((acquire s aborted).1
        ≡ rejected (queue_full_error "global" (length s.wait_queue) s.max_queue_size global))
      ↔ ((aborted ≡ false) × (s.available ≡ 0) × (s.max_queue_size ≤ length s.wait_queue))
unfolding acquire
acquire_refused s aborted = (λ h. ground arith, λ h. ground arith)

-- One permit comes back to a queue: it goes to the call at the front, and to nobody else.
drain_from_one :
    (w : ℕ) (ws : List ℕ) (s : Semaphore)
    → s.available ≡ 1
    → drain_from (w ∷ ws) s ≡ record s { available = 0; wait_queue = ws; releases = w ∷ s.releases }
unfolding drain_from grant
drain_from_one w [] s h = ground arith
drain_from_one w (x ∷ ws) s h = ground arith

-- A release by a holder while calls wait hands the permit to the call at the front of the queue and
-- to no other: no permit becomes free, the rest of the queue keeps its order.
release_serves_oldest :
    (n m : ℕ) (s : Semaphore) (call w : ℕ) (ws : List ℕ)
    → Inv n m s
    → includes call s.releases ≡ true
    → s.wait_queue ≡ w ∷ ws
    → release s call
      ≡ record s { available = 0; wait_queue = ws; releases = w ∷ erase call s.releases }
unfolding release drain
release_serves_oldest n m s call w ws v held e =
    rw (held, e)
      (drain_from_one w ws
        (record s { available = s.available + 1; releases = erase call s.releases })
        (ground (arith, v.busy)))

drain_from-absent :
    (call : ℕ) (q : List ℕ) (s : Semaphore)
    → count call q ≡ 0
    → includes call s.releases ≡ false
    → includes call (drain_from q s).releases ≡ false
unfolding drain_from grant
drain_from-absent call [] s c h = h
drain_from-absent call (w ∷ ws) s c h = elim (Bool-cases (ltb 0 s.available)) [
  | inl more ↦ rw more (drain_from-absent call ws _ (ground arith) (ground arith))
  | inr done ↦ rw done h
]

-- A release callback has an effect once at most: calling it again changes nothing.
release-release :
    (n m : ℕ) (s : Semaphore) (call : ℕ)
    → Inv n m s
    → release (release s call) call ≡ release s call
unfolding release drain
release-release n m s call v = elim (Bool-cases (includes call s.releases)) [
  | inl held ↦ rw held (
      rw
        (drain_from-absent call s.wait_queue
          (record s { available = s.available + 1; releases = erase call s.releases })
          (ground (arith, v.distinct call, count-includes call s.releases)) (gone held))
        refl)
  | inr again ↦ rw again (rw again refl)
]
  where
    gone : includes call s.releases ≡ true → includes call (erase call s.releases) ≡ false
    gone held = ground (
      arith,
      v.distinct call,
      count-includes call s.releases,
      count-erase call call s.releases,
      count-includes call (erase call s.releases),
    )

-- When a waiting call's signal aborts, its place in a full queue is free: the next call that finds
-- no permit waits there, at the back, instead of being refused.
acquire-on_abort :
    (n m : ℕ) (s : Semaphore) (call : ℕ)
    → Inv n m s
    → includes call s.wait_queue ≡ true
    → (acquire (on_abort s call) false).1 ≡ waiting
unfolding acquire on_abort
acquire-on_abort n m s call v h =
    ground (arith, v.busy, v.bounded, v.limit, length-erase call s.wait_queue)

-- ===== src/Semaphore/Invariant.antt =====
-- What every history of the semaphore keeps.
use vereda.Common.{
  ℕ, ◌+◌, ◌≤◌, ◌≡◌, refl, ◌⊎◌, inl, inr, Bool, List, [], ◌∷◌, arith, length, count, includes,
  count-append, count-erase, length-append, length-erase, Bool-cases, ltb,
}
use vereda.Semaphore.{
  Semaphore, Op, acquires, aborts, releases_call, new, acquire, on_abort, drain_from, drain,
  release, step, run,
}

pub record Inv (permits max_queue_size : ℕ) (s : Semaphore) : Type 0 where
  pub conserved : s.available + length s.releases ≡ permits
  pub busy : (s.wait_queue ≡ []) ⊎ (s.available ≡ 0)
  pub limit : s.max_queue_size ≡ max_queue_size
  pub bounded : length s.wait_queue ≤ max_queue_size
  pub distinct : (call : ℕ) → count call s.wait_queue + count call s.releases ≤ 1
  pub fresh : (call : ℕ) → s.next_call ≤ call → count call s.wait_queue + count call s.releases ≡ 0

pub new-Inv : (permits max_queue_size : ℕ) → Inv permits max_queue_size (new permits max_queue_size)
unfolding new
new-Inv permits m = record {
  conserved = omega arith;
  busy = inl refl;
  limit = refl;
  bounded = omega arith;
  distinct = λ call. omega arith;
  fresh = λ call h. refl;
}

acquire-Inv : (n m : ℕ) (s : Semaphore) (aborted : Bool) → Inv n m s → Inv n m (acquire s aborted).0
unfolding acquire
acquire-Inv n m s aborted v = record {
  conserved = ground arith;
  busy = ground arith;
  limit = ground arith;
  bounded = ground (arith, length-append s.wait_queue (s.next_call ∷ []));
  distinct = λ call.
      ground
        (arith, v.distinct call, v.fresh call, count-append call s.wait_queue (s.next_call ∷ []));
  fresh = λ call h. ground (arith, v.fresh call, count-append call s.wait_queue (s.next_call ∷ []));
}

on_abort-Inv : (n m : ℕ) (s : Semaphore) (call : ℕ) → Inv n m s → Inv n m (on_abort s call)
unfolding on_abort
on_abort-Inv n m s call v = record {
  conserved = v.conserved;
  busy = ground (arith, length-erase call s.wait_queue);
  limit = v.limit;
  bounded = omega (arith, v.bounded, length-erase call s.wait_queue);
  distinct = λ c. ground (arith, v.distinct c, count-erase c call s.wait_queue);
  fresh = λ c h. ground (arith, v.fresh c, count-erase c call s.wait_queue);
}

-- The queue of the loop is `q`; the loop ends with no permit left or nobody waiting.
drain_from-Inv :
    (n m : ℕ) (q : List ℕ) (s : Semaphore)
    → s.available + length s.releases ≡ n
    → s.max_queue_size ≡ m
    → length q ≤ m
    → ((call : ℕ) → count call q + count call s.releases ≤ 1)
    → ((call : ℕ) → s.next_call ≤ call → count call q + count call s.releases ≡ 0)
    → Inv n m (drain_from q s)
unfolding drain_from
drain_from-Inv n m [] s c l b d f = record {
  conserved = c;
  busy = inl refl;
  limit = l;
  bounded = b;
  distinct = d;
  fresh = f;
}
drain_from-Inv n m (next ∷ rest) s c l b d f = elim (Bool-cases (ltb 0 s.available)) [
  | inl more ↦ rw more (
      drain_from-Inv n m rest _ (ground arith) l (omega arith) (λ call. ground (arith, d call))
        (λ call h. ground (arith, f call)))
  | inr done ↦ rw done (record {
    conserved = c;
    busy = ground arith;
    limit = l;
    bounded = b;
    distinct = d;
    fresh = f;
  })
]

release-Inv : (n m : ℕ) (s : Semaphore) (call : ℕ) → Inv n m s → Inv n m (release s call)
unfolding release drain
release-Inv n m s call v = elim (Bool-cases (includes call s.releases)) [
  | inl held ↦ rw held (
      drain_from-Inv n m s.wait_queue _ (ground (arith, v.conserved, length-erase call s.releases))
        v.limit v.bounded (λ c. ground (arith, v.distinct c, count-erase c call s.releases))
        (λ c h. ground (arith, v.fresh c, count-erase c call s.releases)))
  | inr again ↦ rw again v
]

pub step-Inv : (n m : ℕ) (s : Semaphore) (op : Op) → Inv n m s → Inv n m (step s op)
unfolding step
step-Inv n m s (acquires aborted) v = acquire-Inv n m s aborted v
step-Inv n m s (aborts call) v = on_abort-Inv n m s call v
step-Inv n m s (releases_call call) v = release-Inv n m s call v

run-Inv : (n m : ℕ) (s : Semaphore) (ops : List Op) → Inv n m s → Inv n m (run s ops)
unfolding run
run-Inv n m s [] v = v
run-Inv n m s (op ∷ ops) v = run-Inv n m (step s op) ops (step-Inv n m s op v)

-- After any sequence of acquires, aborts and releases on a new semaphore: free permits and open
-- release callbacks add up to the configured permits, nobody waits while a permit is free, the
-- queue is within its limit, and no call stands twice in the queue and among the holders.
pub run-new-Inv :
    (permits max_queue_size : ℕ) (ops : List Op)
    → Inv permits max_queue_size (run (new permits max_queue_size) ops)
run-new-Inv permits m ops = run-Inv permits m (new permits m) ops (new-Inv permits m)

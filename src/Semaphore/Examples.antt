-- ===== src/Semaphore/Examples.antt =====
-- Two permits and a queue of two: calls 0 and 1 hold the permits, calls 2 and 3 wait.
use vereda.Common.{◌≡◌, refl, subst, false, true, List, [], ◌∷◌}
use vereda.Semaphore.{Semaphore, Op, acquires, new, run}
use vereda.Semaphore.Invariant.{Inv, run-new-Inv}

abbrev crowd : List Op
crowd = acquires false ∷ acquires false ∷ acquires false ∷ acquires true ∷ acquires false ∷ []

abbrev full : Semaphore
full = record {
  available = 0;
  wait_queue = 2 ∷ 4 ∷ [];
  max_queue_size = 2;
  releases = 1 ∷ 0 ∷ [];
  next_call = 5;
}

full_lem : run (new 2 2) crowd ≡ full
unfolding run new
full_lem = refl

full-Inv : Inv 2 2 full
full-Inv = subst (Inv 2 2) full_lem (run-new-Inv 2 2 crowd)

run-new-Inv_example : Inv 2 2 (run (new 2 2) crowd)
run-new-Inv_example = run-new-Inv 2 2 crowd

-- ===== src/Registry/Examples.antt =====
-- Entries are numbers, the lengths of their names; those up to 2 are never evictable.
use vereda.Common.{ℕ, ◌≡◌, refl, Bool, false, none, List, [], ◌∷◌, length, ltb}
use vereda.Common.Text.{codes}
use vereda.Registry.{
  PartitionRegistry, new, get, touch, sweep, prune, adjust_size_sweep_trigger, Op, gets, prunes,
  step, run,
}
use vereda.Registry.Sweep.{Bounded, InUse, run-new-Bounded, get-run-get}

abbrev evictable : ℕ → Bool
evictable e = ltb 2 e

abbrev history : List (Op ℕ)
history = gets (codes "users") 1000 evictable ∷ prunes 90000 evictable ∷ []

abbrev registry : PartitionRegistry ℕ
registry = new length none

swept_lem : (run registry history).entries ≡ []
unfolding run step new get touch sweep prune adjust_size_sweep_trigger
swept_lem = refl

run-new-Bounded_example : Bounded (run registry history)
run-new-Bounded_example = run-new-Bounded length none history

held_lem : evictable (get registry (codes "eu") 500 evictable).1 ≡ false
unfolding get new
held_lem = refl

in_use_lem : InUse (get registry (codes "eu") 500 evictable).1 history
unfolding get new
in_use_lem = (refl, (refl, tt))

get-run-get_example :
    (get (run (get registry (codes "eu") 500 evictable).0 history) (codes "eu") 99000 evictable).1
    ≡ (get registry (codes "eu") 500 evictable).1
get-run-get_example =
    get-run-get registry (codes "eu") 500 evictable history 99000 evictable held_lem in_use_lem

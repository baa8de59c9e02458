-- ===== src/Emitter/Examples.antt =====
-- Listeners that remove each other and throw.
use vereda.Common.{ℕ, zero, suc, ◌≡◌, refl, true, false, [], ◌∷◌, ◌++◌, keep, or_default}
use vereda.Common.Text.{Text, codes}
use vereda.Emitter.{Listeners, get, on, off, calls_on, calls_off, Behaviour, emit}
use vereda.Emitter.Snapshot.{emit-on}

abbrev done : Text
done = codes "done"

-- Number 0 removes number 1 and throws; the others do nothing.
abbrev behaves : ℕ → Behaviour
behaves zero = record { calls = calls_off done 1 ∷ calls_on done 2 ∷ []; throws = true }
behaves (suc n) = record { calls = []; throws = false }

abbrev both : Listeners
both = on done 1 (on done 0 [])

-- The last registration of a listener that was added twice is the one that `off` removes.
last_removed : off done 0 (on done 0 (on done 1 (on done 0 []))) ≡ on done 1 (on done 0 [])
last_removed = refl

removed_too_late : (emit behaves done both).called ≡ 0 ∷ 1 ∷ []
unfolding emit
removed_too_late = refl

emit-on_example :
    ((emit behaves done both).called ≡ or_default (get done both) [])
    × ((emit behaves done both).reported
        ≡ keep (λ l. (behaves l).throws) (emit behaves done both).called)
    × ((emit behaves done (on done 3 both)).called ≡ (emit behaves done both).called ++ (3 ∷ []))
emit-on_example = emit-on behaves done 3 both

-- ===== src/Executor/Abandon/Examples.antt =====
-- A response with the number 200 that comes after the timeout, and one that comes before it.
use vereda.Common.{ℕ, ◌≡◌, refl, false, true, [], ◌∷◌}
use vereda.Executor.Abandon.{Race, aborts, fulfils, resolved, rejected_with_reason, start, run}
use vereda.Executor.Abandon.Accounted.{Accounted, run-start-Accounted}

abbrev late : Race ℕ
late = run (start false) (aborts ∷ fulfils 200 ∷ [])

late_rejected : late.settlement ≡ rejected_with_reason
unfolding run start
late_rejected = refl

late_cancelled : late.body_cancelled ≡ true
unfolding run start
late_cancelled = refl

abbrev in_time : Race ℕ
in_time = run (start false) (fulfils 200 ∷ aborts ∷ [])

in_time_resolved : in_time.settlement ≡ resolved 200
unfolding run start
in_time_resolved = refl

run-start-Accounted_example : Accounted late.transport late
run-start-Accounted_example = run-start-Accounted false (aborts ∷ fulfils 200 ∷ [])

-- ===== src/Pause/Examples.antt =====
-- Two pushbacks, the later one shorter.
use vereda.Common.{◌≡◌, refl, [], ◌∷◌, some}
use vereda.Pause.{PartitionPause, new}

abbrev paused : PartitionPause
paused = record { statuses = 429 ∷ []; max_pause_ms = 60000; until = 0 }

new_lem : new (record { statuses = some (429 ∷ []); max_pause_ms = some 60000 }) ≡ paused
unfolding new
new_lem = refl

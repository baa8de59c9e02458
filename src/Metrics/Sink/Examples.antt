-- ===== src/Metrics/Sink/Examples.antt =====
-- Queue depths of two partitions, with the tags in both orders.
use vereda.Common.{◌+◌, ◌≡◌, refl, none, some, List, [], ◌∷◌, map}
use vereda.Common.Text.{Text, codes}
use vereda.Metrics.{Tags}
use vereda.Metrics.Sink.{Call, counts, gauges, new, run, observes}

-- In place of `JSON.stringify`: a mark before each tag, and one after each text.
abbrev marked : Text → Text → Text
marked [] rest = 0 ∷ rest
marked (c ∷ t) rest = (c + 1) ∷ marked t rest

abbrev joined : Tags → Text
joined [] = 0 ∷ []
joined ((k, v) ∷ ts) = 1 ∷ marked k (marked v (joined ts))

abbrev depth : Text
depth = codes "vereda.queue_depth"

abbrev one_way : Tags
one_way = (codes "partition", codes "a") ∷ (codes "zone", codes "x") ∷ []

abbrev other_way : Tags
other_way = (codes "zone", codes "x") ∷ (codes "partition", codes "a") ∷ []

abbrev calls : List Call
calls =
    gauges depth 3 (some one_way)
    ∷ counts (codes "vereda.requests") 1 none
    ∷ gauges depth 8 (some ((codes "partition", codes "b") ∷ []))
    ∷ gauges depth 5 (some other_way)
    ∷ []

observed : map (λ p. p.0) (observes depth (run joined new calls).0) ≡ 5 ∷ 8 ∷ []
unfolding observes run
observed = refl

-- Calls that leave the gauge for the first tags as it is.
abbrev others : List Call
others =
    counts (codes "vereda.requests") 1 none
    ∷ gauges depth 8 (some ((codes "partition", codes "b") ∷ []))
    ∷ []

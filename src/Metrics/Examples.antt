-- ===== src/Metrics/Examples.antt =====
-- A request that a full queue refused, in a partition with two attempts queued.
use vereda.Common.{◌≡◌, refl, none, some, [], ◌∷◌}
use vereda.Common.Text.{codes}
use vereda.Errors.{queue_full_error, global}
use vereda.Lifecycle.{failure}
use vereda.Metrics.{
  Gauged, emit_metrics, histogram, gauge, duration, queue_depth, global_queue_depth,
}
use vereda.Metrics.Measured.{Facts, terminal}

abbrev gauged : Gauged
gauged = record {
  in_flight_size = 4;
  bulkheads = record { partition = codes "a.example"; queued = 2 } ∷ [];
  semaphore_queue = some 1;
}

abbrev facts : Facts
facts = record {
  ticket_id = 1;
  url = codes "https://a.example/items";
  method = codes "GET";
  partition = codes "a.example";
  terminal_partition = none;
  duration_ms = 12;
}

refused :
    emit_metrics gauged (failure (terminal facts 1 0) (queue_full_error "global" 5 5 global))
    ≡ histogram duration 12 (some ((codes "kind", codes "queue_full") ∷ []))
      ∷ gauge queue_depth 2 (some ((codes "partition", codes "a.example") ∷ []))
      ∷ gauge global_queue_depth 1 none
      ∷ []
unfolding emit_metrics
refused = refl

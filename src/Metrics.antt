-- ===== src/Metrics.antt =====
-- src/core/metrics.ts and emitMetrics of src/core/client.ts: what each lifecycle event tells the metrics
-- sink. The calls of the sink, which does not throw, are a log; what the
-- client reads when it makes them is `Gauged`.
pub mod Measured
pub mod Sink
mod Examples
use vereda.Common.{ℕ, Option, none, some, List, [], ◌∷◌, ◌++◌, map}
use vereda.Common.Text.{Text, codes}
use vereda.Errors
use vereda.Errors.{
  Kind, network, http, retryable_status, timeout, deadline, validation, queue_full, configuration,
  max_retries, circuit_open, rate_limited,
}
use vereda.Lifecycle
use vereda.Lifecycle.{LifecycleEvent, Terminal}

-- The keys of METRICS, with their values.
pub data Metric : Type 0 where
  requests retries duration queue_depth in_flight global_queue_depth circuit_opened
        retry_budget_exhausted :
      Metric

unfoldable pub metric_name : Metric → Text
metric_name requests = codes "vereda.requests"
metric_name retries = codes "vereda.retries"
metric_name duration = codes "vereda.duration_ms"
metric_name queue_depth = codes "vereda.queue_depth"
metric_name in_flight = codes "vereda.in_flight"
metric_name global_queue_depth = codes "vereda.global_queue_depth"
metric_name circuit_opened = codes "vereda.circuit_open"
metric_name retry_budget_exhausted = codes "vereda.retry_budget_exhausted"

abbrev pub Tags : Type 0
Tags = List (Text × Text)

-- A call of the sink.
pub data SinkCall : Type 0 where
  counter histogram gauge : Metric → (value : ℕ) → (tags : Option Tags) → SinkCall

pub record QueueDepth : Type 0 where
  pub partition : Text
  pub queued : ℕ

pub record Gauged : Type 0 where
  pub in_flight_size : ℕ
  pub bulkheads : List QueueDepth  -- of `bulkheads.getAll()`
  pub semaphore_queue : Option ℕ  -- none without a global cap

unfoldable pub kind_text : Kind → Text
kind_text network = codes "network"
kind_text http = codes "http"
kind_text retryable_status = codes "retryable_status"
kind_text timeout = codes "timeout"
kind_text deadline = codes "deadline"
kind_text validation = codes "validation"
kind_text Kind.cancelled = codes "cancelled"
kind_text queue_full = codes "queue_full"
kind_text configuration = codes "configuration"
kind_text max_retries = codes "max_retries"
kind_text circuit_open = codes "circuit_open"
kind_text rate_limited = codes "rate_limited"

abbrev pub partition_tag : Text → Text × Text
partition_tag p = (codes "partition", p)

abbrev pub kind_tag : Text → Text × Text
kind_tag k = (codes "kind", k)

abbrev pub depth_gauge : QueueDepth → SinkCall
depth_gauge s = gauge queue_depth s.queued (some (partition_tag s.partition ∷ []))

abbrev pub semaphore_gauge : Option ℕ → List SinkCall
semaphore_gauge none = []
semaphore_gauge (some n) = gauge global_queue_depth n none ∷ []

abbrev pub emit_queue_depth_gauges : Gauged → List SinkCall
emit_queue_depth_gauges g = map depth_gauge g.bulkheads ++ semaphore_gauge g.semaphore_queue

-- A request whose URL did not resolve has no partition to tag.
abbrev pub duration_tags : Option Text → Text → Tags
duration_tags none k = kind_tag k ∷ []
duration_tags (some p) k = partition_tag p ∷ kind_tag k ∷ []

abbrev pub terminal_metrics : Gauged → Terminal → Text → List SinkCall
terminal_metrics g d k =
    histogram duration d.duration_ms (some (duration_tags d.partition k))
    ∷ emit_queue_depth_gauges g

unfoldable pub emit_metrics : Gauged → LifecycleEvent → List SinkCall
unfolding kind_text
emit_metrics g (Lifecycle.request id url method partition) =
    counter requests 1 (some (partition_tag partition ∷ (codes "method", method) ∷ []))
    ∷ gauge in_flight g.in_flight_size none
    ∷ emit_queue_depth_gauges g
emit_metrics g (Lifecycle.retry id url partition attempt delay_ms e) =
    counter retries 1 (some (partition_tag partition ∷ kind_tag (kind_text (Errors.kind e)) ∷ []))
    ∷ []
emit_metrics g (Lifecycle.success d status) = terminal_metrics g d (codes "success")
emit_metrics g (Lifecycle.failure d e) = terminal_metrics g d (kind_text (Errors.kind e))
emit_metrics g (Lifecycle.cancelled d) = terminal_metrics g d (codes "cancelled")
emit_metrics g (Lifecycle.circuit_open partition) =
    counter circuit_opened 1 (some (partition_tag partition ∷ [])) ∷ []
emit_metrics g (Lifecycle.retry_budget_exhausted id url partition) =
    counter retry_budget_exhausted 1 (some (partition_tag partition ∷ [])) ∷ []
emit_metrics g (Lifecycle.circuit_close partition) = []

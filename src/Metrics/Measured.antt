-- ===== src/Metrics/Measured.antt =====
-- The metrics of one request: what the events that its log stands for tell the sink.
use vereda.Common.{
  ℕ, ◌+◌, ◌≤◌, ◌≡◌, refl, Option, none, some, List, [], ◌∷◌, ◌++◌, map, sum_by, sum_by-append, suc,
  arith,
}
use vereda.Common.Text.{Text}
use vereda.Ticket
use vereda.Ticket.{Ticket, new, is_settled, run}
use vereda.RetryLoop.{Turn, on_retry, on_success, on_failure, on_cancelled, budget_exhausted}
use vereda.RetryLoop.Tally.{ends}
use vereda.Lifecycle.{
  LifecycleEvent, Terminal, request, retry, success, failure, cancelled, retry_budget_exhausted,
}
use vereda.Client.{RequestJob, FirstTurn, Act, emits_request, does, fire_first_attempt, send}
use vereda.Client.Tally.{lifted, requests}
use vereda.Client.Events.{missed, send-Told}
use vereda.Metrics.{
  Metric, SinkCall, counter, histogram, gauge, Gauged, QueueDepth, duration, Tags, queue_depth,
  global_queue_depth, depth_gauge, semaphore_gauge, emit_queue_depth_gauges, emit_metrics,
}
use vereda.Metrics

-- Of one request, what its events carry besides what its log says.
pub record Facts : Type 0 where
  pub ticket_id : ℕ
  pub url : Text
  pub method : Text
  pub partition : Text
  pub terminal_partition : Option Text  -- absent when the URL does not resolve
  pub duration_ms : ℕ

abbrev pub terminal : Facts → (attempts queued_ms : ℕ) → Terminal
terminal f attempts queued_ms = record {
  ticket_id = f.ticket_id;
  url = f.url;
  partition = f.terminal_partition;
  attempts = attempts;
  duration_ms = f.duration_ms;
  queued_ms = queued_ms;
}

-- The events that an act emits.
abbrev pub events_of : Facts → Act → List LifecycleEvent
events_of f emits_request = request f.ticket_id f.url f.method f.partition ∷ []
events_of f (does (on_retry attempt delay_ms e)) =
    retry f.ticket_id f.url f.partition attempt delay_ms e ∷ []
events_of f (does (on_success status n q)) = success (terminal f n q) status ∷ []
events_of f (does (on_failure e n q)) = failure (terminal f n q) e ∷ []
events_of f (does (on_cancelled n q)) = cancelled (terminal f n q) ∷ []
events_of f (does budget_exhausted) = retry_budget_exhausted f.ticket_id f.url f.partition ∷ []
events_of f _ = []

abbrev pub metrics_of_events : Gauged → List LifecycleEvent → List SinkCall
metrics_of_events g [] = []
metrics_of_events g (e ∷ es) = emit_metrics g e ++ metrics_of_events g es

-- `gauged n` is what the client reads at act number `n`.
abbrev pub metrics_of : Facts → (ℕ → Gauged) → (n : ℕ) → List Act → List SinkCall
metrics_of f gauged n [] = []
metrics_of f gauged n (act ∷ acts) =
    metrics_of_events (gauged n) (events_of f act) ++ metrics_of f gauged (suc n) acts

abbrev pub durations : SinkCall → ℕ
durations (histogram Metrics.duration value tags) = 1
durations _ = 0

abbrev pub request_counts : SinkCall → ℕ
request_counts (counter Metrics.requests value tags) = value
request_counts _ = 0

-- Weights to which gauges add nothing.
module _ (w : SinkCall → ℕ)
    (quiet : (m : Metric) (v : ℕ) (tags : Option Tags) → w (gauge m v tags) ≡ 0) where
  depths-quiet : (bs : List QueueDepth) → sum_by w (map depth_gauge bs) ≡ 0
  depths-quiet [] = refl
  depths-quiet (b ∷ bs) = omega (arith, depths-quiet bs, quiet queue_depth b.queued)

  semaphore-quiet : (n : Option ℕ) → sum_by w (semaphore_gauge n) ≡ 0
  semaphore-quiet none = refl
  semaphore-quiet (some n) = omega (arith, quiet global_queue_depth n none)

  gauges-quiet : (g : Gauged) → sum_by w (emit_queue_depth_gauges g ++ []) ≡ 0
  gauges-quiet g = omega (
    arith,
    sum_by-append w (emit_queue_depth_gauges g) [],
    sum_by-append w (map depth_gauge g.bulkheads) (semaphore_gauge g.semaphore_queue),
    depths-quiet g.bulkheads,
    semaphore-quiet g.semaphore_queue,
  )

  -- A log whose acts each weigh as much as their metrics do.
  metrics-weigh :
      (f : Facts) (gauged : ℕ → Gauged) (v : Act → ℕ)
      → ((g : Gauged) (act : Act) → sum_by w (metrics_of_events g (events_of f act)) ≡ v act)
      → (n : ℕ) (acts : List Act) → sum_by w (metrics_of f gauged n acts) ≡ sum_by v acts
  metrics-weigh f gauged v e n [] = refl
  metrics-weigh f gauged v e n (act ∷ acts) = omega (
    arith,
    sum_by-append w (metrics_of_events (gauged n) (events_of f act))
        (metrics_of f gauged (suc n) acts),
    e (gauged n) act,
    metrics-weigh f gauged v e (suc n) acts,
  )

durations-quiet : (g : Gauged) → sum_by durations (emit_queue_depth_gauges g ++ []) ≡ 0
durations-quiet = gauges-quiet durations (λ m v tags. refl)

requests-quiet : (g : Gauged) → sum_by request_counts (emit_queue_depth_gauges g ++ []) ≡ 0
requests-quiet = gauges-quiet request_counts (λ m v tags. refl)

act-durations :
    (f : Facts) (g : Gauged) (act : Act)
    → sum_by durations (metrics_of_events g (events_of f act)) ≡ lifted ends act
unfolding emit_metrics
act-durations f g emits_request = omega (arith, durations-quiet g)
act-durations f g (does (on_success s n q)) = omega (arith, durations-quiet g)
act-durations f g (does (on_failure e n q)) = omega (arith, durations-quiet g)
act-durations f g (does (on_cancelled n q)) = omega (arith, durations-quiet g)
act-durations f g act = refl

act-requests :
    (f : Facts) (g : Gauged) (act : Act)
    → sum_by request_counts (metrics_of_events g (events_of f act)) ≡ requests act
unfolding emit_metrics
act-requests f g emits_request = omega (arith, requests-quiet g)
act-requests f g (does (on_success s n q)) = omega (arith, requests-quiet g)
act-requests f g (does (on_failure e n q)) = omega (arith, requests-quiet g)
act-requests f g (does (on_cancelled n q)) = omega (arith, requests-quiet g)
act-requests f g act = refl

-- The metrics count requests: whatever happens to the ticket and whatever the client is answered, and whatever
-- the gauges read meanwhile, a request adds exactly one measurement to the
-- histogram of durations, except that it adds none if a full queue refused the first attempt and the
-- ticket was settled when that refusal was handled; and it adds at most one to the counter of requests.
pub send-measured :
    {A : Type 0} (data_of : A) (job : RequestJob) (turns : ℕ → Turn) (f : Facts)
    (gauged : ℕ → Gauged) (first : FirstTurn) (before meanwhile : List (Ticket.Op A))
    → let calls =
        metrics_of f gauged 0 (send data_of job first turns (run (new A) before) meanwhile) in
      (sum_by durations calls
          + missed
              (fire_first_attempt job (is_settled (run (new A) before)) first)
              (is_settled (run (run (new A) before) meanwhile))
        ≡ 1)
      × (sum_by request_counts calls ≤ 1)
send-measured {A} data_of job turns f gauged first before meanwhile =
    let log = send data_of job first turns (run (new A) before) meanwhile in
    let told = send-Told data_of job turns first before meanwhile in
    (
      omega (
        arith,
        told.one_event,
        metrics-weigh durations (λ m v tags. refl) f gauged (lifted ends) (act-durations f) 0 log,
      ),
      omega (
        arith,
        told.one_request,
        metrics-weigh request_counts (λ m v tags. refl) f gauged requests (act-requests f) 0 log,
      ),
    )

-- ===== src/Client/Examples.antt =====
-- A request that is retried once, and one that a full queue refuses.
use vereda.Common.{
  ℕ, List, ◌+◌, ◌≤◌, ◌≡◌, refl, true, false, none, some, [], ◌∷◌, sum_by, if◌then◌else◌,
}
use vereda.Common.Text.{text_eq, codes}
use vereda.Errors.{retryable_status_error, queue_full_error, global}
use vereda.Ticket
use vereda.Ticket.{run, new, is_settled}
use vereda.RetryLoop
use vereda.RetryLoop.{Turn}
use vereda.RetryLoop.Tally.{ends}
use vereda.Client.{
  RequestJob, FirstTurn, FirstOutcome, failed, queue_refused, fire_first_attempt, by_validity,
  permitted, settle_first, after_first, ops_of, send,
}
use vereda.Client.Address.{Parser, first_address, resolve_url, try_resolve_partition}
use vereda.Client.Tally.{Told, lifted, requests}
use vereda.Client.Events.{missed, send-Told}
use vereda.Client.Outcome.{send-settles}
use vereda.Metrics.{Gauged}
use vereda.Metrics.Measured.{Facts, durations, request_counts, metrics_of, send-measured}

abbrev job : RequestJob
job = record {
  url = "/items";
  display_url = "https://a.example/items";
  partition = "a.example";
  start_time = 10000;
  ctx = record { method = codes "GET"; headers = none; idempotent = none };
  max_retries = some 2;
  backoff = none;
  retry_when = none;
  attempt_ms = some 1000;
  total_ms = some 60000;
  jittered = λ capped. capped;
}

abbrev first : FirstOutcome → FirstTurn
first outcome = record {
  resolves = true;
  body_error = none;
  options_error = none;
  key_error = none;
  permit_given = true;
  now = 10001;
  pause_ms = 0;
  waits = 3 ∷ [];
  outcome = outcome;
}

abbrev turn : ℕ → Turn
turn n = record {
  cancelled_first = false;
  permit_given = true;
  now = 10500;
  pause_ms = 0;
  refusal = none;
  budget_admits = true;
  slept = true;
  cancelled_later = false;
  waits = 7 ∷ [];
  attempted = RetryLoop.responded 200;
}

abbrev unavailable : FirstTurn
unavailable = first (failed (retryable_status_error 503 none))

abbrev full : FirstTurn
full = first (queue_refused (queue_full_error "global" 5 5 global))

abbrev no_ops : List (Ticket.Op ℕ)
no_ops = []

abbrev cancelling : List (Ticket.Op ℕ)
cancelling = Ticket.cancels ∷ []

-- Cancelled in the same turn in which a full queue refused it, a request that was announced ends
-- without a terminal event.
silent : sum_by (lifted ends) (send 200 job full turn (new ℕ) cancelling) ≡ 0
unfolding send after_first fire_first_attempt by_validity permitted settle_first run is_settled
    Ticket.cancel Ticket.apply_transition new
silent = refl

announced : sum_by requests (send 200 job full turn (new ℕ) cancelling) ≡ 1
unfolding send after_first fire_first_attempt by_validity permitted settle_first run is_settled
    Ticket.cancel Ticket.apply_transition new
announced = refl

send-Told_example :
    Told 2
      (missed
        (fire_first_attempt job (is_settled (run (new ℕ) no_ops)) unavailable)
        (is_settled (run (run (new ℕ) no_ops) no_ops)))
      (send 200 job unavailable turn (run (new ℕ) no_ops) no_ops)
send-Told_example = send-Told 200 job turn unavailable no_ops no_ops

send-settles_example :
    is_settled (
      run
        (run (run (new ℕ) no_ops) cancelling)
        (ops_of 200 (send 200 job full turn (run (new ℕ) no_ops) cancelling)))
    ≡ true
send-settles_example = send-settles 200 job turn full no_ops cancelling

-- The same retried request, as the metrics count it while nothing is queued.
abbrev facts : Facts
facts = record {
  ticket_id = 1;
  url = codes "https://a.example/items";
  method = codes "GET";
  partition = codes "a.example";
  terminal_partition = some (codes "a.example");
  duration_ms = 250;
}

abbrev idle : ℕ → Gauged
idle n = record { in_flight_size = 1; bulkheads = []; semaphore_queue = some 0 }

send-measured_example :
    let calls =
      metrics_of facts idle 0 (send 200 job unavailable turn (run (new ℕ) no_ops) no_ops) in
    (sum_by durations calls
        + missed
            (fire_first_attempt job (is_settled (run (new ℕ) no_ops)) unavailable)
            (is_settled (run (run (new ℕ) no_ops) no_ops))
      ≡ 1)
    × (sum_by request_counts calls ≤ 1)
send-measured_example = send-measured 200 job turn facts idle unavailable no_ops no_ops

-- A parser that knows one absolute URL, and no relative one without a base.
abbrev parser : Parser
parser url (some base) =
    some (record { href = codes "https://a.example/x"; host = codes "a.example" })
parser url none =
    if text_eq url (codes "https://a.example/x")
    then some (record { href = url; host = codes "a.example" })
    else none

based :
    try_resolve_partition parser (some (codes "https://a.example")) (codes "/x") none
    ≡ some (codes "a.example")
unfolding resolve_url try_resolve_partition
based = refl

relative : first_address parser none (codes "/x") none ≡ none
unfolding resolve_url first_address
relative = refl

-- A relative URL that no base completes gets past the head of the first attempt when its request names a
-- partition.
relative_named :
    first_address parser none (codes "/x") (some (codes "p"))
    ≡ some (record { full_url = codes "/x"; partition_name = codes "p" })
unfolding resolve_url first_address
relative_named = refl

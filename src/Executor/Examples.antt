-- ===== src/Executor/Examples.antt =====
-- Attempts that are answered with 200, 404 and 503, and one cancelled as its response arrives.
use vereda.Common.{ℕ, ◌≡◌, refl, true, false, none, some, List, [], ◌∷◌, ◌++◌}
use vereda.Common.Text.{codes}
use vereda.Errors.{retryable_status_error, http_error, timeout_error, deadline_exceeded_error}
use vereda.RetryAfter.{Clock, parse_retry_after}
use vereda.Executor.{
  ExecuteRequest, Signals, read_ok, Attempt, success_result, error_result, body_cancelled,
  body_handed_off, body_read, execute_request, settle_fetch, classify, bound_read,
  compose_middleware, text,
}
use vereda.Executor.Verdict.{Judged, sent, saw_cancel, execute_request-Judged}

abbrev clock : Clock
clock = record { now = 0; this_year = 2026; utc = λ year month day t. 0 }

abbrev request : ExecuteRequest
request = record {
  display_url = "https://a.example/";
  retry_on_status = none;
  response_type = some text;
  has_parse = false;
  attempt_ms = some 1000;
  total_ms = some 5000;
  deadline_at = some 5100;
}

abbrev quiet : Signals
quiet = record { cancelled = false; timed_out = false }

abbrev answered : ℕ → Signals → Attempt
answered status signals = record {
  cancelled_first = false;
  factory_throws = false;
  fetched = some (record { status = status; retry_after = codes "120" });
  after_fetch = signals;
  body_read = read_ok;
  after_read = quiet;
  parses = true;
  after_parse = quiet;
}

ok_read :
    execute_request clock request (answered 200 quiet)
    ≡ record { result = success_result; body = body_read }
unfolding execute_request settle_fetch classify
ok_read = refl

not_found_handed_off :
    execute_request clock request (answered 404 quiet)
    ≡ record { result = error_result (http_error 404); body = body_handed_off }
unfolding execute_request settle_fetch classify
not_found_handed_off = refl

unavailable_retryable : execute_request clock request (answered 503 quiet) ≡ record {
  result = error_result (retryable_status_error 503 (some 120000));
  body = body_cancelled;
}
unfolding execute_request settle_fetch classify parse_retry_after
unavailable_retryable = refl

-- The attempt's own bound is at 4500 + 1000, the ticket's deadline at 5100.
bounded_by_deadline :
    bound_read request 4500 4600 ≡ some (500, deadline_exceeded_error "https://a.example/" 5000)
unfolding bound_read
bounded_by_deadline = refl

bounded_by_attempt :
    bound_read request 100 600 ≡ some (500, timeout_error "https://a.example/" 1000)
unfolding bound_read
bounded_by_attempt = refl

abbrev tagging : ℕ → List ℕ → (List ℕ → List ℕ) → List ℕ
tagging n ctx next = next (ctx ++ (n ∷ [])) ++ (n ∷ [])

-- The first middleware sees the request first and the response last.
outermost_first :
    compose_middleware (tagging 1 ∷ tagging 2 ∷ []) (λ ctx. ctx ++ (0 ∷ [])) []
    ≡ 1 ∷ 2 ∷ 0 ∷ 2 ∷ 1 ∷ []
outermost_first = refl

abbrev late : Attempt
late = answered 200 (record { cancelled = true; timed_out = true })

execute_request-Judged_example :
    Judged request (saw_cancel late) (sent late) (execute_request clock request late)
execute_request-Judged_example = execute_request-Judged clock request late

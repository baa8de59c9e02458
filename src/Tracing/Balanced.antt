-- ===== src/Tracing/Balanced.antt =====
-- Every span that is started is ended once.
use vereda.Common.{
  ℕ, ◌+◌, ◌<◌, ◌≡◌, refl, Bool, false, List, [], ◌∷◌, ◌++◌, length, count, subst, if-either,
  if-skips, arith,
}
use vereda.Lifecycle
use vereda.Lifecycle.{LifecycleEvent}
use vereda.Tracing.{
  Tracing, Op, emits, starts, settles, stops, stops_within, new, end_span, tell, handle,
  attempt_starts, attempt_settles, stop, step, run, finish_success, finish_failure,
  finish_cancelled,
}
use vereda.Tracing.Spans.{ends_of, length-on_span, length-end_each}
use vereda.Tracing.Steps.{
  IsBalanced, announced, AllNew, Inv, later, on_request-Inv, on_retry-Inv, end-Inv,
  attempt_starts-Inv, attempt_settles-Inv, stop-Inv,
}

handle-Inv :
    (e : LifecycleEvent) (ids : List ℕ) {t : Tracing}
    → Inv (announced (emits e ∷ []) ++ ids) t
    → Inv ids (handle e t)
handle-Inv (Lifecycle.request id url method partition) ids v =
    on_request-Inv id url method partition ids v
handle-Inv (Lifecycle.retry id url partition attempt delay_ms e) ids v =
    on_retry-Inv id attempt delay_ms e ids v
handle-Inv (Lifecycle.success d status) ids v =
    end-Inv d.ticket_id d.attempts (finish_success status) (λ s. refl) ids v
handle-Inv (Lifecycle.failure d e) ids v =
    end-Inv d.ticket_id d.attempts (finish_failure e) (λ s. refl) ids v
handle-Inv (Lifecycle.cancelled d) ids v =
    end-Inv d.ticket_id d.attempts finish_cancelled (λ s. refl) ids v
handle-Inv (Lifecycle.retry_budget_exhausted id url partition) ids v = v
handle-Inv (Lifecycle.circuit_open partition) ids v = v
handle-Inv (Lifecycle.circuit_close partition) ids v = v

skip-Inv :
    (e : LifecycleEvent) (ids : List ℕ) {t : Tracing}
    → Inv (announced (emits e ∷ []) ++ ids) t
    → Inv ids t
skip-Inv (Lifecycle.request id url method partition) ids v = later v
skip-Inv (Lifecycle.retry id url partition attempt delay_ms e) ids v = v
skip-Inv (Lifecycle.success d status) ids v = v
skip-Inv (Lifecycle.failure d e) ids v = v
skip-Inv (Lifecycle.cancelled d) ids v = v
skip-Inv (Lifecycle.retry_budget_exhausted id url partition) ids v = v
skip-Inv (Lifecycle.circuit_open partition) ids v = v
skip-Inv (Lifecycle.circuit_close partition) ids v = v

announced-within : (e : LifecycleEvent) → announced (stops_within e ∷ []) ≡ announced (emits e ∷ [])
announced-within (Lifecycle.request id url method partition) = refl
announced-within (Lifecycle.retry id url partition attempt delay_ms e) = refl
announced-within (Lifecycle.success d status) = refl
announced-within (Lifecycle.failure d e) = refl
announced-within (Lifecycle.cancelled d) = refl
announced-within (Lifecycle.retry_budget_exhausted id url partition) = refl
announced-within (Lifecycle.circuit_open partition) = refl
announced-within (Lifecycle.circuit_close partition) = refl

step-Inv :
    (op : Op) (ids : List ℕ) {t : Tracing}
    → Inv (announced (op ∷ []) ++ ids) t
    → Inv ids (step t op)
unfolding step
step-Inv (emits e) ids {t} v =
    if-either (Inv ids) t.listening (handle-Inv e ids v) (skip-Inv e ids v)
step-Inv (starts ctx) ids v = attempt_starts-Inv ctx ids v
step-Inv (settles s ended) ids v = attempt_settles-Inv s ended ids v
step-Inv stops ids v = stop-Inv ids v
step-Inv (stops_within e) ids {t} v =
    let w =
      stop-Inv (announced (emits e ∷ []) ++ ids)
        (subst (λ ks. Inv (ks ++ ids) t) (announced-within e) v) in
    if-either (Inv ids) t.listening (handle-Inv e ids w) (skip-Inv e ids w)

announced-cons :
    (op : Op) (ops : List Op) → announced (op ∷ ops) ≡ announced (op ∷ []) ++ announced ops
announced-cons (emits (Lifecycle.request id url method partition)) ops = refl
announced-cons (emits (Lifecycle.retry id url partition attempt delay_ms e)) ops = refl
announced-cons (emits (Lifecycle.success d status)) ops = refl
announced-cons (emits (Lifecycle.failure d e)) ops = refl
announced-cons (emits (Lifecycle.cancelled d)) ops = refl
announced-cons (emits (Lifecycle.retry_budget_exhausted id url partition)) ops = refl
announced-cons (emits (Lifecycle.circuit_open partition)) ops = refl
announced-cons (emits (Lifecycle.circuit_close partition)) ops = refl
announced-cons (starts ctx) ops = refl
announced-cons (settles s ended) ops = refl
announced-cons stops ops = refl
announced-cons (stops_within (Lifecycle.request id url method partition)) ops = refl
announced-cons (stops_within (Lifecycle.retry id url partition attempt delay_ms e)) ops = refl
announced-cons (stops_within (Lifecycle.success d status)) ops = refl
announced-cons (stops_within (Lifecycle.failure d e)) ops = refl
announced-cons (stops_within (Lifecycle.cancelled d)) ops = refl
announced-cons (stops_within (Lifecycle.retry_budget_exhausted id url partition)) ops = refl
announced-cons (stops_within (Lifecycle.circuit_open partition)) ops = refl
announced-cons (stops_within (Lifecycle.circuit_close partition)) ops = refl

run-Inv : (ops : List Op) {t : Tracing} → Inv (announced ops) t → Inv [] (run t ops)
unfolding run
run-Inv [] v = v
run-Inv (op ∷ ops) {t} v =
    run-Inv ops (step-Inv op (announced ops) (subst (λ ids. Inv ids t) (announced-cons op ops) v))

-- Whatever the client emits, however its attempts start and end, and whenever tracing is stopped: when no
-- ticket id is used twice, each span that was started has either been ended exactly once, or it is
-- the span kept for one ticket, or that of one attempt whose `next(ctx)` is pending, and then it has
-- not been ended; a number that no span has is none of these.
pub run-new-IsBalanced :
    (redact_query : Bool) (ops : List Op)
    → AllNew (announced ops)
    → (i : ℕ) → IsBalanced i (run (new redact_query) ops)
run-new-IsBalanced redact_query ops h i =
    let start : Inv (announced ops) (new redact_query) = record {
      apart = λ k. omega (arith, h k);
      balanced = λ k. ground arith;
    } in
    (run-Inv ops start).balanced i

record IsStopped (n : ℕ) (t : Tracing) : Type 0 where
  inactive : t.active ≡ false
  deaf : t.listening ≡ false
  none_kept : t.tickets ≡ []
  none_new : length t.spans ≡ n

step-IsStopped : (n : ℕ) (op : Op) {t : Tracing} → IsStopped n t → IsStopped n (step t op)
unfolding step attempt_starts attempt_settles stop
step-IsStopped n (emits e) {t} v = if-skips (IsStopped n) t.listening _ v.deaf v
step-IsStopped n (starts ctx) {t} v = if-skips (IsStopped n) t.active _ v.inactive v
step-IsStopped n (settles s ended) {t} v =
    ground (arith, length-on_span (λ span. end_span (tell ended span)) s t.spans)
step-IsStopped n stops {t} v = ground (arith, length-end_each t.tickets t.spans)
step-IsStopped n (stops_within e) {t} v =
    if-skips (IsStopped n) t.listening _ v.deaf (ground (arith, length-end_each t.tickets t.spans))

run-IsStopped : (n : ℕ) (ops : List Op) {t : Tracing} → IsStopped n t → IsStopped n (run t ops)
unfolding run
run-IsStopped n [] v = v
run-IsStopped n (op ∷ ops) v = run-IsStopped n ops (step-IsStopped n op v)

run-append :
    (t : Tracing) (before after : List Op) → run t (before ++ after) ≡ run (run t before) after
unfolding run
run-append t [] after = refl
run-append t (op ∷ before) after = run-append (step t op) before after

stop-IsStopped : (t : Tracing) → IsStopped (length t.spans) (stop t)
unfolding stop
stop-IsStopped t = record {
  inactive = refl;
  deaf = refl;
  none_kept = refl;
  none_new = length-end_each t.tickets t.spans;
}

-- Once tracing has been stopped while the client was not emitting an event, whatever the client still emits and however its pending attempts end: no span
-- is started any more, and each one that is not that of an attempt whose `next(ctx)` is pending
-- has been ended, exactly once, if no ticket id is used twice.
pub run-stop-run :
    (redact_query : Bool) (before after : List Op)
    → AllNew (announced (before ++ (stops ∷ after)))
    → (i : ℕ) → i < length (run (new redact_query) before).spans
    → let t = run (new redact_query) (before ++ (stops ∷ after)) in
      (length t.spans ≡ length (run (new redact_query) before).spans)
      × (ends_of i t.spans + count i t.waiting ≡ 1)
unfolding step run
run-stop-run redact_query before after h i e =
    let t = run (new redact_query) before in
    let v = run-IsStopped (length t.spans) after (stop-IsStopped t) in
    let same = run-append (new redact_query) before (stops ∷ after) in
    let b = run-new-IsBalanced redact_query (before ++ (stops ∷ after)) h i in
    let b' : IsBalanced i (run (stop t) after) = subst (IsBalanced i) same b in
    rw same (v.none_new, ground (arith, v.none_new, v.none_kept))

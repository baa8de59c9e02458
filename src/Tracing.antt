-- ===== src/Tracing.antt =====
-- src/otel/index.ts: instrumentTracing. A span is named by its number in the order in which the tracer
-- started them, and what it was told is kept in it, but for the message of its status; how often `end()`
-- was called is counted. What `propagation.inject` writes into the headers is the tracing library's,
-- and left out.
pub mod Spans
pub mod Steps
pub mod Balanced
mod Examples
use vereda.Common.{
  ℕ, zero, suc, ◌+◌, Bool, true, false, Option, none, some, List, [], ◌∷◌, ◌++◌, length, get_elem?,
  set, includes, erase, ltb, leb, ◌==◌, if◌then◌else◌,
}
use vereda.Common.Text.{Text, codes}
use vereda.Errors
use vereda.Errors.{AppError, Kind}
use vereda.Lifecycle
use vereda.Lifecycle.{LifecycleEvent, Terminal}
use vereda.Redact.{redact_url, redact_userinfo}

-- `error.type`: the kind of an AppError, a status from 400 on, or the name of a thrown error.
pub data ErrorType : Type 0 where
  of_kind : Kind → ErrorType
  of_status : ℕ → ErrorType
  of_name : Text → ErrorType
  unknown : ErrorType

pub data Attribute : Type 0 where
  http_request_method url_full vereda_partition : Text → Attribute
  vereda_ticket_id vereda_attempts http_response_status_code http_request_resend_count :
      ℕ → Attribute
  error_type : ErrorType → Attribute
  vereda_cancelled : Attribute

-- `addEvent("vereda.retry", ...)`.
pub record RetryNote : Type 0 where
  pub attempt : ℕ
  pub delay_ms : ℕ
  pub kind : Kind

pub data SpanKind : Type 0 where
  internal client : SpanKind

pub record Span : Type 0 where
  pub name : Text
  pub kind : SpanKind
  pub parent : Option ℕ
  pub attributes : List Attribute
  pub notes : List RetryNote
  pub is_error : Bool  -- whether the status was set to ERROR
  pub ends : ℕ

pub record Tracing : Type 0 where
  pub redact_query : Bool
  pub spans : List Span  -- of the tracer, the oldest first
  pub tickets : List (ℕ × ℕ)  -- the span of each ticket's id
  pub waiting : List ℕ  -- the spans of the attempts whose `next(ctx)` is pending
  pub active : Bool
  pub listening : Bool  -- until `client.off`

abbrev pub new : (redact_query : Bool) → Tracing
new redact_query = record {
  redact_query = redact_query;
  spans = [];
  tickets = [];
  waiting = [];
  active = true;
  listening = true;
}

abbrev pub safe_url : Bool → Text → Text
safe_url false url = redact_userinfo url
safe_url true url = redact_url url

-- The map: `tickets.get(id)`, `set` and `delete`.
abbrev pub get : ℕ → List (ℕ × ℕ) → Option ℕ
get id [] = none
get id ((k, span) ∷ rest) = let found = get id rest in if k == id then some span else found

abbrev pub put : ℕ → ℕ → List (ℕ × ℕ) → List (ℕ × ℕ)
put id span [] = (id, span) ∷ []
put id span ((k, s) ∷ rest) =
    let others = put id span rest in if k == id then (k, span) ∷ rest else (k, s) ∷ others

abbrev pub delete : ℕ → List (ℕ × ℕ) → List (ℕ × ℕ)
delete id [] = []
delete id ((k, s) ∷ rest) = let others = delete id rest in if k == id then rest else (k, s) ∷ others

-- A method of the span of this number.
unfoldable pub on_span : (Span → Span) → ℕ → List Span → List Span
on_span f n [] = []
on_span f zero (s ∷ ss) = f s ∷ ss
on_span f (suc n) (s ∷ ss) = s ∷ on_span f n ss

abbrev pub set_attribute : Attribute → Span → Span
set_attribute a s = record s { attributes = s.attributes ++ (a ∷ []) }

abbrev pub set_error : Span → Span
set_error s = record s { is_error = true }

abbrev pub add_note : RetryNote → Span → Span
add_note n s = record s { notes = s.notes ++ (n ∷ []) }

abbrev pub end_span : Span → Span
end_span s = record s { ends = s.ends + 1 }

abbrev pub started : (name : Text) → SpanKind → Option ℕ → List Attribute → Span
started name kind parent attributes = record {
  name = name;
  kind = kind;
  parent = parent;
  attributes = attributes;
  notes = [];
  is_error = false;
  ends = 0;
}

unfoldable pub on_request : (ticket_id : ℕ) (url method partition : Text) → Tracing → Tracing
on_request ticket_id url method partition t = record t {
  spans =
      t.spans
      ++ (started (codes "vereda " ++ method) internal none (
            http_request_method method
            ∷ url_full (safe_url t.redact_query url)
            ∷ vereda_ticket_id ticket_id
            ∷ vereda_partition partition
            ∷ [])
          ∷ []);
  tickets = put ticket_id (length t.spans) t.tickets;
}

abbrev pub note_on : Option ℕ → RetryNote → List Span → List Span
note_on none n spans = spans
note_on (some s) n spans = on_span (add_note n) s spans

unfoldable pub on_retry : (ticket_id attempt delay_ms : ℕ) → AppError → Tracing → Tracing
unfolding on_span
on_retry ticket_id attempt delay_ms e t = record t {
  spans =
      note_on (get ticket_id t.tickets)
        (record { attempt = attempt; delay_ms = delay_ms; kind = Errors.kind e }) t.spans;
}

abbrev pub end_found :
    Option ℕ → (ticket_id attempts : ℕ) → (finish : Span → Span) → Tracing → Tracing
end_found none ticket_id attempts finish t = t
end_found (some s) ticket_id attempts finish t = record t {
  tickets = delete ticket_id t.tickets;
  spans =
      on_span (λ span. end_span (finish (set_attribute (vereda_attempts attempts) span))) s t.spans;
}

-- `end(ticketId, attempts, finish)`.
unfoldable pub end_ : (ticket_id attempts : ℕ) → (finish : Span → Span) → Tracing → Tracing
unfolding on_span
end_ ticket_id attempts finish t = end_found (get ticket_id t.tickets) ticket_id attempts finish t

abbrev pub finish_success : ℕ → Span → Span
finish_success status = set_attribute (http_response_status_code status)

abbrev pub finish_failure : AppError → Span → Span
finish_failure e span = set_error (set_attribute (error_type (of_kind (Errors.kind e))) span)

abbrev pub finish_cancelled : Span → Span
finish_cancelled = set_attribute vereda_cancelled

-- The handler of an event; the others have none.
abbrev pub handle : LifecycleEvent → Tracing → Tracing
handle (Lifecycle.request id url method partition) t = on_request id url method partition t
handle (Lifecycle.retry id url partition attempt delay_ms e) t = on_retry id attempt delay_ms e t
handle (Lifecycle.success d status) t = end_ d.ticket_id d.attempts (finish_success status) t
handle (Lifecycle.failure d e) t = end_ d.ticket_id d.attempts (finish_failure e) t
handle (Lifecycle.cancelled d) t = end_ d.ticket_id d.attempts finish_cancelled t
handle (Lifecycle.retry_budget_exhausted id url partition) t = t
handle (Lifecycle.circuit_open partition) t = t
handle (Lifecycle.circuit_close partition) t = t

-- Of a RequestContext, what the middleware reads.
pub record Attempt : Type 0 where
  pub ticket_id : ℕ
  pub method : Text
  pub url : Text
  pub partition : Text
  pub attempt : ℕ

abbrev pub resend_count : ℕ → List Attribute
resend_count attempt = if ltb 0 attempt then http_request_resend_count attempt ∷ [] else []

-- `attemptSpans`, up to `await next(ctx)`.
unfoldable pub attempt_starts : Attempt → Tracing → Tracing
attempt_starts ctx t =
    if t.active
    then record t {
      spans =
          t.spans
          ++ (started ctx.method client (get ctx.ticket_id t.tickets) (
                http_request_method ctx.method
                ∷ url_full (safe_url t.redact_query ctx.url)
                ∷ vereda_partition ctx.partition
                ∷ resend_count ctx.attempt)
              ∷ []);
      waiting = length t.spans ∷ t.waiting;
    }
    else t

-- How `next(ctx)` ends: with a response, or with an error and its name, if it is an `Error`.
pub data Ended : Type 0 where
  responded : (status : ℕ) → Ended
  threw : (name : Option Text) → Ended

abbrev pub thrown_type : Option Text → ErrorType
thrown_type none = unknown
thrown_type (some name) = of_name name

abbrev pub tell : Ended → Span → Span
tell (responded status) span =
    let s = set_attribute (http_response_status_code status) span in
    if leb 400 status then set_error (set_attribute (error_type (of_status status)) s) else s
tell (threw name) span = set_error (set_attribute (error_type (thrown_type name)) span)

-- What follows it, of the attempt whose span is `s`; a promise settles once.
unfoldable pub attempt_settles : (s : ℕ) → Ended → Tracing → Tracing
unfolding on_span
attempt_settles s ended t =
    if includes s t.waiting
    then record t {
      spans = on_span (λ span. end_span (tell ended span)) s t.spans;
      waiting = erase s t.waiting;
    }
    else t

unfoldable pub end_each : List (ℕ × ℕ) → List Span → List Span
unfolding on_span
end_each [] spans = spans
end_each ((id, s) ∷ rest) spans = end_each rest (on_span end_span s spans)

-- The function that instrumentTracing returns.
unfoldable pub stop : Tracing → Tracing
unfolding end_each
stop t = record t {
  active = false;
  listening = false;
  spans = end_each t.tickets t.spans;
  tickets = [];
}

pub data Op : Type 0 where
  emits : LifecycleEvent → Op
  starts : Attempt → Op
  settles : (s : ℕ) → Ended → Op
  stops : Op
  -- An emission in which a listener that was registered before the handlers calls the function.
  stops_within : LifecycleEvent → Op

-- `emit` calls the handlers that were registered when it began.
abbrev pub heard : (registered : Bool) → LifecycleEvent → Tracing → Tracing
heard registered e t = if registered then handle e t else t

-- Events stand in the order in which their handlers are called.
unfoldable pub step : Tracing → Op → Tracing
unfolding on_request on_retry end_ attempt_starts attempt_settles stop
step t (emits e) = heard t.listening e t
step t (starts ctx) = attempt_starts ctx t
step t (settles s ended) = attempt_settles s ended t
step t stops = stop t
step t (stops_within e) = heard t.listening e (stop t)

unfoldable pub run : Tracing → List Op → Tracing
unfolding step
run t [] = t
run t (op ∷ ops) = run (step t op) ops

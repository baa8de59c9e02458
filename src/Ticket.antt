-- ===== src/Ticket.antt =====
-- src/ticket/ticket.ts: the lifecycle of one ticket, which its controller and `cancel` move. What the
-- emitter sends out is a log; a listener that calls back is the next operation, since each method
-- emits after it has changed the status and changes nothing that a listener could read afterwards.
pub mod Lifecycle
pub mod Settled
pub mod Subscribe
mod Examples
use vereda.Common.{ℕ, Bool, true, false, ◌||◌, Option, none, some, List, [], ◌∷◌, if◌then◌else◌}
use vereda.Errors.{AppError, cancelled_error}

pub data Result (A : Type 0) : Type 0 where
  success : A → Result A
  failure : AppError → Result A

-- `TicketStatus["state"]`.
pub data State : Type 0 where
  pending queued retrying done cancelled : State

pub data TicketStatus (A : Type 0) : Type 0 where
  is_pending : TicketStatus A
  is_queued : TicketStatus A
  is_retrying : (attempt : ℕ) → TicketStatus A
  is_done : Result A → TicketStatus A
  is_cancelled : TicketStatus A

abbrev pub state : {A : Type 0} → TicketStatus A → State
state is_pending = pending
state is_queued = queued
state (is_retrying attempt) = retrying
state (is_done r) = done
state is_cancelled = cancelled

pub data TicketUpdate (A : Type 0) : Type 0 where
  on_queued : TicketUpdate A
  on_retrying : (attempt delay_ms : ℕ) → TicketUpdate A
  on_done : Result A → TicketUpdate A
  on_cancelled : TicketUpdate A

-- A call of `emitter.emit`, by the name of its event.
pub data Emitted (A : Type 0) : Type 0 where
  update : TicketUpdate A → Emitted A
  done_event : Result A → Emitted A
  error_event : AppError → Emitted A

abbrev same_state : State → State → Bool
same_state pending pending = true
same_state queued queued = true
same_state retrying retrying = true
same_state done done = true
same_state cancelled cancelled = true
same_state s t = false

abbrev includes_state : State → List State → Bool
includes_state s [] = false
includes_state s (t ∷ ts) = if same_state t s then true else includes_state s ts

abbrev pub allowed_transitions : State → List State
allowed_transitions pending = queued ∷ done ∷ cancelled ∷ []
allowed_transitions queued = retrying ∷ done ∷ cancelled ∷ []
allowed_transitions retrying = retrying ∷ done ∷ cancelled ∷ []
allowed_transitions cancelled = []
allowed_transitions done = []

abbrev pub allowed : State → State → Bool
allowed s next = includes_state next (allowed_transitions s)

pub record Ticket (A : Type 0) : Type 0 where
  pub status : TicketStatus A
  pub cancelled_flag : Bool
  pub signal_aborted : Bool
  pub promise : Option (Result A)  -- what `_promise` is resolved with
  pub emitted : List (Emitted A)  -- the newest first

unfoldable pub new : (A : Type 0) → Ticket A
new A = record {
  status = is_pending;
  cancelled_flag = false;
  signal_aborted = false;
  promise = none;
  emitted = [];
}

unfoldable pub apply_transition : {A : Type 0} → Ticket A → TicketStatus A → Ticket A × Bool
apply_transition t next =
    if allowed (state t.status) (state next) then (record t { status = next }, true) else (t, false)

abbrev pub emit : {A : Type 0} → Emitted A → Ticket A → Ticket A
emit e t = record t { emitted = e ∷ t.emitted }

-- A promise keeps the first value it is resolved with.
abbrev pub settle_with : {A : Type 0} → Result A → Option (Result A) → Option (Result A)
settle_with r none = some r
settle_with r (some first) = some first

abbrev pub resolve : {A : Type 0} → Result A → Ticket A → Ticket A
resolve r t = record t { promise = settle_with r t.promise }

unfoldable pub cancel : {A : Type 0} → Ticket A → Ticket A
unfolding apply_transition
cancel t =
    if t.cancelled_flag
    then t
    else let (t', applied) = apply_transition t is_cancelled in
      let result = failure cancelled_error in
      if applied
      then resolve result (
          emit (error_event cancelled_error) (
            emit (done_event result) (
              emit (update on_cancelled)
                (record t' { cancelled_flag = true; signal_aborted = true }))))
      else t

unfoldable pub mark_queued : {A : Type 0} → Ticket A → Ticket A
unfolding apply_transition
mark_queued t =
    let (t', applied) = apply_transition t is_queued in
    if applied then emit (update on_queued) t' else t

unfoldable pub mark_retrying : {A : Type 0} → Ticket A → (attempt delay_ms : ℕ) → Ticket A
unfolding apply_transition
mark_retrying t attempt delay_ms =
    let (t', applied) = apply_transition t (is_retrying attempt) in
    if applied then emit (update (on_retrying attempt delay_ms)) t' else t

abbrev pub emit_error : {A : Type 0} → Result A → Ticket A → Ticket A
emit_error (success a) t = t
emit_error (failure e) t = emit (error_event e) t

unfoldable pub mark_done : {A : Type 0} → Ticket A → Result A → Ticket A
unfolding apply_transition
mark_done t result =
    let (t', applied) = apply_transition t (is_done result) in
    if applied
    then resolve result
        (emit_error result (emit (done_event result) (emit (update (on_done result)) t')))
    else t

-- The controller's `abortSignal`.
unfoldable pub abort_signal : {A : Type 0} → Ticket A → Ticket A
abort_signal t = record t { signal_aborted = true }

unfoldable pub is_settled : {A : Type 0} → Ticket A → Bool
is_settled t = same_state (state t.status) done || t.cancelled_flag

pub data Op (A : Type 0) : Type 0 where
  marks_queued : Op A
  marks_retrying : (attempt delay_ms : ℕ) → Op A
  marks_done : Result A → Op A
  aborts_signal : Op A
  cancels : Op A

unfoldable pub step : {A : Type 0} → Ticket A → Op A → Ticket A
step t marks_queued = mark_queued t
step t (marks_retrying attempt delay_ms) = mark_retrying t attempt delay_ms
step t (marks_done result) = mark_done t result
step t aborts_signal = abort_signal t
step t cancels = cancel t

unfoldable pub run : {A : Type 0} → Ticket A → List (Op A) → Ticket A
unfolding step
run t [] = t
run t (op ∷ ops) = run (step t op) ops

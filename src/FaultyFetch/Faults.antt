-- ===== src/FaultyFetch/Faults.antt =====
-- src/testing/index.ts: what becomes of a call that faultyFetch has given an answer. `new Response` is
-- a parameter; it fails on a status or a body that a response cannot have.
use vereda.Common.{ℕ, Bool, Option, none, some, List, get_elem?, length, if◌then◌else◌}
use vereda.FaultyFetch.{Rate, Answer, faulted, call}
use vereda.FaultyFetch.Options.{Value, GivenFault}

-- `signalOf(input, init)`, when the call is made.
pub data Signal : Type 0 where
  absent live aborted : Signal

pub data Outcome (R : Type 0) : Type 0 where
  calls_inner rejects_with_reason network_failure hangs : Outcome R
  responds : R → Outcome R
  -- `sleep(ms, signal)`, then the inner fetch.
  waits : (ms : Value) → Outcome R
  -- A fault that is not there, or one of which no response can be made.
  broken : Outcome R

-- `fault.body ?? null`.
abbrev pub body_of : Value → Option Value
body_of Value.undefined = none
body_of Value.null = none
body_of v = some v

module _ {R : Type 0} (new_response : (status : Value) → (body : Option Value) → Option R) where
  abbrev pub made : Option R → Outcome R
  made none = broken
  made (some r) = responds r

  abbrev pub respond : GivenFault → Value → Outcome R
  respond f status = if f.headers_form then made (new_response status (body_of f.body)) else broken

  -- The tests `"status" in fault`, `"latencyMs" in fault` and `"networkError" in fault`.
  abbrev pub by_network : Option Value → Outcome R
  by_network (some v) = network_failure
  by_network none = hangs

  abbrev pub by_latency : GivenFault → Option Value → Outcome R
  by_latency f (some ms) = waits ms
  by_latency f none = by_network f.network_error

  abbrev pub by_status : GivenFault → Option Value → Outcome R
  by_status f (some status) = respond f status
  by_status f none = by_latency f f.latency_ms

  abbrev pub inject : Option GivenFault → Signal → Outcome R
  inject fault aborted = rejects_with_reason
  inject none signal = broken
  inject (some f) signal = by_status f f.status

  abbrev pub settle : List GivenFault → Signal → Answer → Outcome R
  settle faults signal (faulted pick) = inject (get_elem? faults pick) signal
  settle faults signal _ = calls_inner

  -- One call of the fetch that faultyFetch returns.
  unfoldable pub faulty_call :
      Rate → List GivenFault → (draws : ℕ → ℕ) → (matches : Bool) → (taken : ℕ) → Signal → Outcome R
  unfolding call
  faulty_call rate faults draws matches taken signal =
      settle faults signal (call rate (length faults) draws matches taken).0

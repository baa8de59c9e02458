-- ===== src/Middleware.antt =====
-- src/middleware/index.ts: defaultHeaders and requestLogger. A `Headers` is the list of its names and
-- values; the entries of `new Headers(headers)` come as it gives them, with names in lower case.
pub mod Defaults
mod Examples
use vereda.Common.{
  ℕ, ◌-◌, Bool, true, false, Option, none, some, List, [], ◌∷◌, ◌++◌, if◌then◌else◌,
}
use vereda.Common.Text.{Text, codes, to_lower_case}
use vereda.Idempotency.{Headers, is_named}
use vereda.Redact.{redact_url}

-- `ctx.headers.has(key)`.
abbrev pub has : Text → Headers → Bool
has key [] = false
has key (h ∷ hs) = let rest = has key hs in if is_named (to_lower_case key) h then true else rest

-- `set` of a name that is not there.
abbrev pub add_missing : Text × Text → Headers → Headers
add_missing (key, value) hs = if has key hs then hs else hs ++ ((key, value) ∷ [])

-- The headers that the request goes on with.
unfoldable pub default_headers : (entries : Headers) → Headers → Headers
default_headers [] hs = hs
default_headers (e ∷ es) hs = default_headers es (add_missing e hs)

-- How `next(ctx)` ends: an error with its message, or `String(err)`.
pub data Ended (R E : Type 0) : Type 0 where
  returned : R → Ended R E
  threw : E → Ended R E

pub data Line : Type 0 where
  completed : (url : Text) (status duration_ms : ℕ) → Line
  failed : (url error : Text) (duration_ms : ℕ) → Line

-- What the middleware leaves: its own end, the lines that the sink was given, and the errors of the sink
-- that were reported.
pub record Logged (R E : Type 0) : Type 0 where
  pub ended : Ended R E
  pub lines : List Line
  pub reported : List Line

module _ {R E : Type 0} (status_of : R → ℕ) (message_of : E → Text) where
  abbrev pub shown_url : (redact_query : Option Bool) → Text → Text
  shown_url (some false) url = url
  shown_url _ url = redact_url url

  abbrev pub line_of : Option Bool → Text → (duration_ms : ℕ) → Ended R E → Line
  line_of redact_query url duration_ms (returned r) =
      completed (shown_url redact_query url) (status_of r) duration_ms
  line_of redact_query url duration_ms (threw e) =
      failed (shown_url redact_query url) (message_of e) duration_ms

  -- `sink_throws` is what the sink does with a line.
  unfoldable pub request_logger :
      (redact_query : Option Bool) (sink_throws : Line → Bool) (url : Text) (start now : ℕ)
      → Ended R E
      → Logged R E
  request_logger redact_query sink_throws url start now e =
      let line = line_of redact_query url (now - start) e in
      record { ended = e; lines = line ∷ []; reported = if sink_throws line then line ∷ [] else [] }

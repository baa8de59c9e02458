-- ===== src/Executor/Bytes.antt =====
-- src/queue/executor.ts: readBytes, readBody and extractIssues. What the reader of the body gives, and
-- whether the signal is aborted when it has ended, are the record `Reading`; the decoder and
-- `JSON.parse` are parameters.
pub mod Whole
mod Examples
use mathlib.Core.Option
use vereda.Common.{
  ℕ, zero, suc, ◌+◌, Bool, true, false, not, Option, none, some, List, [], ◌∷◌, ◌++◌, length,
  if◌then◌else◌,
}
use vereda.Executor.{ResponseType, json, text, array_buffer, blob, no_body}

abbrev pub Bytes : Type 0
Bytes = List ℕ

pub record Reading : Type 0 where
  pub has_body : Bool
  pub chunks : List Bytes  -- the values of `reader.read()` up to `done`
  pub breaks : Bool  -- whether a read rejects instead of reporting `done`
  pub aborted_then : Bool  -- the signal, after the last read

-- What a reading throws, or the bytes.
pub data Read : Type 0 where
  stream_error reason range_error : Read
  bytes : Bytes → Read

-- `new Uint8Array(n)`.
abbrev pub zeros : ℕ → Bytes
zeros zero = []
zeros (suc n) = 0 ∷ zeros n

-- `bytes.set(chunk, offset)`, which throws where the chunk does not fit: none.
abbrev pub put_at : Bytes → (chunk : Bytes) → Option Bytes
put_at bs [] = some bs
put_at [] (c ∷ cs) = none
put_at (b ∷ bs) (c ∷ cs) = Option.map (λ rest. c ∷ rest) (put_at bs cs)

abbrev pub set_at : Bytes → (offset : ℕ) → (chunk : Bytes) → Option Bytes
set_at bs zero chunk = put_at bs chunk
set_at [] (suc offset) chunk = none
set_at (b ∷ bs) (suc offset) chunk = Option.map (λ rest. b ∷ rest) (set_at bs offset chunk)

-- The first loop: the chunks and their length.
abbrev pub collect : (chunks : List Bytes) → (len : ℕ) → List Bytes → List Bytes × ℕ
collect chunks len [] = (chunks, len)
collect chunks len (value ∷ values) = collect (chunks ++ (value ∷ [])) (len + length value) values

-- The second loop.
abbrev pub fill : Bytes → (offset : ℕ) → List Bytes → Option Bytes
fill bs offset [] = some bs
fill bs offset (chunk ∷ chunks) = elim (set_at bs offset chunk) [
  | none ↦ none
  | some bs' ↦ fill bs' (offset + length chunk) chunks
]

abbrev pub filled : Option Bytes → Read
filled none = range_error
filled (some bs) = bytes bs

unfoldable pub read_bytes : Reading → Read
read_bytes r =
    let (chunks, len) = collect [] 0 r.chunks in
    if not r.has_body
    then bytes []
    else if r.breaks
    then stream_error
    else if r.aborted_then
    then reason
    else filled (fill (zeros len) 0 chunks)

-- What readBody comes to: `unread` is a body that it cancels.
pub data Body (T V : Type 0) : Type 0 where
  unread syntax_error : Body T V
  threw : Read → Body T V
  parsed : V → Body T V
  decoded : T → Body T V
  buffer blob_of : Bytes → Body T V

module _ {T V : Type 0} (decode : Bytes → T) (parse : T → Option V) where
  abbrev pub parsed_of : Option V → Body T V
  parsed_of none = syntax_error
  parsed_of (some v) = parsed v

  abbrev pub read_as : ResponseType → Bytes → Body T V
  read_as json bs = parsed_of (parse (decode bs))
  read_as text bs = decoded (decode bs)
  read_as array_buffer bs = buffer bs
  read_as blob bs = blob_of bs
  read_as no_body bs = unread

  abbrev pub with_bytes : ResponseType → Read → Body T V
  with_bytes t (bytes bs) = read_as t bs
  with_bytes t r = threw r

  unfoldable pub read_body : ResponseType → Reading → Body T V
  unfolding read_bytes
  read_body no_body r = unread
  read_body json r = with_bytes json (read_bytes r)
  read_body text r = with_bytes text (read_bytes r)
  read_body array_buffer r = with_bytes array_buffer (read_bytes r)
  read_body blob r = with_bytes blob (read_bytes r)

-- What `parse` throws: a value with the properties that it has.
abbrev pub extract_issues : {E : Type 0} → (errors issues : Option (List E)) → (err : E) → List E
extract_issues (some errors) issues err = errors
extract_issues none (some issues) err = issues
extract_issues none none err = err ∷ []

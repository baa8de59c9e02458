-- ===== src/Merge.antt =====
-- src/core/client.ts: how the timeouts of a request come from the client's, its partition's and its own;
-- src/core/types.ts: partitionLookup. A field of an object is missing, set, or there with the value
-- undefined, which a spread copies like any other.
pub mod Attempts
pub mod Partition
mod Examples
use vereda.Common.{ℕ, Bool, true, false, Option, none, some, List, [], ◌∷◌, if◌then◌else◌}
use vereda.Common.Number.{Number}
use vereda.Common.Text.{Text, text_eq}
use vereda.Validate.{TimeoutConfig}

pub data Field (A : Type 0) : Type 0 where
  missing undefined_value : Field A
  set_to : A → Field A

-- `{ ...earlier, ...later }`, of one field.
abbrev pub spread : {A : Type 0} → (earlier later : Field A) → Field A
spread earlier missing = earlier
spread earlier undefined_value = undefined_value
spread earlier (set_to a) = set_to a

-- What reading the field gives.
abbrev pub read : {A : Type 0} → Field A → Option A
read missing = none
read undefined_value = none
read (set_to a) = some a

pub record Timeouts : Type 0 where
  pub attempt_ms : Field Number
  pub total_ms : Field Number

abbrev pub spread_timeouts : Timeouts → Option Timeouts → Timeouts
spread_timeouts earlier none = earlier
spread_timeouts earlier (some later) = record {
  attempt_ms = spread earlier.attempt_ms later.attempt_ms;
  total_ms = spread earlier.total_ms later.total_ms;
}

-- As the code that reads the merged object sees it.
abbrev pub seen : Timeouts → TimeoutConfig
seen t = record { attempt_ms = read t.attempt_ms; total_ms = read t.total_ms }

unfoldable pub merge_timeout :
    (client : Timeouts) → (partition request : Option Timeouts) → Timeouts
merge_timeout client partition request = spread_timeouts (spread_timeouts client partition) request

-- An entry of its own, or the fallback.
unfoldable pub partition_lookup :
    {P : Type 0} → List (Text × P) → (fallback : Option P) → Text → Option P
partition_lookup [] fallback name = fallback
partition_lookup ((n, config) ∷ partitions) fallback name =
    let rest = partition_lookup partitions fallback name in
    if text_eq n name then some config else rest

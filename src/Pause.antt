-- ===== src/Pause.antt =====
-- src/queue/pause.ts: a partition's "do not send before" time. The clock is an argument.
pub mod Extend
mod Examples
use vereda.Common.{ℕ, ◌+◌, ◌-◌, min, max, List, [], ◌∷◌, Option, or_default}

pub record PauseOnRetryAfterConfig : Type 0 where
  pub statuses : Option (List ℕ)
  pub max_pause_ms : Option ℕ

abbrev pub default_pause_statuses : List ℕ
default_pause_statuses = 429 ∷ 503 ∷ []

abbrev pub default_max_pause_ms : ℕ
default_max_pause_ms = 30000

pub record PartitionPause : Type 0 where
  pub statuses : List ℕ
  pub max_pause_ms : ℕ
  pub until : ℕ

unfoldable pub new : PauseOnRetryAfterConfig → PartitionPause
new config = record {
  statuses = or_default config.statuses default_pause_statuses;
  max_pause_ms = or_default config.max_pause_ms default_max_pause_ms;
  until = 0;
}

-- The new pause; what the method returns is its `until`.
unfoldable pub extend : PartitionPause → (ms now : ℕ) → PartitionPause
extend p ms now = record p { until = max p.until (now + min ms p.max_pause_ms) }

-- `Math.max(0, until - now)`, which truncated subtraction is.
unfoldable pub remaining : PartitionPause → (now : ℕ) → ℕ
remaining p now = p.until - now

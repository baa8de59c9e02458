-- ===== src/Lifecycle.antt =====
-- src/core/types.ts: what the lifecycle events carry. A ticket's id is a number; of a URL, a method
-- and a partition the code units are kept.
use vereda.Common.{ℕ, Option}
use vereda.Common.Text.{Text}
use vereda.Errors.{AppError}

-- The fields that the three terminal events share. Only a request whose URL did not resolve has no
-- partition.
pub record Terminal : Type 0 where
  pub ticket_id : ℕ
  pub url : Text
  pub partition : Option Text
  pub attempts : ℕ
  pub duration_ms : ℕ
  pub queued_ms : ℕ

pub data LifecycleEvent : Type 0 where
  request : (ticket_id : ℕ) (url method partition : Text) → LifecycleEvent
  retry : (ticket_id : ℕ) (url partition : Text) (attempt delay_ms : ℕ) → AppError → LifecycleEvent
  success : Terminal → (status_code : ℕ) → LifecycleEvent
  failure : Terminal → AppError → LifecycleEvent
  cancelled : Terminal → LifecycleEvent
  retry_budget_exhausted : (ticket_id : ℕ) (url partition : Text) → LifecycleEvent
  circuit_open circuit_close : (partition : Text) → LifecycleEvent

-- ===== src/Scheduler/Item.antt =====
-- The interface `Item` of internal/engine/scheduler/scheduler.go, as far as the scheduler reads it.
use varc.Base.{Bool}
use varc.Ranges.{Range}

pub record ItemView : Type 0 where
  pub find_missing : Range → Range
  pub has_range : Range → Bool

-- ===== src/Credit/Boundary.antt =====
-- When the time buckets of a balance are due: kokoro-credit/src/domain/reset-boundary.ts.
use kokoro_platform.Base.{ℕ, Bool, true, Option, none, some, ltb}
use kokoro_platform.Base.Calendar.{start_of_day, start_of_month}

unfoldable pub daily_boundary : ℕ → ℕ
daily_boundary now = start_of_day now

unfoldable pub period_boundary : ℕ → ℕ
period_boundary now = start_of_month now

unfoldable pub is_stale : Option ℕ → ℕ → Bool
is_stale none _ = true
is_stale (some reset_on) boundary = ltb reset_on boundary

-- ===== src/Common/Spans.antt =====
-- Durations.
use Prim.Native.Nat.{ℕ}

-- A JavaScript number of milliseconds that may be negative: `minus n` is -(n + 1).
pub data Span : Type 0 where
  plus minus : ℕ → Span

-- `Math.max(0, …)`
abbrev pub at_least_zero : Span → ℕ
at_least_zero (plus n) = n
at_least_zero (minus n) = 0

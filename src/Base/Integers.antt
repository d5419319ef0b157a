-- ===== src/Base/Integers.antt =====
-- Signed integers over the native numbers, for `i64`.
use Prim.Native.Nat.{ℕ}
use mathlib.Core.Bool.{Bool, false}
use kaspa_frontier_engine.Base.Tests.{ltb}

pub data ℤ : Type 0 where
  pos : ℕ → ℤ
  negsuc : ℕ → ℤ

abbrev pub is_positive : ℤ → Bool
is_positive (pos n) = ltb 0 n
is_positive (negsuc n) = false

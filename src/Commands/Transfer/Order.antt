-- ===== src/Commands/Transfer/Order.antt =====
-- The order in which transfers take their two locks.
use Prim.Native.Nat.compare as compare_ℕ
use Prim.Native.Nat.{Ordering, compare as compare_ℕ}
use Prim.Native.String.compare
use Prim.Native.String.{String, compare}

abbrev flip : Ordering → Ordering
flip Ordering.lt = Ordering.gt
flip Ordering.eq = Ordering.eq
flip Ordering.gt = Ordering.lt

-- ===== src/Prelude/Numbers.antt =====
-- A JavaScript number of which only the integer part is read.
use Prim.Native.Nat.{ℕ}

-- `negative n` has the integer part -(n + 1).
pub data Number : Type 0 where
  not_finite : Number
  negative natural : ℕ → Number

-- ===== src/Base/Floats.antt =====
-- float64 as an interface: the constants and operations that the gateway calls. No law is part of
-- it; a theorem that needs one (an order with no NaN, say) takes it as a hypothesis.
use mathlib.Core.Bool.{Bool}
use Prim.Native.Nat.{ℕ}

pub record Float : Type 1 where
  pub R : Type 0
  -- the double nearest to a / b
  pub ratio : ℕ → ℕ → R
  -- float64(n), for the 64-bit pattern n of an int
  pub of_int : ℕ → R
  pub add : R → R → R
  pub mul : R → R → R
  pub div : R → R → R
  pub lt : R → R → Bool
  pub le : R → R → Bool
  pub eq : R → R → Bool

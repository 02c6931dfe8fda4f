-- ===== src/Base/Word.antt =====
-- Go's int (64 bits): a value is its bit pattern, a number below 2 ^ 64, and wraps around.
use Prim.Native.Nat.{ℕ, ◌+◌, ◌-◌, ◌%◌}
use mathlib.Core.Bool.{Bool, ◌&&◌}
use majordomo_gateway.Base.Tests.{ltb}

abbrev pub int_mod : ℕ
int_mod = 0x1_0000_0000_0000_0000

abbrev pub int_half : ℕ
int_half = 0x8000_0000_0000_0000

unfoldable pub add_int : ℕ → ℕ → ℕ
add_int a b = (a + b) % int_mod

unfoldable pub sub_int : ℕ → ℕ → ℕ
sub_int a b = (a + (int_mod - b)) % int_mod

-- a < b, as signed integers
abbrev pub lt_int : ℕ → ℕ → Bool
lt_int a b = ltb ((a + int_half) % int_mod) ((b + int_half) % int_mod)

-- 0 < a
abbrev pub is_pos : ℕ → Bool
is_pos a = ltb 0 a && ltb a int_half

-- ===== src/Base/Word.antt =====
-- The 64-bit and 32-bit unsigned words of the source, as numbers with their wrap-around.
use Prim.Native.Nat.{ℕ, ◌+◌, ◌-◌, ◌%◌, ◌^◌}

abbrev pub u64 : ℕ
u64 = 2 ^ 64

abbrev pub u32 : ℕ
u32 = 2 ^ 32

abbrev pub int_max : ℕ
int_max = 2 ^ 31 - 1

abbrev pub int64_max : ℕ
int64_max = 2 ^ 63 - 1

-- `fetch_add` on an atomic 64-bit counter.
abbrev pub add64 : ℕ → ℕ → ℕ
add64 a b = (a + b) % u64

abbrev pub sub64 : ℕ → ℕ → ℕ
sub64 a b = (a + u64 - b) % u64

-- ===== src/Base/Int.antt =====
-- Signed integers over the native numbers, with the tests that the source makes on an `int`.
use Prim.Native.Nat.{ℕ, suc}
use mathlib.Core.Bool.{Bool, true, false}
use titan_bench.Base.Check.{leb}

-- `negsuc n` is -(n + 1).
pub data ℤ : Type 0 where
  pos : ℕ → ℤ
  negsuc : ℕ → ℤ

-- n ≤ a and a ≤ n, for a bound that is not negative.
abbrev pub at_least : ℕ → ℤ → Bool
at_least n (pos a) = leb n a
at_least n (negsuc a) = false

abbrev pub at_most : ℕ → ℤ → Bool
at_most n (pos a) = leb a n
at_most n (negsuc a) = true

-- `static_cast<std::uint64_t>` of a non-negative value; a negative one is never cast.
abbrev pub neg_of : ℕ → ℤ
neg_of ℕ.zero = pos 0
neg_of (suc n) = negsuc n

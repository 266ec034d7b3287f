-- ===== src/Stats/Floats.antt =====
-- The double arithmetic that `Snapshot` uses, as an interface: antt has no floating point.
use titan_bench.Base.{ℕ, ◌≤◌, ◌<◌, u64}

pub record Floats : Type 1 where
  pub Double : Type 0
  pub of_u64 : ℕ → Double
  pub to_u64 : Double → ℕ
  pub times : Double → Double → Double
  pub over : Double → Double → Double
  -- The literals 1000000000.0, 0.50, 0.95 and 0.99.
  pub billion : Double
  pub p50 : Double
  pub p95 : Double
  pub p99 : Double

-- `static_cast<std::uint64_t>(pct * static_cast<double>(total))`.
abbrev pub share : (fl : Floats) → fl.Double → ℕ → ℕ
share fl pct total = fl.to_u64 (fl.times pct (fl.of_u64 total))

-- Multiplication and both conversions are monotone, and 0.99 of a count is not above it.
pub record FloatLaws (fl : Floats) : Type 0 where
  pub share_p50_p95 : (n : ℕ) → n < u64 → share fl fl.p50 n ≤ share fl fl.p95 n
  pub share_p95_p99 : (n : ℕ) → n < u64 → share fl fl.p95 n ≤ share fl fl.p99 n
  pub share_p99 : (n : ℕ) → n < u64 → share fl fl.p99 n ≤ n

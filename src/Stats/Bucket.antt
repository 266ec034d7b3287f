-- ===== src/Stats/Bucket.antt =====
-- src/core/stats.cpp: `NormalizePowerOfTwo`, `LatencyToBucket` and `BucketToLatencyUpperNs`.
pub mod Bounds
pub mod Power
use titan_bench.Base.{
  ℕ, zero, suc, ◌+◌, ◌-◌, ◌*◌, ◌/◌, ◌%◌, max, Option, none, some, ltb, leb, if◌then◌else◌, u64,
}

abbrev pub latency_bucket_count : ℕ
latency_bucket_count = 11891

abbrev pub ns_per_us : ℕ
ns_per_us = 1000

-- `while (out < value) out <<= 1;` on fuel. `none`: the fuel ran out.
unfoldable pub double_until : ℕ → ℕ → ℕ → Option ℕ
double_until zero value out = none
double_until (suc fuel) value out =
    let rest = double_until fuel value (out * 2 % u64) in if ltb out value then rest else some out

unfoldable pub normalize_power_of_two : ℕ → ℕ → Option ℕ
normalize_power_of_two n min_value = double_until 65 (max n min_value) 1

unfoldable pub latency_to_bucket : ℕ → ℕ
latency_to_bucket latency_ns =
    let latency_us = latency_ns / ns_per_us in
    if leb latency_us 1000
    then latency_us
    else if leb latency_us 100000
    then 1000 + (latency_us - 1000) / 100
    else if leb latency_us 10000000
    then 1990 + (latency_us - 100000) / 1000
    else latency_bucket_count - 1

-- No bucket below 11891 makes these products wrap.
unfoldable pub bucket_to_latency_upper_ns : ℕ → ℕ
bucket_to_latency_upper_ns bucket =
    if leb bucket 1000
    then bucket * ns_per_us
    else if leb bucket 1990
    then (1000 + (bucket - 1000) * 100) * ns_per_us
    else (100000 + (bucket - 1990) * 1000) * ns_per_us

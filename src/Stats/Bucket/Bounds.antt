-- ===== src/Stats/Bucket/Bounds.antt =====
-- src/core/stats.cpp: a latency and its bucket.
use titan_bench.Base.{ℕ, ◌+◌, ◌≤◌, ◌<◌, ◌≡◌, arith, leb, if◌then◌else◌}
use titan_bench.Stats.Bucket.{latency_bucket_count, latency_to_bucket, bucket_to_latency_upper_ns}

-- The bucket of every latency is an index into the histogram.
pub latency_to_bucket-lt : (ns : ℕ) → latency_to_bucket ns < latency_bucket_count
unfolding latency_to_bucket
latency_to_bucket-lt ns = ground arith

-- A longer latency never falls into a lower bucket.
pub latency_to_bucket_mono : (a b : ℕ) → a ≤ b → latency_to_bucket a ≤ latency_to_bucket b
unfolding latency_to_bucket
latency_to_bucket_mono a b h = ground arith

-- The latency that is reported for a bucket falls into that bucket.
pub latency_to_bucket-upper :
    (b : ℕ) → b < latency_bucket_count → latency_to_bucket (bucket_to_latency_upper_ns b) ≡ b
unfolding latency_to_bucket bucket_to_latency_upper_ns
latency_to_bucket-upper b h = ground arith

pub upper_mono : (a b : ℕ) → a ≤ b → bucket_to_latency_upper_ns a ≤ bucket_to_latency_upper_ns b
unfolding bucket_to_latency_upper_ns
upper_mono a b h = ground arith

pub upper-le : (ns : ℕ) → bucket_to_latency_upper_ns (latency_to_bucket ns) ≤ ns
unfolding latency_to_bucket bucket_to_latency_upper_ns
upper-le ns = ground arith

-- The width of the bucket of a latency: 1 us up to 1 ms, then 100 us, then 1 ms.
abbrev pub resolution : ℕ → ℕ
resolution ns = if leb ns 1000999 then 1000 else if leb ns 100000999 then 100000 else 1000000

-- The latency that is reported for the bucket of a latency of at most ten seconds is at most
-- that latency, and short of it by less than the bucket's width.
pub upper_within :
    (ns : ℕ)
    → ns ≤ 10000000000
    → (bucket_to_latency_upper_ns (latency_to_bucket ns) ≤ ns)
      × (ns < bucket_to_latency_upper_ns (latency_to_bucket ns) + resolution ns)
unfolding latency_to_bucket bucket_to_latency_upper_ns
upper_within ns h = ground arith

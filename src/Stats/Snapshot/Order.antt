-- ===== src/Stats/Snapshot/Order.antt =====
-- src/core/stats.cpp: the order of the latency figures of a snapshot.
use native.Mathlib.Nat.{le-div_iff_mul-le, div-le_of_le-mul, mul-le-mul_right, mul_comm}
use titan_bench.Base.{
  ℕ, zero, suc, ◌+◌, ◌-◌, ◌*◌, replicate, ◌/◌, ◌≤◌, ◌<◌, max, min, ◌≡◌, refl, List, [], ◌∷◌, arith,
  All, length, get_or, set, take, sum_of, count_if, ◌==◌, add64, u64, false, Bool-cases, inl, inr,
  ==_iff, subst,
}
use titan_bench.Stats.Sample.{RequestSample}
use titan_bench.Stats.Bucket.{latency_bucket_count, latency_to_bucket, bucket_to_latency_upper_ns}
use titan_bench.Stats.Bucket.Bounds.{latency_to_bucket-lt, upper-le, upper_mono}
use titan_bench.Stats.Floats.{Floats, FloatLaws}
use titan_bench.Stats.Collector.{Collector, record_fast_path, bump, fresh}
use titan_bench.Stats.Collector.Totals.{
  record_all, IsClassed, Tally, Shape, record_fast_path-Shape, smallest, largest, record_all-Tally,
  fresh-Shape,
}
use titan_bench.Stats.Snapshot.{StatsSnapshot, read_out, get_percentile_ns}
use titan_bench.Stats.Snapshot.Percentile.{
  sum, Crosses, Crosses-mono, target_of, get_percentile-Crosses,
}

get_or-le-sum : (hs : List ℕ) (i : ℕ) → get_or hs i 0 ≤ sum hs
get_or-le-sum [] i = omega arith
get_or-le-sum (h ∷ hs) zero = omega arith
get_or-le-sum (h ∷ hs) (suc i) = omega (arith, get_or-le-sum hs i)

sum-set : (hs : List ℕ) (i v : ℕ) → i < length hs → sum (set hs i v) + get_or hs i 0 ≡ sum hs + v
sum-set [] i v h = absurd (omega arith)
sum-set (x ∷ hs) zero v h = omega arith
sum-set (x ∷ hs) (suc i) v h = omega (arith, sum-set hs i v (omega arith))

sum-bump : (hs : List ℕ) (i : ℕ) → i < length hs → sum hs + 1 < u64 → sum (bump hs i) ≡ sum hs + 1
sum-bump hs i h w = omega (arith, get_or-le-sum hs i, sum-set hs i (add64 (get_or hs i 0) 1) h)

sum-record_all :
    (clock : ℕ → ℕ) (ss : List RequestSample) (c : Collector)
    → Shape c
    → sum c.latency_histogram + length ss < u64
    → sum (record_all clock c ss).latency_histogram ≡ sum c.latency_histogram + length ss
unfolding record_all
sum-record_all clock [] c v h = omega arith
sum-record_all clock (s ∷ ss) c v h =
    let c' = record_fast_path (clock c.total_requests) c s in
    let one : sum c'.latency_histogram ≡ sum c.latency_histogram + 1 =
      unfold record_fast_path in
      sum-bump c.latency_histogram (latency_to_bucket s.latency_ns)
        (omega (arith, v.buckets, latency_to_bucket-lt s.latency_ns)) (omega arith) in
    omega
      (arith, one, sum-record_all clock ss c' (record_fast_path-Shape _ c s v) (omega (arith, one)))

-- A bucket that counts a sample reports no more than the longest latency.
upper-le-largest :
    (k : ℕ) (ss : List RequestSample)
    → 0 < count_if (λ s. latency_to_bucket s.latency_ns == k) ss
    → bucket_to_latency_upper_ns k ≤ largest 0 ss
upper-le-largest k [] h = absurd (omega arith)
upper-le-largest k (s ∷ ss) h = elim (Bool-cases (latency_to_bucket s.latency_ns == k)) [
  | inl hit ↦
      let e : latency_to_bucket s.latency_ns ≡ k = (==_iff _ k).0 hit in
      let below : bucket_to_latency_upper_ns k ≤ s.latency_ns =
        subst (λ b. bucket_to_latency_upper_ns b ≤ s.latency_ns) e (upper-le s.latency_ns) in
      omega arith
  | inr miss ↦ omega (arith, upper-le-largest k ss (ground arith))
]

sum_of-bounds :
    (ss : List RequestSample) (d : ℕ)
    → (smallest d ss * length ss ≤ sum_of (λ s. s.latency_ns) ss)
      × (sum_of (λ s. s.latency_ns) ss ≤ largest 0 ss * length ss)
sum_of-bounds [] d = (omega arith, omega arith)
sum_of-bounds (s ∷ ss) d =
    let ih = sum_of-bounds ss d in
    let lo : min s.latency_ns (smallest d ss) * length ss ≤ smallest d ss * length ss =
      mul-le-mul_right (length ss) (omega arith) in
    let hi : largest 0 ss * length ss ≤ max s.latency_ns (largest 0 ss) * length ss =
      mul-le-mul_right (length ss) (omega arith) in
    (omega arith, omega arith)

take-suc-sum :
    (hs : List ℕ) (k : ℕ) → k < length hs → sum (take (suc k) hs) ≡ sum (take k hs) + get_or hs k 0
take-suc-sum [] k h = absurd (omega arith)
take-suc-sum (x ∷ hs) zero h = omega arith
take-suc-sum (x ∷ hs) (suc k) h = omega (arith, take-suc-sum hs k (omega arith))

sum-replicate : (n : ℕ) → sum (replicate n 0) ≡ 0
sum-replicate zero = refl
sum-replicate (suc n) = omega (arith, sum-replicate n)

sum-fresh : (capacity slots now : ℕ) → sum (fresh capacity slots now).latency_histogram ≡ 0
unfolding fresh
sum-fresh capacity slots now = sum-replicate latency_bucket_count

module _ (ss : List RequestSample) (c : Collector) (t : Tally ss c) (some_sample : 0 < length ss)
    (few : length ss < u64) (full : sum c.latency_histogram ≡ length ss) where
  percentile_in :
      (scaled : ℕ)
      → scaled ≤ length ss
      → (k : ℕ) × (get_percentile_ns c.latency_histogram scaled (length ss)
          ≡ bucket_to_latency_upper_ns k)
        × Crosses (target_of scaled) 0 c.latency_histogram k
  percentile_in scaled h =
      get_percentile-Crosses c.latency_histogram scaled (length ss) some_sample few full h

  percentile_mono :
      (a b : ℕ)
      → a ≤ b
      → b ≤ length ss
      → get_percentile_ns c.latency_histogram a (length ss)
        ≤ get_percentile_ns c.latency_histogram b (length ss)
  percentile_mono a b h k =
      let (i, e, x) = percentile_in a (omega arith) in
      let (j, f, y) = percentile_in b k in
      let order : target_of a ≤ target_of b = ground arith in
      omega (arith, e, f, upper_mono i j (Crosses-mono c.latency_histogram order x y))

  percentile-le-largest :
      (a : ℕ) → a ≤ length ss → get_percentile_ns c.latency_histogram a (length ss) ≤ largest 0 ss
  percentile-le-largest a h =
      let (k, e, x) = percentile_in a h in
      let used : 0 < count_if (λ s. latency_to_bucket s.latency_ns == k) ss =
        omega
          (arith, x.under, x.reached, take-suc-sum c.latency_histogram k x.inside, t.histogram k) in
      omega (arith, e, upper-le-largest k ss used)

-- The latency figures, from the least to the greatest.
pub record InOrder {Double : Type 0} (out : StatsSnapshot Double) : Type 0 where
  pub min_avg : out.min_latency_ns ≤ out.avg_latency_ns
  pub avg_max : out.avg_latency_ns ≤ out.max_latency_ns
  pub p50_p95 : out.p50_latency_ns ≤ out.p95_latency_ns
  pub p95_p99 : out.p95_latency_ns ≤ out.p99_latency_ns
  pub p99_max : out.p99_latency_ns ≤ out.max_latency_ns

-- A snapshot of a collector that has recorded samples, fewer than 2^64 of them, whose latencies
-- add up to less than 2^64, none with the class that counts the classes: the minimum is at most
-- the average and that at most the maximum, and the 50th, 95th and 99th percentiles rise in this
-- order up to at most the maximum. The double arithmetic is assumed monotone.
pub read_out-InOrder :
    (fl : Floats) (clock : ℕ → ℕ) (capacity slots now : ℕ) (ss : List RequestSample) (t1 t2 : ℕ)
    → FloatLaws fl
    → All IsClassed ss
    → 0 < length ss
    → length ss < u64
    → sum_of (λ s. s.latency_ns) ss < u64
    → InOrder (read_out fl (record_all clock (fresh capacity slots now) ss) t1 t2)
unfolding read_out
read_out-InOrder fl clock capacity slots now ss t1 t2 laws a p w sw =
    let c0 = fresh capacity slots now in
    let c = record_all clock c0 ss in
    let t = record_all-Tally clock capacity slots now ss a in
    let n : c.total_requests ≡ length ss = omega (arith, t.total) in
    let shape = fresh-Shape capacity slots now in
    let none_yet = sum-fresh capacity slots now in
    let full : sum c.latency_histogram ≡ length ss =
      omega (arith, none_yet, sum-record_all clock ss c0 shape (omega (arith, none_yet))) in
    let mono = percentile_mono ss c t p w full in
    let top = percentile-le-largest ss c t p w full in
    let bounds = sum_of-bounds ss (u64 - 1) in
    let h50 = laws.share_p50_p95 (length ss) w in
    let h95 = laws.share_p95_p99 (length ss) w in
    let h99 = laws.share_p99 (length ss) w in
    let busy : (length ss == 0) ≡ false = ground arith in
    let sum_is : c.latency_sum_ns ≡ sum_of (λ s. s.latency_ns) ss = omega (arith, t.latency) in
    let above : c.min_latency_ns ≤ c.latency_sum_ns / length ss =
      (le-div_iff_mul-le p).1 (rw (t.least, sum_is) bounds.0) in
    let below : c.latency_sum_ns / length ss ≤ c.max_latency_ns =
      div-le_of_le-mul (length ss)
        (rw (t.greatest, sum_is) (rw (mul_comm (length ss) (largest 0 ss)) bounds.1)) in
    rw (n, busy)
      (record {
        min_avg = ground arith;
        avg_max = below;
        p50_p95 = mono _ _ h50 (omega arith);
        p95_p99 = mono _ _ h95 h99;
        p99_max = rw t.greatest (top _ h99);
      })

-- ===== src/Stats/Snapshot.antt =====
-- src/core/stats.cpp: `GetPercentileNs` and `Snapshot`. The two readings of the clock and the
-- double arithmetic are arguments.
pub mod Order
pub mod Percentile
use titan_bench.Base.{
  ℕ, suc, ◌+◌, ◌-◌, ◌/◌, max, Option, none, some, List, [], ◌∷◌, Bool, length, get_or, bit_and, ltb,
  leb, ◌==◌, if◌then◌else◌, add64, sub64, u64,
}
use titan_bench.Stats.Bucket.{bucket_to_latency_upper_ns}
use titan_bench.Stats.Floats.{Floats, share}
use titan_bench.Stats.Collector.{Collector, QpsSlot, no_slot, drain}

pub record StatsSnapshot (Double : Type 0) : Type 0 where
  pub total_requests : ℕ
  pub success_requests : ℕ
  pub failed_requests : ℕ
  pub qps : Double
  pub qps_current_second : ℕ
  pub avg_latency_ns : ℕ
  pub min_latency_ns : ℕ
  pub max_latency_ns : ℕ
  pub p50_latency_ns : ℕ
  pub p95_latency_ns : ℕ
  pub p99_latency_ns : ℕ
  pub throughput_bytes_per_sec : Double
  pub bytes_sent : ℕ
  pub bytes_received : ℕ
  pub error_counts : List ℕ
  pub dropped_samples : ℕ
  pub elapsed_ns : ℕ

-- The loop of `GetPercentileNs` from bucket `i` on: the first bucket at which the running sum
-- reaches the target.
unfoldable pub first_reaching : ℕ → List ℕ → ℕ → ℕ → Option ℕ
first_reaching target [] i cumulative = none
first_reaching target (h ∷ hs) i cumulative =
    let sum = add64 cumulative h in
    let rest = first_reaching target hs (i + 1) sum in if leb target sum then some i else rest

abbrev bucket_or_last : List ℕ → Option ℕ → ℕ
bucket_or_last histogram none = bucket_to_latency_upper_ns (length histogram - 1)
bucket_or_last histogram (some i) = bucket_to_latency_upper_ns i

-- `scaled` is the product of the percentage and the total, cut to an integer.
unfoldable pub get_percentile_ns : List ℕ → ℕ → ℕ → ℕ
get_percentile_ns histogram scaled total =
    let target = if scaled == 0 then 1 else scaled in
    if total == 0 then 0 else bucket_or_last histogram (first_reaching target histogram 0 0)

module _ (fl : Floats) where
  per_second : ℕ → ℕ → fl.Double
  per_second amount elapsed = fl.over (fl.times (fl.of_u64 amount) fl.billion) (fl.of_u64 elapsed)

  -- What is read from the counters once the rings have been drained, if that was asked for.
  unfoldable pub read_out : Collector → ℕ → ℕ → StatsSnapshot fl.Double
  unfolding per_second
  read_out c now later =
      let total = c.total_requests in
      let idle = total == 0 in
      let elapsed = max 1 (sub64 now c.start_ns) in
      let pct = λ (p : fl.Double). get_percentile_ns c.latency_histogram (share fl p total) total in
      let now_sec = later / 1000000000 in
      let slot = get_or c.qps_slots (bit_and now_sec c.qps_mask) no_slot in
      record {
        total_requests = total;
        success_requests = c.success_requests;
        failed_requests = c.failed_requests;
        qps = per_second total elapsed;
        qps_current_second = if slot.second == now_sec then slot.count else 0;
        avg_latency_ns = if idle then 0 else c.latency_sum_ns / total;
        min_latency_ns =
            if idle then 0 else if c.min_latency_ns == u64 - 1 then 0 else c.min_latency_ns;
        max_latency_ns = if idle then 0 else c.max_latency_ns;
        p50_latency_ns = if idle then 0 else pct fl.p50;
        p95_latency_ns = if idle then 0 else pct fl.p95;
        p99_latency_ns = if idle then 0 else pct fl.p99;
        throughput_bytes_per_sec = per_second (add64 c.bytes_sent c.bytes_received) elapsed;
        bytes_sent = c.bytes_sent;
        bytes_received = c.bytes_received;
        error_counts = c.error_counts;
        dropped_samples = c.dropped_samples;
        elapsed_ns = elapsed;
      }

  unfoldable pub snapshot : (ℕ → ℕ) → Bool → Collector → ℕ → ℕ → Collector × StatsSnapshot fl.Double
  snapshot clock drain_before c now later =
      let c' = if drain_before then drain clock c else c in (c', read_out c' now later)

-- ===== src/Stats/Collector.antt =====
-- src/core/stats.cpp: `StatsCollector::Impl`, its counters, and `StatsWriter`.
-- The collector owns the writers' states; a `StatsWriter` is the index of its state, or nothing
-- for a writer that was default-constructed or moved from. `clock n` is what `NowNs` returns
-- while the collector's counter of requests stands at `n`.
pub mod Totals
pub mod Drain
use titan_bench.Base.{
  ℕ, zero, suc, ◌+◌, ◌-◌, ◌/◌, ◌%◌, Option, none, some, List, [], ◌∷◌, ◌++◌, Bool, true, false,
  ◌>>=◌, replicate, length, set, get_or, bit_and, ltb, leb, ◌==◌, if◌then◌else◌, add64, u64,
}
use titan_bench.Stats.Sample.{RequestSample, default_sample, class_index, k_none, error_index}
use titan_bench.Stats.Bucket.{normalize_power_of_two, latency_bucket_count, latency_to_bucket}
use titan_bench.Stats.Ring.{WriterState, new_writer, record_in}

pub record StatsConfig : Type 0 where
  pub ring_capacity : ℕ
  pub qps_slot_count : ℕ

pub record QpsSlot : Type 0 where
  pub second : ℕ
  pub count : ℕ

abbrev pub no_slot : QpsSlot
no_slot = record { second = 0; count = 0 }

pub record Collector : Type 0 where
  pub ring_capacity : ℕ
  pub qps_slot_count : ℕ
  pub qps_mask : ℕ
  pub start_ns : ℕ
  pub writers : List WriterState
  pub total_requests : ℕ
  pub success_requests : ℕ
  pub failed_requests : ℕ
  pub bytes_sent : ℕ
  pub bytes_received : ℕ
  pub latency_sum_ns : ℕ
  pub min_latency_ns : ℕ
  pub max_latency_ns : ℕ
  pub dropped_samples : ℕ
  pub latency_histogram : List ℕ
  pub error_counts : List ℕ
  pub qps_slots : List QpsSlot

-- The members' initial values, for sizes that are powers of two already.
unfoldable pub fresh : ℕ → ℕ → ℕ → Collector
fresh capacity slots now = record {
  ring_capacity = capacity;
  qps_slot_count = slots;
  qps_mask = slots - 1;
  start_ns = now;
  writers = [];
  total_requests = 0;
  success_requests = 0;
  failed_requests = 0;
  bytes_sent = 0;
  bytes_received = 0;
  latency_sum_ns = 0;
  min_latency_ns = u64 - 1;
  max_latency_ns = 0;
  dropped_samples = 0;
  latency_histogram = replicate latency_bucket_count 0;
  error_counts = replicate 9 0;
  qps_slots = replicate slots no_slot;
}

-- The constructor; `none` if rounding a size up does not end.
unfoldable pub new_collector : StatsConfig → ℕ → Option Collector
unfolding fresh
new_collector cfg now = do
  capacity ← normalize_power_of_two cfg.ring_capacity 1024
  slots ← normalize_power_of_two cfg.qps_slot_count 16
  some (fresh capacity slots now)

-- `CreateWriter` with `RegisterWriter`: the new writer is the last one.
unfoldable pub create_writer : Collector → Collector × Option ℕ
create_writer c =
    (record c { writers = c.writers ++ (new_writer c.ring_capacity ∷ []) }, some (length c.writers))

unfoldable pub record_sample : Option ℕ → RequestSample → Collector → Collector
record_sample none sample c = c
record_sample (some i) sample c =
    let state = get_or c.writers i (new_writer c.ring_capacity) in
    record c { writers = set c.writers i (record_in state sample) }

-- `counts[i].fetch_add(1)`.
abbrev pub bump : List ℕ → ℕ → List ℕ
bump counts i = set counts i (add64 (get_or counts i 0) 1)

unfoldable pub update_min : ℕ → ℕ → ℕ
update_min old value = if ltb value old then value else old

unfoldable pub update_max : ℕ → ℕ → ℕ
update_max old value = if ltb old value then value else old

unfoldable pub update_qps : ℕ → ℕ → List QpsSlot → List QpsSlot
update_qps mask ts_ns slots =
    let sec = ts_ns / 1000000000 in
    let i = bit_and sec mask in
    let slot = get_or slots i no_slot in
    let count = if slot.second == sec then slot.count else 0 in
    set slots i (record { second = sec; count = add64 count 1 })

unfoldable pub record_fast_path : ℕ → Collector → RequestSample → Collector
record_fast_path now c s = record c {
  total_requests = add64 c.total_requests 1;
  success_requests = if s.success then add64 c.success_requests 1 else c.success_requests;
  failed_requests = if s.success then c.failed_requests else add64 c.failed_requests 1;
  error_counts = bump c.error_counts (if s.success then class_index k_none else error_index s);
  bytes_sent = add64 c.bytes_sent s.bytes_sent;
  bytes_received = add64 c.bytes_received s.bytes_received;
  latency_sum_ns = add64 c.latency_sum_ns s.latency_ns;
  latency_histogram = bump c.latency_histogram (latency_to_bucket s.latency_ns);
  min_latency_ns = update_min c.min_latency_ns s.latency_ns;
  max_latency_ns = update_max c.max_latency_ns s.latency_ns;
  qps_slots =
      update_qps c.qps_mask (if s.timestamp_ns == 0 then now else s.timestamp_ns) c.qps_slots;
}

module _ (clock : ℕ → ℕ) where
  -- `while (r < w)`, on the rounds left.
  unfoldable pub drain_loop : ℕ → WriterState → ℕ → Collector → Collector
  drain_loop zero w r c = c
  drain_loop (suc rounds) w r c =
      let sample = get_or w.ring (bit_and r w.ring_mask) default_sample in
      drain_loop rounds w (r + 1) (record_fast_path (clock c.total_requests) c sample)

  unfoldable pub drain_writer : WriterState → Collector → WriterState × Collector
  drain_writer state c =
      let r = state.read_index in
      let w = state.write_index in
      let c' = drain_loop (w - r) state r c in
      (
        record state { read_index = r + (w - r); dropped = 0 },
        record c' { dropped_samples = add64 c'.dropped_samples state.dropped },
      )

  unfoldable pub drain_writers : List WriterState → Collector → List WriterState × Collector
  drain_writers [] c = ([], c)
  drain_writers (w ∷ ws) c =
      let (w', c') = drain_writer w c in let (ws', c'') = drain_writers ws c' in (w' ∷ ws', c'')

  unfoldable pub drain : Collector → Collector
  drain c = let (ws, c') = drain_writers c.writers c in record c' { writers = ws }

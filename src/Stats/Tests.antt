-- ===== src/Stats/Tests.antt =====
-- Runs of src/core/stats.cpp on small inputs, and its theorems at concrete inputs.
use titan_bench.Base.{
  ℕ, ◌+◌, ◌^◌, ◌≤◌, ◌<◌, ◌≡◌, refl, List, [], ◌∷◌, ◌++◌, none, some, true, false, arith, length,
  max, pos,
}
use titan_bench.Stats.Sample.{RequestSample, k_none, k_timeout, error_index, error_index-lt}
use titan_bench.Stats.Bucket.{
  latency_to_bucket, bucket_to_latency_upper_ns, normalize_power_of_two, double_until,
}
use titan_bench.Stats.Bucket.Bounds.{
  resolution, upper_within, latency_to_bucket-upper, latency_to_bucket_mono,
}
use titan_bench.Stats.Bucket.Power.{IsRoundUp, normalize-IsRoundUp, double_until_diverges}
use titan_bench.Stats.Queue.{offer}
use titan_bench.Stats.Ring.{new_writer, record_in}
use titan_bench.Stats.Ring.Fifo.{
  view, pending, new_writer-IsValid, record_in-refines, record_in-IsValid, IsValid,
}
use titan_bench.Stats.Floats.{Floats, FloatLaws}
use titan_bench.Stats.Collector.{Collector, fresh, drain}
use titan_bench.Stats.Collector.Totals.{Tally, record_all, record_all-Tally}
use titan_bench.Stats.Collector.Drain.{backlog, drops, emptied, drain_lem}
use titan_bench.Stats.Snapshot.{read_out, get_percentile_ns}
use titan_bench.Stats.Snapshot.Order.{InOrder, read_out-InOrder}
use titan_bench.Stats.Snapshot.Percentile.{Crosses, target_of, get_percentile-Crosses}
use titan_bench.Stats.Delivery.{
  Event, submit, collect, run, follow, opening, Agrees, run-Agrees, run_conserves,
}
use titan_bench.Stats.Concurrent.{Turn, calls, produces, consumes, start}
use titan_bench.Stats.Concurrent
use titan_bench.Stats.Concurrent.Delivery.{run_delivers}

abbrev good : RequestSample
good = record {
  timestamp_ns = 5000000000;
  latency_ns = 1500;
  bytes_sent = 40;
  bytes_received = 300;
  http_status = pos 200;
  success = true;
  error = k_none;
}

abbrev late : RequestSample
late = record good { latency_ns = 2500000; success = false; error = k_timeout; http_status = pos 0 }

abbrev still : ℕ → ℕ
still n = 7000000000

-- Percentages as whole numbers of hundredths.
abbrev hundredths : Floats
hundredths = record {
  Double = ℕ;
  of_u64 = λ n. n;
  to_u64 = λ n. n;
  times = λ p n. n;
  over = λ a b. a;
  billion = 1000000000;
  p50 = 50;
  p95 = 95;
  p99 = 99;
}

hundredths-laws : FloatLaws hundredths
hundredths-laws = record {
  share_p50_p95 = λ n h. omega arith;
  share_p95_p99 = λ n h. omega arith;
  share_p99 = λ n h. omega arith;
}

one_slot : IsValid (new_writer (2 ^ 0))
one_slot = new_writer-IsValid 0 (omega arith)

buckets_run :
    (latency_to_bucket 2500000 ≡ 1015)
    × (bucket_to_latency_upper_ns 1015 ≡ 2500000)
    × (latency_to_bucket 1500 ≡ 1)
    × (bucket_to_latency_upper_ns 1 ≡ 1000)
unfolding latency_to_bucket bucket_to_latency_upper_ns
buckets_run = (refl, refl, refl, refl)

normalize_run : normalize_power_of_two 5000 1024 ≡ some 8192
unfolding normalize_power_of_two double_until
normalize_run = refl

error_index-lt_example : error_index late < 9
error_index-lt_example = error_index-lt late (λ e. cc)

latency_to_bucket_mono_example : latency_to_bucket 1500 ≤ latency_to_bucket 2500000
latency_to_bucket_mono_example = latency_to_bucket_mono 1500 2500000 (omega arith)

latency_to_bucket-upper_example : latency_to_bucket (bucket_to_latency_upper_ns 1015) ≡ 1015
latency_to_bucket-upper_example = latency_to_bucket-upper 1015 (omega arith)

upper_within_example :
    (bucket_to_latency_upper_ns (latency_to_bucket 2512345) ≤ 2512345)
    × (2512345 < bucket_to_latency_upper_ns (latency_to_bucket 2512345) + resolution 2512345)
upper_within_example = upper_within 2512345 (omega arith)

normalize-IsRoundUp_example : IsRoundUp (max 5000 1024) (normalize_power_of_two 5000 1024)
normalize-IsRoundUp_example = normalize-IsRoundUp 5000 1024 (omega arith) (omega arith)

double_until_diverges_example : double_until 1000 (2 ^ 63 + 1) 1 ≡ none
double_until_diverges_example = double_until_diverges 1000 (2 ^ 63 + 1) (omega arith)

record_in-refines_example :
    view (record_in (new_writer (2 ^ 0)) good)
    ≡ offer (length (new_writer (2 ^ 0)).ring) (view (new_writer (2 ^ 0))) good
record_in-refines_example = record_in-refines good one_slot (unfold new_writer in omega arith)

record_all-Tally_example :
    Tally (good ∷ late ∷ []) (record_all still (fresh 1024 16 0) (good ∷ late ∷ []))
record_all-Tally_example =
    record_all-Tally still 1024 16 0 (good ∷ late ∷ []) ((λ e. cc), ((λ e. cc), tt))

abbrev two_writers : Collector
two_writers = record (fresh 1 16 0) {
  writers = record_in (new_writer (2 ^ 0)) good ∷ new_writer (2 ^ 0) ∷ [];
}

drain_lem_example :
    drain still two_writers ≡ record (record_all still two_writers (backlog two_writers.writers)) {
      dropped_samples = drops two_writers.dropped_samples two_writers.writers;
      writers = emptied (record_in (new_writer (2 ^ 0)) good) ∷ emptied (new_writer (2 ^ 0)) ∷ [];
    }
drain_lem_example =
    drain_lem still two_writers
      (record_in-IsValid good one_slot (unfold new_writer in omega arith), (one_slot, tt))

read_out-InOrder_example :
    InOrder (read_out hundredths (record_all still (fresh 1024 16 0) (good ∷ late ∷ [])) 9 9)
read_out-InOrder_example =
    read_out-InOrder hundredths still 1024 16 0 (good ∷ late ∷ []) 9 9 hundredths-laws
      ((λ e. cc), ((λ e. cc), tt)) (omega arith) (omega arith) (omega arith)

get_percentile-Crosses_example :
    (k : ℕ) × (get_percentile_ns (0 ∷ 3 ∷ 1 ∷ []) 2 4 ≡ bucket_to_latency_upper_ns k)
    × Crosses (target_of 2) 0 (0 ∷ 3 ∷ 1 ∷ []) k
get_percentile-Crosses_example =
    get_percentile-Crosses (0 ∷ 3 ∷ 1 ∷ []) 2 4 (omega arith) (omega arith) refl (omega arith)

abbrev history : List Event
history = submit good ∷ submit late ∷ collect ∷ submit late ∷ []

run-Agrees_example :
    Agrees still
      (fresh 1024 16 0)
      (follow
        (length (new_writer (2 ^ 0)).ring)
        history
        (opening (new_writer (2 ^ 0)) (fresh 1024 16 0)))
      (run still history (new_writer (2 ^ 0)) (fresh 1024 16 0))
run-Agrees_example =
    run-Agrees still (fresh 1024 16 0) history (new_writer (2 ^ 0)) one_slot
      (unfold new_writer in omega arith)

run_conserves_example :
    let (w', c') = run still history (new_writer (2 ^ 0)) (fresh 1024 16 0) in
    c'.total_requests + length (pending w') + c'.dropped_samples + w'.dropped ≡ 3
run_conserves_example =
    run_conserves still 0 (fresh 1024 16 0) history (omega arith) (unfold fresh in refl)
      (unfold fresh in refl) (omega arith)

abbrev schedule : List Turn
schedule = calls good ∷ produces ∷ consumes ∷ produces ∷ calls late ∷ consumes ∷ consumes ∷ []

run_delivers_example :
    let s = Concurrent.run schedule (start (new_writer (2 ^ 0))) in
    (rest : List RequestSample) × (s.accepted ≡ s.delivered ++ rest)
    × (length rest ≤ length (new_writer (2 ^ 0)).ring)
run_delivers_example =
    run_delivers schedule (new_writer (2 ^ 0)) one_slot (unfold new_writer in refl)
      (unfold new_writer in omega arith)

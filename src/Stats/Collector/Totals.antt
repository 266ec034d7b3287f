-- ===== src/Stats/Collector/Totals.antt =====
-- src/core/stats.cpp: the counters over a list of samples.
use titan_bench.Base.{
  ℕ, ◌+◌, ◌-◌, ◌%◌, ◌<◌, min, max, All, get_or-replicate, length-replicate, ◌≡◌, ◌≢◌, refl, ap, ◌∙◌,
  not, List, [], ◌∷◌, arith, length, get_or, length-set, get_or-set_self, get_or-set_ne, count_if,
  sum_of, ◌==◌, ==_iff, if◌then◌else◌, add64, u64, Bool-cases, inl, inr,
}
use titan_bench.Stats.Sample.{
  RequestSample, class_index, k_none, k_count, error_index, error_index-lt,
}
use titan_bench.Stats.Bucket.{latency_bucket_count, latency_to_bucket}
use titan_bench.Stats.Bucket.Bounds.{latency_to_bucket-lt}
use titan_bench.Stats.Collector.{Collector, record_fast_path, update_min, update_max, bump, fresh}

module _ (clock : ℕ → ℕ) where
  -- Recording samples one after the other.
  unfoldable pub record_all : Collector → List RequestSample → Collector
  record_all c [] = c
  record_all c (s ∷ ss) = record_all (record_fast_path (clock c.total_requests) c s) ss

-- Where a sample is counted among the errors.
abbrev pub counted_at : RequestSample → ℕ
counted_at s = if s.success then class_index k_none else error_index s

-- The lengths of the two arrays of counters.
pub record Shape (c : Collector) : Type 0 where
  pub buckets : length c.latency_histogram ≡ latency_bucket_count
  pub classes : length c.error_counts ≡ 9

pub record_fast_path-Shape :
    (now : ℕ) (c : Collector) (s : RequestSample) → Shape c → Shape (record_fast_path now c s)
unfolding record_fast_path
record_fast_path-Shape now c s h = record {
  buckets = length-set c.latency_histogram _ _ ∙ h.buckets;
  classes = length-set c.error_counts _ _ ∙ h.classes;
}

-- No sample carries the class that counts the classes.
abbrev pub IsClassed : RequestSample → Type 0
IsClassed s = s.error ≢ k_count

-- A counter that each sample raises by a measure holds the sum of the measures, modulo 2^64.
module _ (clock : ℕ → ℕ) (get : Collector → ℕ) (f : RequestSample → ℕ)
    (raises : (now : ℕ) (c : Collector) (s : RequestSample)
      → Shape c
      → IsClassed s
      → get c < u64
      → get (record_fast_path now c s) ≡ add64 (get c) (f s)) where
  record_all-counter :
      (ss : List RequestSample) (c : Collector)
      → Shape c
      → All IsClassed ss
      → get c < u64
      → get (record_all clock c ss) ≡ (get c + sum_of f ss) % u64
  unfolding record_all
  record_all-counter [] c v a h = omega arith
  record_all-counter (s ∷ ss) c v a h =
      let now = clock c.total_requests in
      let here = raises now c s v a.0 h in
      omega (
        arith,
        here,
        record_all-counter ss (record_fast_path now c s) (record_fast_path-Shape now c s v) a.1
            (omega (arith, here)),
      )

get_or-bump :
    (counts : List ℕ) (i j : ℕ)
    → i < length counts
    → get_or counts j 0 < u64
    → get_or (bump counts i) j 0 ≡ add64 (get_or counts j 0) (if i == j then 1 else 0)
get_or-bump counts i j h w = elim (Bool-cases (i == j)) [
  | inl same ↦
      let e : i ≡ j = (==_iff i j).0 same in rw same (rw (← e) (get_or-set_self counts i _ 0 h))
  | inr other ↦
      rw other (get_or-set_ne counts i j _ 0 (λ e. cc (other, (==_iff i j).1 e)) ∙ omega arith)
]

counted_at-lt : (s : RequestSample) → IsClassed s → counted_at s < 9
counted_at-lt s k = ground (arith, error_index-lt s k)

-- The least and the greatest latency of the samples, starting from a value.
abbrev pub smallest : ℕ → List RequestSample → ℕ
smallest d [] = d
smallest d (s ∷ ss) = min s.latency_ns (smallest d ss)

abbrev pub largest : ℕ → List RequestSample → ℕ
largest d [] = d
largest d (s ∷ ss) = max s.latency_ns (largest d ss)

smallest-update :
    (d x : ℕ) (ss : List RequestSample) → smallest (update_min d x) ss ≡ min x (smallest d ss)
unfolding update_min
smallest-update d x [] = ground arith
smallest-update d x (s ∷ ss) = omega (arith, smallest-update d x ss)

largest-update :
    (d x : ℕ) (ss : List RequestSample) → largest (update_max d x) ss ≡ max x (largest d ss)
unfolding update_max
largest-update d x [] = ground arith
largest-update d x (s ∷ ss) = omega (arith, largest-update d x ss)

record_all-min :
    (clock : ℕ → ℕ) (ss : List RequestSample) (c : Collector)
    → (record_all clock c ss).min_latency_ns ≡ smallest c.min_latency_ns ss
unfolding record_all record_fast_path
record_all-min clock [] c = refl
record_all-min clock (s ∷ ss) c =
    record_all-min clock ss _ ∙ smallest-update c.min_latency_ns s.latency_ns ss

record_all-max :
    (clock : ℕ → ℕ) (ss : List RequestSample) (c : Collector)
    → (record_all clock c ss).max_latency_ns ≡ largest c.max_latency_ns ss
unfolding record_all record_fast_path
record_all-max clock [] c = refl
record_all-max clock (s ∷ ss) c =
    record_all-max clock ss _ ∙ largest-update c.max_latency_ns s.latency_ns ss

-- What the counters of `c` say of the samples.
pub record Tally (ss : List RequestSample) (c : Collector) : Type 0 where
  pub total : c.total_requests ≡ length ss % u64
  pub success : c.success_requests ≡ count_if (λ s. s.success) ss % u64
  pub failed : c.failed_requests ≡ count_if (λ s. not s.success) ss % u64
  pub sent : c.bytes_sent ≡ sum_of (λ s. s.bytes_sent) ss % u64
  pub received : c.bytes_received ≡ sum_of (λ s. s.bytes_received) ss % u64
  pub latency : c.latency_sum_ns ≡ sum_of (λ s. s.latency_ns) ss % u64
  pub least : c.min_latency_ns ≡ smallest (u64 - 1) ss
  pub greatest : c.max_latency_ns ≡ largest 0 ss
  pub histogram :
      (b : ℕ)
      → get_or c.latency_histogram b 0
        ≡ count_if (λ s. latency_to_bucket s.latency_ns == b) ss % u64
  pub errors : (e : ℕ) → get_or c.error_counts e 0 ≡ count_if (λ s. counted_at s == e) ss % u64

sum_of-one : (ss : List RequestSample) → sum_of (λ s. 1) ss ≡ length ss
sum_of-one [] = refl
sum_of-one (s ∷ ss) = omega (arith, sum_of-one ss)

-- A collector that has recorded nothing.
record IsEmpty (c : Collector) : Type 0 where
  shape : Shape c
  counts_zero :
      (c.total_requests ≡ 0)
      × (c.success_requests ≡ 0)
      × (c.failed_requests ≡ 0)
      × (c.bytes_sent ≡ 0)
      × (c.bytes_received ≡ 0)
      × (c.latency_sum_ns ≡ 0)
  extremes : (c.min_latency_ns ≡ u64 - 1) × (c.max_latency_ns ≡ 0)
  buckets_zero : (b : ℕ) → get_or c.latency_histogram b 0 ≡ 0
  classes_zero : (e : ℕ) → get_or c.error_counts e 0 ≡ 0

fresh-IsEmpty : (capacity slots now : ℕ) → IsEmpty (fresh capacity slots now)
unfolding fresh
fresh-IsEmpty capacity slots now = record {
  shape = record {
    buckets = length-replicate {A = ℕ} latency_bucket_count 0;
    classes = length-replicate {A = ℕ} 9 0;
  };
  counts_zero = (refl, refl, refl, refl, refl, refl);
  extremes = (refl, refl);
  buckets_zero = λ b. get_or-replicate latency_bucket_count b 0;
  classes_zero = λ e. get_or-replicate 9 e 0;
}

pub fresh-Shape : (capacity slots now : ℕ) → Shape (fresh capacity slots now)
fresh-Shape capacity slots now = (fresh-IsEmpty capacity slots now).shape

module _ (clock : ℕ → ℕ) (c : Collector) (z : IsEmpty c) where
  from_zero :
      (get : Collector → ℕ) (f : RequestSample → ℕ)
      → ((now : ℕ) (c : Collector) (s : RequestSample)
          → Shape c
          → IsClassed s
          → get c < u64
          → get (record_fast_path now c s) ≡ add64 (get c) (f s))
      → get c ≡ 0
      → (ss : List RequestSample) → All IsClassed ss
      → get (record_all clock c ss) ≡ sum_of f ss % u64
  from_zero get f raises h ss a =
      omega (arith, record_all-counter clock get f raises ss c z.shape a (omega (arith, h)))

  record_all_from_empty :
      (ss : List RequestSample) → All IsClassed ss → Tally ss (record_all clock c ss)
  unfolding record_fast_path
  record_all_from_empty ss a =
      let zeros = z.counts_zero in
      record {
        total =
            from_zero (λ c. c.total_requests) (λ s. 1) (λ now c s _ _ _. refl) zeros.0 ss a
            ∙ ap (λ k. k % u64) (sum_of-one ss);
        success =
            from_zero (λ c. c.success_requests) _ (λ now c s _ _ h. ground arith) zeros.1 ss a;
        failed = from_zero (λ c. c.failed_requests) _ (λ now c s _ _ h. ground arith) zeros.2 ss a;
        sent = from_zero (λ c. c.bytes_sent) _ (λ now c s _ _ _. refl) zeros.3 ss a;
        received = from_zero (λ c. c.bytes_received) _ (λ now c s _ _ _. refl) zeros.4 ss a;
        latency = from_zero (λ c. c.latency_sum_ns) _ (λ now c s _ _ _. refl) zeros.5 ss a;
        least = record_all-min clock ss c ∙ ap (λ d. smallest d ss) z.extremes.0;
        greatest = record_all-max clock ss c ∙ ap (λ d. largest d ss) z.extremes.1;
        histogram = λ b.
            from_zero (λ c. get_or c.latency_histogram b 0) _
              (λ now c s v _ h.
                get_or-bump c.latency_histogram _ b
                  (omega (arith, v.buckets, latency_to_bucket-lt s.latency_ns)) h)
              (z.buckets_zero b) ss a;
        errors = λ e.
            from_zero (λ c. get_or c.error_counts e 0) _
              (λ now c s v k h.
                get_or-bump c.error_counts _ e (omega (arith, v.classes, counted_at-lt s k)) h)
              (z.classes_zero e) ss a;
      }

-- After any samples, a collector that starts empty holds for every counter what the samples add
-- up to modulo 2^64: their number, their successes and failures, their bytes and latencies, the
-- number in each latency bucket and in each error class. Its minimum and maximum are the least
-- and the greatest latency. No sample may carry the class that only counts the classes.
pub record_all-Tally :
    (clock : ℕ → ℕ) (capacity slots now : ℕ) (ss : List RequestSample)
    → All IsClassed ss
    → Tally ss (record_all clock (fresh capacity slots now) ss)
record_all-Tally clock capacity slots now =
    record_all_from_empty clock (fresh capacity slots now) (fresh-IsEmpty capacity slots now)

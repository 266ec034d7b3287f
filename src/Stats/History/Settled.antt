-- ===== src/Stats/History/Settled.antt =====
-- src/core/stats.cpp: `Drain` in a history of calls.
use titan_bench.Base.{
  ℕ, suc, ◌+◌, ◌-◌, ◌%◌, ◌≤◌, ◌<◌, ◌≡◌, refl, ap, ◌∙◌, Bool, List, [], ◌∷◌, map, some, arith,
  length, length-append, length-set, All, sum_of, count_if, sum_of-append, add64, u64,
  if◌then◌else◌,
}
use titan_bench.Stats.Sample.{RequestSample}
use titan_bench.Stats.Ring.{WriterState}
use titan_bench.Stats.Ring.Fifo.{IsValid, pending}
use titan_bench.Stats.Collector.{Collector, record_sample, record_fast_path, drain}
use titan_bench.Stats.Collector.Totals.{record_all}
use titan_bench.Stats.Collector.Drain.{backlog, drops, emptied, emptied-IsValid, drain_lem}
use titan_bench.Stats.Delivery.{total-record_all}
use titan_bench.Stats.History.{
  Moment, recorded, drained, history, given, Addressed, seen_by, waiting, good, poor, Sound,
  Accounted, record_sample-Accounted,
}

halves-record_all :
    (clock : ℕ → ℕ) (p : RequestSample → Bool) (get : Collector → ℕ)
    (raises : (now : ℕ) (c : Collector) (s : RequestSample)
      → get c < u64
      → get (record_fast_path now c s) ≡ add64 (get c) (if p s then 1 else 0))
    (ss : List RequestSample) (c : Collector)
    → get c < u64
    → get (record_all clock c ss) ≡ (get c + count_if p ss) % u64
unfolding record_all
halves-record_all clock p get raises [] c h = omega arith
halves-record_all clock p get raises (s ∷ ss) c h =
    let c' = record_fast_path (clock c.total_requests) c s in
    let here = raises (clock c.total_requests) c s h in
    omega (arith, here, halves-record_all clock p get raises ss c' (omega (arith, here)))

success-record_all :
    (clock : ℕ → ℕ) (ss : List RequestSample) (c : Collector)
    → c.success_requests < u64
    → (record_all clock c ss).success_requests ≡ (c.success_requests + count_if good ss) % u64
unfolding record_fast_path
success-record_all clock ss c h =
    halves-record_all clock good (λ c. c.success_requests) (λ now c s k. ground arith) ss c h

failed-record_all :
    (clock : ℕ → ℕ) (ss : List RequestSample) (c : Collector)
    → c.failed_requests < u64
    → (record_all clock c ss).failed_requests ≡ (c.failed_requests + count_if poor ss) % u64
unfolding record_fast_path
failed-record_all clock ss c h =
    halves-record_all clock poor (λ c. c.failed_requests) (λ now c s k. ground arith) ss c h

seen_by-backlog :
    (ws : List WriterState) → sum_of seen_by ws ≡ length (backlog ws) + sum_of (λ w. w.dropped) ws
seen_by-backlog [] = omega arith
seen_by-backlog (w ∷ ws) = omega (arith, length-append (pending w) (backlog ws), seen_by-backlog ws)

count_if-backlog :
    (p : RequestSample → Bool) (ws : List WriterState)
    → count_if p (backlog ws) ≡ sum_of (waiting p) ws
count_if-backlog p [] = refl
count_if-backlog p (w ∷ ws) = omega (
  arith,
  sum_of-append (λ s. if p s then 1 else 0) (pending w) (backlog ws),
  count_if-backlog p ws,
)

drops-sum_of :
    (ws : List WriterState) (d : ℕ)
    → d + sum_of (λ w. w.dropped) ws < u64
    → drops d ws ≡ d + sum_of (λ w. w.dropped) ws
drops-sum_of [] d h = omega arith
drops-sum_of (w ∷ ws) d h = omega (arith, drops-sum_of ws (add64 d w.dropped) (omega arith))

pending-emptied : (w : WriterState) → pending (emptied w) ≡ []
pending-emptied w = let e : w.write_index - w.write_index ≡ 0 = omega arith in rw e refl

seen_by-emptied : (ws : List WriterState) → sum_of seen_by (map emptied ws) ≡ 0
seen_by-emptied [] = refl
seen_by-emptied (w ∷ ws) =
    omega (arith, ap (λ (l : List RequestSample). length l) (pending-emptied w), seen_by-emptied ws)

waiting-emptied :
    (p : RequestSample → Bool) (ws : List WriterState) → sum_of (waiting p) (map emptied ws) ≡ 0
waiting-emptied p [] = refl
waiting-emptied p (w ∷ ws) =
    omega (
      arith,
      ap (λ (l : List RequestSample). count_if p l) (pending-emptied w),
      waiting-emptied p ws,
    )

Sound-emptied : (n : ℕ) (ws : List WriterState) → All (Sound n) ws → All (Sound n) (map emptied ws)
Sound-emptied n [] a = tt
Sound-emptied n (w ∷ ws) a = ((emptied-IsValid a.0.0, a.0.1), Sound-emptied n ws a.1)

Sound-IsValid : (n : ℕ) (ws : List WriterState) → All (Sound n) ws → All IsValid ws
Sound-IsValid n [] a = tt
Sound-IsValid n (w ∷ ws) a = (a.0.0, Sound-IsValid n ws a.1)

pub count_le : (p : RequestSample → Bool) (ss : List RequestSample) → count_if p ss ≤ length ss
count_le p [] = omega arith
count_le p (s ∷ ss) = ground (arith, count_le p ss)

pub count_halves : (ss : List RequestSample) → count_if good ss + count_if poor ss ≡ length ss
count_halves [] = omega arith
count_halves (s ∷ ss) = ground (arith, count_halves ss)

-- The collector after a drain: everything given is counted or lost.
pub record Settled (acc : List RequestSample) (c : Collector) : Type 0 where
  pub total : c.total_requests + c.dropped_samples ≡ length acc
  pub success : c.success_requests ≤ count_if good acc
  pub failed : c.failed_requests ≤ count_if poor acc
  pub halves : c.success_requests + c.failed_requests ≡ c.total_requests
  pub sound : All (Sound (length acc)) c.writers
  pub empty : sum_of seen_by c.writers ≡ 0

pub drain-Settled :
    (clock : ℕ → ℕ) (acc : List RequestSample) (c : Collector)
    → length acc < u64
    → Accounted acc c
    → Settled acc (drain clock c)
drain-Settled clock acc c h a =
    let b = backlog c.writers in
    let seen = seen_by-backlog c.writers in
    let g = count_if-backlog good c.writers in
    let p = count_if-backlog poor c.writers in
    let t = total-record_all clock b c (omega (arith, a.total)) in
    let s = success-record_all clock b c (omega (arith, a.total, a.halves)) in
    let f = failed-record_all clock b c (omega (arith, a.total, a.halves)) in
    let d = drops-sum_of c.writers c.dropped_samples (omega (arith, a.total, seen)) in
    let all = count_halves b in
    rw (drain_lem clock c (Sound-IsValid (length acc) c.writers a.sound)) (record {
      total = omega (arith, a.total, seen, t, d);
      success = omega (arith, a.success, g, s);
      failed = omega (arith, a.failed, p, f);
      halves = omega (arith, a.total, a.halves, seen, all, t, s, f);
      sound = Sound-emptied (length acc) c.writers a.sound;
      empty = seen_by-emptied c.writers;
    })

pub waiting_le :
    (p : RequestSample → Bool) (ws : List WriterState) → sum_of (waiting p) ws ≤ sum_of seen_by ws
waiting_le p [] = omega arith
waiting_le p (w ∷ ws) = omega (arith, count_le p (pending w), waiting_le p ws)

Settled-Accounted : (acc : List RequestSample) (c : Collector) → Settled acc c → Accounted acc c
Settled-Accounted acc c s = record {
  total = omega (arith, s.total, s.empty);
  success = omega (arith, s.success, s.empty, waiting_le good c.writers);
  failed = omega (arith, s.failed, s.empty, waiting_le poor c.writers);
  halves = s.halves;
  sound = s.sound;
}

given_le : (acc : List RequestSample) (es : List Moment) → length acc ≤ length (given acc es)
given_le acc [] = omega arith
given_le acc (recorded i s ∷ es) = omega (arith, given_le (s ∷ acc) es)
given_le acc (drained ∷ es) = given_le acc es

record_sample_writers :
    (i : ℕ) (s : RequestSample) (c : Collector)
    → length (record_sample (some i) s c).writers ≡ length c.writers
unfolding record_sample
record_sample_writers i s c = length-set c.writers i _

length-emptied : (ws : List WriterState) → length (map emptied ws) ≡ length ws
length-emptied [] = refl
length-emptied (w ∷ ws) = ap suc (length-emptied ws)

drain_writers_kept :
    (clock : ℕ → ℕ) (n : ℕ) (c : Collector)
    → All (Sound n) c.writers
    → length (drain clock c).writers ≡ length c.writers
drain_writers_kept clock n c a =
    rw (drain_lem clock c (Sound-IsValid n c.writers a)) (length-emptied c.writers)

pub history_keeps :
    (clock : ℕ → ℕ) (n : ℕ) (es : List Moment) (acc : List RequestSample) (c : Collector)
    → All (Addressed n) es
    → length c.writers ≡ n
    → length (given acc es) < u64
    → Accounted acc c
    → Accounted (given acc es) (history clock es c)
unfolding history
history_keeps clock n [] acc c a e h k = k
history_keeps clock n (recorded i s ∷ es) acc c a e h k =
    history_keeps clock n es (s ∷ acc) (record_sample (some i) s c) a.1
      (record_sample_writers i s c ∙ e) h
      (record_sample-Accounted acc c i s (omega (arith, a.0, e))
        (omega (arith, h, given_le (s ∷ acc) es)) k)
history_keeps clock n (drained ∷ es) acc c a e h k =
    history_keeps clock n es acc (drain clock c) a.1
      (drain_writers_kept clock (length acc) c k.sound ∙ e) h
      (Settled-Accounted acc (drain clock c)
        (drain-Settled clock acc c (omega (arith, h, given_le acc es)) k))

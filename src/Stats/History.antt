-- ===== src/Stats/History.antt =====
-- src/core/stats.cpp: any number of writers and the collector over a history of `Record` and
-- `Drain`, one call after another.
pub mod Settled
use titan_bench.Base.{
  ℕ, zero, suc, ◌+◌, ◌-◌, ◌%◌, ◌≤◌, ◌<◌, ◌≡◌, refl, sym, subst, ap, ◌∙◌, Bool, true, false, not,
  List, [], ◌∷◌, ◌++◌, map, some, arith, length, length-append, length-set, get_or, set, All,
  sum_of, count_if, sum_of-append, sum_of-set, add64, u64, if◌then◌else◌, Bool-cases, inl, inr,
}
use titan_bench.Stats.Sample.{RequestSample}
use titan_bench.Stats.Queue.{Queue, offer}
use titan_bench.Stats.Ring.{WriterState, new_writer, record_in}
use titan_bench.Stats.Ring.Fifo.{
  IsValid, view, pending, record_in-IsValid, record_in-refines, length-pending, window,
}
use titan_bench.Stats.Collector.{Collector, record_sample, record_fast_path, drain}

-- A call of `Record` on a writer, or one of `Drain`.
pub data Moment : Type 0 where
  recorded : ℕ → RequestSample → Moment
  drained : Moment

unfoldable pub history : (ℕ → ℕ) → List Moment → Collector → Collector
unfolding record_sample drain
history clock [] c = c
history clock (recorded i s ∷ es) c = history clock es (record_sample (some i) s c)
history clock (drained ∷ es) c = history clock es (drain clock c)

-- The samples that were recorded, the last one first, on top of those before.
abbrev pub given : List RequestSample → List Moment → List RequestSample
given acc [] = acc
given acc (recorded i s ∷ es) = given (s ∷ acc) es
given acc (drained ∷ es) = given acc es

-- Only the first `n` writers are used.
abbrev pub Addressed : ℕ → Moment → Type 0
Addressed n (recorded i s) = i < n
Addressed n drained = Unit

-- What a writer has been given and not handed over: the samples that wait, and the number lost.
abbrev pub seen_by : WriterState → ℕ
seen_by w = length (pending w) + w.dropped

abbrev pub waiting : (RequestSample → Bool) → WriterState → ℕ
waiting p w = count_if p (pending w)

abbrev pub good : RequestSample → Bool
good s = s.success

abbrev pub poor : RequestSample → Bool
poor s = not s.success

abbrev pub Sound : ℕ → WriterState → Type 0
Sound n w = IsValid w × (w.write_index ≤ n)

-- The samples given are those counted, those that wait, and those lost; of the successes and of
-- the failures some may be lost.
pub record Accounted (acc : List RequestSample) (c : Collector) : Type 0 where
  pub total : c.total_requests + sum_of seen_by c.writers + c.dropped_samples ≡ length acc
  pub success : c.success_requests + sum_of (waiting good) c.writers ≤ count_if good acc
  pub failed : c.failed_requests + sum_of (waiting poor) c.writers ≤ count_if poor acc
  pub halves : c.success_requests + c.failed_requests ≡ c.total_requests
  pub sound : All (Sound (length acc)) c.writers

offer_seen :
    (cap : ℕ) (q : Queue) (s : RequestSample)
    → q.lost + 1 < u64
    → length (offer cap q s).items + (offer cap q s).lost ≡ length q.items + q.lost + 1
unfolding offer
offer_seen cap q s h = ground (arith, length-append q.items (s ∷ []))

offer_count :
    (p : RequestSample → Bool) (cap : ℕ) (q : Queue) (s : RequestSample)
    → count_if p (offer cap q s).items ≤ count_if p q.items + (if p s then 1 else 0)
unfolding offer
offer_count p cap q s = ground (arith, sum_of-append (λ x. if p x then 1 else 0) q.items (s ∷ []))

module _ {w : WriterState} (s : RequestSample) (v : IsValid w) (h : w.write_index + 1 < u64) where
  record_in-seen : w.dropped + 1 < u64 → seen_by (record_in w s) ≡ seen_by w + 1
  record_in-seen k =
      ap (λ (q : Queue). length q.items + q.lost) (record_in-refines s v h)
      ∙ offer_seen (length w.ring) (view w) s k

  record_in-waiting :
      (p : RequestSample → Bool) → waiting p (record_in w s) ≤ waiting p w + (if p s then 1 else 0)
  record_in-waiting p =
      subst (λ (q : Queue). count_if p q.items ≤ waiting p w + (if p s then 1 else 0))
        (sym (record_in-refines s v h)) (offer_count p (length w.ring) (view w) s)

  record_in-write_index : (record_in w s).write_index ≤ w.write_index + 1
  unfolding record_in
  record_in-write_index = ground arith

Sound-suc : (n : ℕ) (ws : List WriterState) → All (Sound n) ws → All (Sound (suc n)) ws
Sound-suc n [] a = tt
Sound-suc n (w ∷ ws) a = ((a.0.0, omega (arith, a.0.1)), Sound-suc n ws a.1)

All-set :
    (n : ℕ) (ws : List WriterState) (i : ℕ) (w : WriterState)
    → All (Sound n) ws
    → Sound n w
    → All (Sound n) (set ws i w)
All-set n [] i w a k = a
All-set n (x ∷ xs) zero w a k = (k, a.1)
All-set n (x ∷ xs) (suc i) w a k = (a.0, All-set n xs i w a.1 k)

All-get_or :
    (n : ℕ) (ws : List WriterState) (i : ℕ) (d : WriterState)
    → i < length ws
    → All (Sound n) ws
    → Sound n (get_or ws i d)
All-get_or n [] i d h a = absurd (omega arith)
All-get_or n (x ∷ xs) zero d h a = a.0
All-get_or n (x ∷ xs) (suc i) d h a = All-get_or n xs i d (omega arith) a.1

dropped_le :
    (ws : List WriterState) (i : ℕ) (d : WriterState)
    → i < length ws
    → (get_or ws i d).dropped ≤ sum_of seen_by ws
dropped_le [] i d h = absurd (omega arith)
dropped_le (x ∷ xs) zero d h = omega arith
dropped_le (x ∷ xs) (suc i) d h = omega (arith, dropped_le xs i d (omega arith))

pub record_sample-Accounted :
    (acc : List RequestSample) (c : Collector) (i : ℕ) (s : RequestSample)
    → i < length c.writers
    → suc (length acc) < u64
    → Accounted acc c
    → Accounted (s ∷ acc) (record_sample (some i) s c)
unfolding record_sample
record_sample-Accounted acc c i s h k a =
    let d = new_writer c.ring_capacity in
    let w = get_or c.writers i d in
    let x = record_in w s in
    let ok = All-get_or (length acc) c.writers i d h a.sound in
    let room : w.write_index + 1 < u64 = omega (arith, ok.1) in
    let lost = dropped_le c.writers i d h in
    let fits : w.dropped + 1 < u64 = omega (arith, a.total, lost) in
    record {
      total =
          omega
            (arith, a.total, sum_of-set seen_by c.writers i x d h, record_in-seen s ok.0 room fits);
      success = omega (
        arith,
        a.success,
        sum_of-set (waiting good) c.writers i x d h,
        record_in-waiting s ok.0 room good,
      );
      failed = omega (
        arith,
        a.failed,
        sum_of-set (waiting poor) c.writers i x d h,
        record_in-waiting s ok.0 room poor,
      );
      halves = a.halves;
      sound =
          All-set (suc (length acc)) c.writers i x (Sound-suc (length acc) c.writers a.sound)
            (record_in-IsValid s ok.0 room, omega (arith, ok.1, record_in-write_index s ok.0 room));
    }

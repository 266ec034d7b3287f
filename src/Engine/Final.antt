-- ===== src/Engine/Final.antt =====
-- src/core/engine.cpp: the final report of `Run` beside the counters.
use titan_bench.Base.{
  ℕ, zero, suc, ◌+◌, ◌^◌, ◌≤◌, ◌<◌, ◌≡◌, refl, sym, subst, List, [], ◌∷◌, ◌++◌, All, arith, length,
  length-append, sum_of, sum_of-append, u64,
}
use titan_bench.Stats.Sample.{RequestSample}
use titan_bench.Stats.Ring.{new_writer}
use titan_bench.Stats.Ring.Fifo.{IsValid, new_writer-IsValid, length-pending}
use titan_bench.Stats.Floats.{Floats}
use titan_bench.Stats.Collector.{Collector, fresh, create_writer}
use titan_bench.Stats.History.{
  Moment, history, given, Addressed, Accounted, Sound, seen_by, good, poor,
}
use titan_bench.Stats.History.Settled.{drain-Settled, history_keeps, count_halves, waiting_le}
use titan_bench.Stats.Snapshot.{snapshot, read_out}
use titan_bench.Cli.Options.{Config}
use titan_bench.Tls.Client.{InitAnswer}
use titan_bench.Engine.Worker.{Work, fresh_work}
use titan_bench.Engine.Account.{Balanced}
use titan_bench.Engine.Events.{Round}
use titan_bench.Engine.Crew.{HandStart, start_crew, crew_turns}
use titan_bench.Engine.Crews.{crew_turns-SoundCrew}
use titan_bench.Engine.Https.{SlotRound, slot_turns, start_slots}
use titan_bench.Engine.Slots.Turns.{slot_turns-SoundSlots}
use titan_bench.Engine.Run.{EngineReport, ReportClock, build_progress_report, with_writers}

-- The counters of the run beside the statistics of its report.
pub record Consistent {Double : Type 0} (r : EngineReport Double) : Type 0 where
  pub all : r.completed_requests ≡ r.stats.total_requests + r.stats.dropped_samples
  pub halves : r.succeeded_requests + r.failed_requests ≡ r.completed_requests
  pub stats_halves : r.stats.success_requests + r.stats.failed_requests ≡ r.stats.total_requests
  pub successes : r.stats.success_requests ≤ r.succeeded_requests
  pub failures : r.stats.failed_requests ≤ r.failed_requests

report-Consistent :
    (fl : Floats) (clock : ℕ → ℕ) (w : Work) (c : Collector) (begin_ns : ℕ) (t : ReportClock)
    → length w.samples < u64
    → Balanced w
    → Accounted w.samples c
    → Consistent (build_progress_report fl clock w c begin_ns t).1
unfolding build_progress_report snapshot read_out
report-Consistent fl clock w c begin_ns t h b a =
    let s = drain-Settled clock w.samples c h a in
    let both = count_halves w.samples in
    record {
      all = omega (arith, s.total, b.completed);
      halves = omega (arith, both, b.completed, b.succeeded, b.failed);
      stats_halves = s.halves;
      successes = omega (arith, both, s.success, b.succeeded);
      failures = omega (arith, both, s.failed, b.failed);
    }

-- A collector with `n` writers that have recorded nothing.
record Opened (size n : ℕ) (c : Collector) : Type 0 where
  capacity : c.ring_capacity ≡ size
  zeros :
      (c.total_requests ≡ 0)
      × (c.success_requests ≡ 0)
      × (c.failed_requests ≡ 0)
      × (c.dropped_samples ≡ 0)
  count : length c.writers ≡ n
  unused : sum_of seen_by c.writers ≡ 0
  sound : All (Sound 0) c.writers

new_writer_seen : (size : ℕ) → seen_by (new_writer size) ≡ 0
unfolding new_writer
new_writer_seen size = omega (arith, length-pending (new_writer size))

new_writer_index : (size : ℕ) → (new_writer size).write_index ≡ 0
unfolding new_writer
new_writer_index size = refl

All-append : (xs ys : List _) → All (Sound 0) xs → All (Sound 0) ys → All (Sound 0) (xs ++ ys)
All-append [] ys a b = b
All-append (x ∷ xs) ys a b = (a.0, All-append xs ys a.1 b)

with_writers-Opened :
    (bits slots now : ℕ)
    → bits ≤ 63
    → (n : ℕ) → Opened (2 ^ bits) n (with_writers n (fresh (2 ^ bits) slots now))
unfolding with_writers create_writer fresh
with_writers-Opened bits slots now h zero = record {
  capacity = refl;
  zeros = (refl, refl, refl, refl);
  count = refl;
  unused = refl;
  sound = tt;
}
with_writers-Opened bits slots now h (suc n) =
    let c = with_writers n (fresh (2 ^ bits) slots now) in
    let o = with_writers-Opened bits slots now h n in
    let w = new_writer c.ring_capacity in
    record {
      capacity = o.capacity;
      zeros = o.zeros;
      count = omega (arith, length-append c.writers (w ∷ []), o.count);
      unused = omega (
        arith,
        sum_of-append seen_by c.writers (w ∷ []),
        o.unused,
        new_writer_seen c.ring_capacity,
      );
      sound = All-append c.writers (w ∷ []) o.sound (
        (
          subst (λ k. IsValid (new_writer k)) (sym o.capacity) (new_writer-IsValid bits h),
          omega (arith, new_writer_index c.ring_capacity),
        ),
        tt,
      );
    }

Opened-Accounted : (size n : ℕ) (c : Collector) → Opened size n c → Accounted [] c
Opened-Accounted size n c o = record {
  total = omega (arith, o.zeros, o.unused);
  success = omega (arith, o.zeros, o.unused, waiting_le good c.writers);
  failed = omega (arith, o.zeros, o.unused, waiting_le poor c.writers);
  halves = omega (arith, o.zeros);
  sound = o.sound;
}

-- The counters that the threads of a run leave: HTTPS slots or event-driven workers, any number of
-- them in any order of their rounds.
pub data Leaves (config : Config) : Work → Type 0 where
  by_slots :
      (answers : List InitAnswer) (turns : List (ℕ × SlotRound))
      → Leaves config (slot_turns config turns (start_slots answers fresh_work)).1
  by_crew :
      (size : ℕ) (starts : List HandStart) (turns : List (ℕ × Round))
      → Leaves config (crew_turns config size turns (start_crew starts fresh_work)).1

Leaves-Balanced : (config : Config) (w : Work) → Leaves config w → Balanced w
Leaves-Balanced config _ (by_slots answers turns) =
    (slot_turns-SoundSlots config answers turns).booked.balanced
Leaves-Balanced config _ (by_crew size starts turns) =
    (crew_turns-SoundCrew config size starts turns).balanced

-- What a collector with `n` writers comes to over a history of calls.
abbrev pub collected : (ℕ → ℕ) → ℕ → ℕ → ℕ → ℕ → List Moment → Collector
collected clock n capacity slots now es =
    history clock es (with_writers n (fresh capacity slots now))

-- In the final report of a run by HTTPS slots or by event-driven workers, any number of them and in
-- any order of their rounds, with any number of writers whose rings are a power of two up to 2^63,
-- when the writers are given exactly the samples of the run, in any interleaving with the drains of
-- the main thread, and there are fewer than 2^64: the completed requests are the samples counted
-- and those dropped, on both sides successes and failures add up to the total, and the statistics
-- count no more successes and no more failures than the counters do.
pub build_progress_report-Consistent :
    (fl : Floats) (clock : ℕ → ℕ) (config : Config) (w : Work) (n : ℕ) (es : List Moment)
    (bits slots now begin_ns : ℕ) (t : ReportClock)
    → Leaves config w
    → bits ≤ 63
    → All (Addressed n) es
    → given [] es ≡ w.samples
    → length w.samples < u64
    → Consistent
        (build_progress_report fl clock w (collected clock n (2 ^ bits) slots now es) begin_ns t).1
build_progress_report-Consistent fl clock config w n es bits slots now begin_ns t left b a e h =
    let c = with_writers n (fresh (2 ^ bits) slots now) in
    let o = with_writers-Opened bits slots now b n in
    report-Consistent fl clock w (history clock es c) begin_ns t h (Leaves-Balanced config w left) (
      subst (λ x. Accounted x (history clock es c)) e
        (history_keeps clock n es [] c a o.count
          (subst (λ (x : List RequestSample). length x < u64) (sym e) h)
          (Opened-Accounted (2 ^ bits) n c o)))

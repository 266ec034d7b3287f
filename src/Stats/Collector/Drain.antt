-- ===== src/Stats/Collector/Drain.antt =====
-- src/core/stats.cpp: `Drain` over all writers.
use titan_bench.Base.{
  ℕ, zero, suc, ◌+◌, ◌-◌, ◌≡◌, refl, List, [], ◌∷◌, ◌++◌, map, arith, length, All, add64,
}
use titan_bench.Stats.Sample.{RequestSample}
use titan_bench.Stats.Ring.{WriterState}
use titan_bench.Stats.Ring.Fifo.{IsValid, window, pending, slot}
use titan_bench.Stats.Collector.{
  Collector, record_fast_path, drain_loop, drain_writer, drain_writers, drain,
}
use titan_bench.Stats.Collector.Totals.{record_all}

-- All that is waiting, writer after writer.
abbrev pub backlog : List WriterState → List RequestSample
backlog [] = []
backlog (w ∷ ws) = pending w ++ backlog ws

-- The writers' counts of dropped samples, added to a count.
abbrev pub drops : ℕ → List WriterState → ℕ
drops d [] = d
drops d (w ∷ ws) = drops (add64 d w.dropped) ws

abbrev pub emptied : WriterState → WriterState
emptied w = record w { read_index = w.write_index; dropped = 0 }

abbrev pub with_dropped : Collector → ℕ → Collector
with_dropped c d = record c { dropped_samples = d }

module _ (clock : ℕ → ℕ) where
  pub record_all-append :
      (xs ys : List RequestSample) (c : Collector)
      → record_all clock c (xs ++ ys) ≡ record_all clock (record_all clock c xs) ys
  unfolding record_all
  record_all-append [] ys c = refl
  record_all-append (x ∷ xs) ys c = record_all-append xs ys _

  pub record_all-dropped :
      (xs : List RequestSample) (c : Collector) (d : ℕ)
      → record_all clock (with_dropped c d) xs ≡ with_dropped (record_all clock c xs) d
  unfolding record_all record_fast_path
  record_all-dropped [] c d = refl
  record_all-dropped (x ∷ xs) c d = record_all-dropped xs _ d

  pub dropped-record_all :
      (xs : List RequestSample) (c : Collector)
      → (record_all clock c xs).dropped_samples ≡ c.dropped_samples
  unfolding record_all record_fast_path
  dropped-record_all [] c = refl
  dropped-record_all (x ∷ xs) c = dropped-record_all xs _

  drain_loop-record_all :
      {w : WriterState}
      → IsValid w
      → (n r : ℕ) (c : Collector)
      → drain_loop clock n w r c ≡ record_all clock c (window w.ring (length w.ring) r n)
  unfolding drain_loop record_all
  drain_loop-record_all v zero r c = refl
  drain_loop-record_all {w} v (suc n) r c = rw (slot v r) (drain_loop-record_all v n (r + 1) _)

  pub drain_writer_lem :
      {w : WriterState} (c : Collector)
      → IsValid w
      → drain_writer clock w c ≡ (
        emptied w,
        with_dropped (record_all clock c (pending w)) (add64 c.dropped_samples w.dropped),
      )
  unfolding drain_writer
  drain_writer_lem {w} c v =
      let e : w.read_index + (w.write_index - w.read_index) ≡ w.write_index = omega arith in
      rw (
        e,
        drain_loop-record_all v (w.write_index - w.read_index) w.read_index c,
        dropped-record_all (pending w) c,
      )

  drain_writers_lem :
      (ws : List WriterState) (c : Collector)
      → All IsValid ws
      → drain_writers clock ws c ≡ (
        map emptied ws,
        with_dropped (record_all clock c (backlog ws)) (drops c.dropped_samples ws),
      )
  unfolding drain_writers
  drain_writers_lem [] c v = unfold record_all in refl
  drain_writers_lem (w ∷ ws) c v = rw (
    drain_writer_lem c v.0,
    drain_writers_lem ws _ v.1,
    record_all-dropped (backlog ws) (record_all clock c (pending w)) _,
    record_all-append (pending w) (backlog ws) c,
  )

  -- If every ring is well formed, draining records the waiting samples of every writer, each
  -- once and in the order in which they were recorded, adds the writers' counts of dropped
  -- samples to the collector's, and leaves every ring empty with its count at 0.
  pub drain_lem :
      (c : Collector)
      → All IsValid c.writers
      → drain clock c ≡ record (record_all clock c (backlog c.writers)) {
        dropped_samples = drops c.dropped_samples c.writers;
        writers = map emptied c.writers;
      }
  unfolding drain
  drain_lem c v = rw (drain_writers_lem c.writers c v)

pub emptied-IsValid : {w : WriterState} → IsValid w → IsValid (emptied w)
emptied-IsValid v = record {
  bits = v.bits;
  narrow = v.narrow;
  size = v.size;
  mask = v.mask;
  ordered = omega arith;
  bounded = omega arith;
  no_wrap = v.no_wrap;
}

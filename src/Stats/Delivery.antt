-- ===== src/Stats/Delivery.antt =====
-- src/core/stats.cpp: one writer and the collector over a history of `Record` and `Drain`.
use titan_bench.Base.{
  ◌^◌, ℕ, suc, ◌+◌, ◌%◌, ◌≤◌, ◌<◌, ◌≡◌, refl, ap, ◌∙◌, List, [], ◌∷◌, ◌++◌, arith, length,
  length-append, add64, u64, length-set, bit_and, sym, ◌-◌,
}
use titan_bench.Stats.Sample.{RequestSample}
use titan_bench.Stats.Queue.{Queue, offer}
use titan_bench.Stats.Ring.{WriterState, new_writer, record_in}
use titan_bench.Stats.Ring.Fifo.{
  IsValid, new_writer-IsValid, view, pending, record_in-IsValid, record_in-refines, length-pending,
}
use titan_bench.Stats.Collector.{Collector, record_fast_path, drain_writer}
use titan_bench.Stats.Collector.Totals.{record_all}
use titan_bench.Stats.Collector.Drain.{
  with_dropped, emptied, emptied-IsValid, drain_writer_lem, record_all-dropped, record_all-append,
}

pub data Event : Type 0 where
  submit : RequestSample → Event
  collect : Event

abbrev pub submitted : List Event → ℕ
submitted [] = 0
submitted (submit s ∷ es) = suc (submitted es)
submitted (collect ∷ es) = submitted es

unfoldable pub run : (ℕ → ℕ) → List Event → WriterState → Collector → WriterState × Collector
run clock [] w c = (w, c)
run clock (submit s ∷ es) w c = run clock es (record_in w s) c
run clock (collect ∷ es) w c = let (w', c') = drain_writer clock w c in run clock es w' c'

-- What the pair promises: a bounded queue, the samples delivered so far, and the number lost.
pub record Ledger : Type 0 where
  pub queue : Queue
  pub delivered : List RequestSample
  pub lost : ℕ

unfoldable pub follow : ℕ → List Event → Ledger → Ledger
follow size [] l = l
follow size (submit s ∷ es) l = follow size es (record l { queue = offer size l.queue s })
follow size (collect ∷ es) l = follow size es (record {
  queue = record { items = []; lost = 0 };
  delivered = l.delivered ++ l.queue.items;
  lost = add64 l.lost l.queue.lost;
})

-- The ledger before any event.
abbrev pub opening : WriterState → Collector → Ledger
opening w c = record { queue = view w; delivered = []; lost = c.dropped_samples }

length-ring : (w : WriterState) (s : RequestSample) → length (record_in w s).ring ≡ length w.ring
unfolding record_in
length-ring w s = ground (arith, length-set w.ring (bit_and w.write_index w.ring_mask) s)

write_index-le :
    (w : WriterState) (s : RequestSample) (n : ℕ)
    → w.write_index + suc n < u64
    → (record_in w s).write_index + n < u64
unfolding record_in
write_index-le w s n h = ground arith

view-emptied : (w : WriterState) → view (emptied w) ≡ record { items = []; lost = 0 }
view-emptied w = let e : w.write_index - w.write_index ≡ 0 = omega arith in rw e

-- The writer and the collector agree with the ledger.
pub record Agrees (clock : ℕ → ℕ) (c : Collector) (l : Ledger) (r : WriterState × Collector)
    : Type 0 where
  pub ring : view r.0 ≡ l.queue
  pub recorded : r.1 ≡ with_dropped (record_all clock c l.delivered) l.lost
  pub valid : IsValid r.0

module _ (clock : ℕ → ℕ) (c : Collector) where
  run-from :
      (es : List Event) (size : ℕ) (w : WriterState) (done : List RequestSample) (lost : ℕ)
      → IsValid w
      → size ≡ length w.ring
      → w.write_index + submitted es < u64
      → Agrees clock c
          (follow size es (record { queue = view w; delivered = done; lost = lost }))
          (run clock es w (with_dropped (record_all clock c done) lost))
  unfolding run follow
  run-from [] size w done lost v e h = record { ring = refl; recorded = refl; valid = v }
  run-from (submit s ∷ es) size w done lost v e h =
      let q : view (record_in w s) ≡ offer size (view w) s =
        rw e (record_in-refines s v (omega arith)) in
      rw (← q) (
        run-from es size (record_in w s) done lost (record_in-IsValid s v (omega arith))
          (e ∙ sym (length-ring w s)) (write_index-le w s (submitted es) h))
  run-from (collect ∷ es) size w done lost v e h =
      rw
        (
          drain_writer_lem clock (with_dropped (record_all clock c done) lost) v,
          record_all-dropped clock (pending w) (record_all clock c done) lost,
          ← record_all-append clock done (pending w) c,
          ← view-emptied w,
        )
        (run-from es size (emptied w) (done ++ pending w) (add64 lost w.dropped) (emptied-IsValid v)
          e h)

  -- Over any history of records and drains in which the write index does not wrap, the ring
  -- holds what the bounded queue of its capacity holds, and the collector has recorded exactly
  -- the samples that the queue delivered, in the order of their submission, with the number of
  -- those that it turned away added to its count.
  pub run-Agrees :
      (es : List Event) (w : WriterState)
      → IsValid w
      → w.write_index + submitted es < u64
      → Agrees clock c (follow (length w.ring) es (opening w c)) (run clock es w c)
  run-Agrees es w v h =
      let start : with_dropped (record_all clock c []) c.dropped_samples ≡ c =
        unfold record_all in refl in
      rw start at (run-from es (length w.ring) w [] c.dropped_samples v refl h)

-- Every sample that a ledger has seen: delivered, waiting, or lost.
abbrev pub balance : Ledger → ℕ
balance l = length l.delivered + length l.queue.items + l.lost + l.queue.lost

follow-balance :
    (size : ℕ) (es : List Event) (l : Ledger)
    → balance l + submitted es < u64
    → balance (follow size es l) ≡ balance l + submitted es
unfolding follow
follow-balance size [] l h = omega arith
follow-balance size (submit s ∷ es) l h =
    let l' : Ledger = record l { queue = offer size l.queue s } in
    let one : balance l' ≡ balance l + 1 =
      unfold offer in ground (arith, length-append l.queue.items (s ∷ [])) in
    omega (arith, one, follow-balance size es l' (omega (arith, one)))
follow-balance size (collect ∷ es) l h =
    let l' : Ledger = record {
      queue = record { items = []; lost = 0 };
      delivered = l.delivered ++ l.queue.items;
      lost = add64 l.lost l.queue.lost;
    } in
    let same : balance l' ≡ balance l = omega (arith, length-append l.delivered l.queue.items) in
    omega (arith, same, follow-balance size es l' (omega (arith, same)))

pub total-record_all :
    (clock : ℕ → ℕ) (ss : List RequestSample) (c : Collector)
    → c.total_requests < u64
    → (record_all clock c ss).total_requests ≡ (c.total_requests + length ss) % u64
unfolding record_all record_fast_path
total-record_all clock [] c h = omega arith
total-record_all clock (s ∷ ss) c h =
    omega (
      arith,
      total-record_all clock ss (record_fast_path (clock c.total_requests) c s) (omega arith),
    )

-- From an empty ring and a collector that has counted nothing, after any history of fewer than
-- 2^64 submissions each submitted sample is counted once: in the collector's total, among the
-- samples that wait in the ring, or in one of the two counts of dropped samples.
pub run_conserves :
    (clock : ℕ → ℕ) (bits : ℕ) (c : Collector) (es : List Event)
    → bits ≤ 63
    → c.total_requests ≡ 0
    → c.dropped_samples ≡ 0
    → submitted es < u64
    → let (w', c') = run clock es (new_writer (2 ^ bits)) c in
      c'.total_requests + length (pending w') + c'.dropped_samples + w'.dropped ≡ submitted es
run_conserves clock bits c es b t d h =
    let start = new_writer (2 ^ bits) in
    let empty : (start.write_index ≡ 0) × (start.read_index ≡ 0) × (start.dropped ≡ 0) =
      unfold new_writer in (refl, refl, refl) in
    let l : Ledger = follow (length start.ring) es (opening start c) in
    let agrees = run-Agrees clock c es start (new_writer-IsValid bits b) (omega (arith, empty.0)) in
    let begun : balance (opening start c) ≡ 0 = omega (arith, length-pending start, empty, d) in
    let all = follow-balance (length start.ring) es (opening start c) (omega (arith, begun)) in
    omega (
      arith,
      begun,
      all,
      total-record_all clock l.delivered c (omega arith),
      ap (λ (q : Queue). length q.items) agrees.ring,
      ap (λ (q : Queue). q.lost) agrees.ring,
      ap (λ (x : Collector). x.total_requests) agrees.recorded,
      ap (λ (x : Collector). x.dropped_samples) agrees.recorded,
    )

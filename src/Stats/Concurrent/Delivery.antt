-- ===== src/Stats/Concurrent/Delivery.antt =====
-- src/core/stats.cpp: what the collector has taken out beside what the worker has put in.
use titan_bench.Base.{
  ◌+◌, ◌-◌, ◌≤◌, ◌<◌, ◌≡◌, refl, ◌∙◌, List, [], ◌∷◌, ◌++◌, arith, length, length-set, u64, bit_and,
}
use titan_bench.Stats.Sample.{RequestSample}
use titan_bench.Stats.Ring.{WriterState}
use titan_bench.Stats.Ring.Fifo.{IsValid, window, length-window}
use titan_bench.Stats.Concurrent.{
  Producer, outside, loaded, stored, Consumer, resting, draining, released, Shared, Turn, calls,
  produces, consumes, produce, call, consume, step, run, start,
}
use titan_bench.Stats.Concurrent.Invariant.{ProducerSees, front, front_bounds}
use titan_bench.Stats.Concurrent.Safety.{Invariant, step-Invariant}

-- How far one step may move the write index; the number of slots stays.
abbrev Moves : WriterState → WriterState → Type 0
Moves s t = (t.write_index ≤ s.write_index + 1) × (length t.ring ≡ length s.ring)

produce-Moves :
    (p : Producer) (s : Shared)
    → s.state.write_index + 1 < u64
    → ProducerSees p s.state
    → Moves s.state (produce p s).state
unfolding produce
produce-Moves outside s w h = (omega arith, refl)
produce-Moves (loaded x write read) s w h =
    ground (arith, length-set s.state.ring (bit_and write s.state.ring_mask) x)
produce-Moves (stored x write) s w h = (omega arith, refl)

call-Moves : (p : Producer) (x : RequestSample) (s : Shared) → Moves s.state (call p x s).state
unfolding call
call-Moves outside x s = (omega arith, refl)
call-Moves (loaded y write read) x s = (omega arith, refl)
call-Moves (stored y write) x s = (omega arith, refl)

consume-Moves : (c : Consumer) (s : Shared) → Moves s.state (consume c s).state
unfolding consume
consume-Moves resting s = (omega arith, refl)
consume-Moves (draining r w) s = ground arith
consume-Moves released s = (omega arith, refl)

step-Moves :
    (t : Turn) (s : Shared)
    → s.state.write_index + 1 < u64
    → Invariant s
    → Moves s.state (step t s).state
unfolding step
step-Moves (calls x) s w h = call-Moves s.producer x s
step-Moves produces s w h = produce-Moves s.producer s w h.producer_sees
step-Moves consumes s w h = consume-Moves s.consumer s

run-Invariant :
    (ts : List Turn) (s : Shared)
    → s.state.write_index + length ts < u64
    → Invariant s
    → Invariant (run ts s) × (length (run ts s).state.ring ≡ length s.state.ring)
unfolding run
run-Invariant [] s w h = (h, refl)
run-Invariant (t ∷ ts) s w h =
    let moved = step-Moves t s (omega arith) h in
    let (i, e) = run-Invariant ts (step t s) (omega arith) (step-Invariant t s (omega arith) h) in
    (i, e ∙ moved.1)

start-Invariant : (w : WriterState) → IsValid w → w.write_index ≡ w.read_index → Invariant (start w)
start-Invariant w v e = record {
  valid = v;
  producer_sees = tt;
  consumer_sees = tt;
  in_order = let z : w.write_index - w.read_index ≡ 0 = omega arith in rw z;
}

-- Whatever the interleaving of one worker and the collector on a ring that starts empty, as long
-- as the write index does not wrap: the samples that the collector has recorded are, one for one
-- and in order, the first of those that the worker has put in, and the others, no more than the
-- ring has slots, are still to come.
pub run_delivers :
    (ts : List Turn) (w : WriterState)
    → IsValid w
    → w.write_index ≡ w.read_index
    → w.write_index + length ts < u64
    → let s = run ts (start w) in
      (rest : List RequestSample) × (s.accepted ≡ s.delivered ++ rest)
      × (length rest ≤ length w.ring)
run_delivers ts w v e h =
    let s = run ts (start w) in
    let (i, size) = run-Invariant ts (start w) h (start-Invariant w v e) in
    let f = front s.consumer s.state in
    let n = s.state.write_index - f in
    (
      window s.state.ring (length s.state.ring) f n,
      i.in_order,
      omega (
        arith,
        size,
        i.valid.bounded,
        front_bounds s.consumer s.state i.valid i.consumer_sees,
        length-window s.state.ring (length s.state.ring) f n,
      ),
    )

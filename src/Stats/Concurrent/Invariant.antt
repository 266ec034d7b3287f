-- ===== src/Stats/Concurrent/Invariant.antt =====
-- src/core/stats.cpp: the invariant of the ring, the worker and the collector.
use titan_bench.Base.{
  ℕ, ◌-◌, ◌%◌, ◌≤◌, ◌<◌, ◌≡◌, refl, ◌∙◌, ◌++◌, arith, length, set, get_or, length-set,
}
use titan_bench.Stats.Sample.{RequestSample, default_sample}
use titan_bench.Stats.Ring.{WriterState}
use titan_bench.Stats.Ring.Fifo.{IsValid, window}
use titan_bench.Stats.Concurrent.{
  Producer, outside, loaded, stored, Consumer, resting, draining, released, Shared,
}

-- The first index that the collector has not delivered yet.
abbrev pub front : Consumer → WriterState → ℕ
front (draining r w) s = r
front _ s = s.read_index

-- What a worker inside `Record` may rely on.
abbrev pub ProducerSees : Producer → WriterState → Type 0
ProducerSees outside s = Unit {0}
ProducerSees (loaded x write read) s =
    (write ≡ s.write_index) × (read ≤ s.read_index) × (write - read ≤ length s.ring)
ProducerSees (stored x write) s =
    (write ≡ s.write_index)
    × (write - s.read_index < length s.ring)
    × (get_or s.ring (write % length s.ring) default_sample ≡ x)

-- What the collector inside `Drain` may rely on.
abbrev pub ConsumerSees : Consumer → WriterState → Type 0
ConsumerSees (draining r w) s = (s.read_index ≤ r) × (r ≤ w) × (w ≤ s.write_index)
ConsumerSees _ s = Unit {0}

-- The worker stands at `p` and the collector at `c`.
pub record Holds (s : Shared) (p : Producer) (c : Consumer) : Type 0 where
  pub valid : IsValid s.state
  pub producer_sees : ProducerSees p s.state
  pub consumer_sees : ConsumerSees c s.state
  pub in_order :
      s.accepted
      ≡ s.delivered
        ++ window s.state.ring
            (length s.state.ring)
            (front c s.state)
            (s.state.write_index - front c s.state)

pub front_bounds :
    (c : Consumer) (s : WriterState)
    → IsValid s
    → ConsumerSees c s
    → (s.read_index ≤ front c s) × (front c s ≤ s.write_index)
front_bounds (draining r w) s v h = omega arith
front_bounds resting s v h = omega arith
front_bounds released s v h = omega arith

-- What the collector relies on does not mention the slots.
pub ConsumerSees-kept :
    (c : Consumer) (s t : WriterState)
    → t.read_index ≡ s.read_index
    → s.write_index ≤ t.write_index
    → ConsumerSees c s
    → ConsumerSees c t
ConsumerSees-kept (draining r w) s t e h k = omega arith
ConsumerSees-kept resting s t e h k = tt
ConsumerSees-kept released s t e h k = tt

-- The worker relies on the slots and on a read index that does not fall.
pub ProducerSees-kept :
    (p : Producer) (s t : WriterState)
    → t.ring ≡ s.ring
    → t.write_index ≡ s.write_index
    → s.read_index ≤ t.read_index
    → ProducerSees p s
    → ProducerSees p t
ProducerSees-kept outside s t e f h k = tt
ProducerSees-kept (loaded x write read) s t e f h k = rw (e, f) (k.0, omega arith, k.2)
ProducerSees-kept (stored x write) s t e f h k = rw (e, f) (k.0, omega arith, k.2)

pub front-kept :
    (c : Consumer) (s t : WriterState) → t.read_index ≡ s.read_index → front c t ≡ front c s
front-kept (draining r w) s t e = refl
front-kept resting s t e = e
front-kept released s t e = e

pub set-IsValid :
    {s : WriterState} (i : ℕ) (x : RequestSample)
    → IsValid s
    → IsValid (record s { ring = set s.ring i x })
set-IsValid {s} i x v = record {
  bits = v.bits;
  narrow = v.narrow;
  size = length-set s.ring i x ∙ v.size;
  mask = v.mask;
  ordered = v.ordered;
  bounded = omega (arith, v.bounded, length-set s.ring i x);
  no_wrap = v.no_wrap;
}

-- The count of dropped samples is nobody's concern.
pub dropped-Holds :
    (d : ℕ) (p : Producer) (c : Consumer) (s : Shared)
    → Holds s p c
    → Holds (record s { state = record s.state { dropped = d } }) p c
dropped-Holds d p c s h =
    let next : WriterState = record s.state { dropped = d } in
    record {
      valid = record {
        bits = h.valid.bits;
        narrow = h.valid.narrow;
        size = h.valid.size;
        mask = h.valid.mask;
        ordered = h.valid.ordered;
        bounded = h.valid.bounded;
        no_wrap = h.valid.no_wrap;
      };
      producer_sees = ProducerSees-kept p s.state next refl refl (omega arith) h.producer_sees;
      consumer_sees = ConsumerSees-kept c s.state next refl (omega arith) h.consumer_sees;
      in_order = rw (front-kept c s.state next refl) h.in_order;
    }

-- Who takes a step is recorded in the state as well, and that is all that is forgotten here.
pub relabel :
    {s : Shared} {p : Producer} {c : Consumer} (p' : Producer) (c' : Consumer) (lost : ℕ)
    → Holds s p c
    → Holds (record s { producer = p'; consumer = c'; lost = lost }) p c
relabel p' c' lost h = record {
  valid = h.valid;
  producer_sees = h.producer_sees;
  consumer_sees = h.consumer_sees;
  in_order = h.in_order;
}

pub leaves : {s : Shared} {p : Producer} {c : Consumer} → Holds s p c → Holds s outside c
leaves h = record {
  valid = h.valid;
  producer_sees = tt;
  consumer_sees = h.consumer_sees;
  in_order = h.in_order;
}

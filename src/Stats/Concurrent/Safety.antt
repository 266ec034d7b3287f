-- ===== src/Stats/Concurrent/Safety.antt =====
-- src/core/stats.cpp: the steps of the worker and the collector, one by one.
use native.Mathlib.Nat.{mod-lt}
use titan_bench.Base.{
  get_or-set_self, ℕ, suc, ◌+◌, ◌-◌, ◌%◌, ◌<◌, ◌≡◌, refl, sym, ap, ◌∙◌, [], ◌∷◌, ◌++◌, arith,
  length, set, get_or, bit_and, add64, sub64, u64, append_assoc, length-set, ltb, leb, Bool-cases,
  inl, inr, ltb→lt, leb→lt,
}
use titan_bench.Stats.Sample.{RequestSample, default_sample}
use titan_bench.Stats.Ring.{WriterState}
use titan_bench.Stats.Ring.Fifo.{window, slot, window-suc, window-set_past}
use titan_bench.Stats.Concurrent.{
  Producer, outside, loaded, stored, Consumer, resting, draining, released, Shared, Turn, calls,
  produces, consumes, produce, call, consume, step,
}
use titan_bench.Stats.Concurrent.Invariant.{
  front, Holds, front_bounds, ConsumerSees-kept, ProducerSees-kept, front-kept, set-IsValid,
  dropped-Holds, relabel, leaves,
}

-- The worker has stored its sample and publishes it.
publish-Holds :
    (x : RequestSample) (write : ℕ) (c : Consumer) (s : Shared)
    → s.state.write_index + 1 < u64
    → Holds s (stored x write) c
    → Holds (produce (stored x write) s) outside c
unfolding produce
publish-Holds x write c s w h =
    let st = s.state in
    let f = front c st in
    let seen = h.producer_sees in
    let b = front_bounds c st h.valid h.consumer_sees in
    let next : WriterState = record st { write_index = add64 write 1 } in
    let up : next.write_index ≡ st.write_index + 1 = omega arith in
    let grown : next.write_index - f ≡ suc (st.write_index - f) = omega arith in
    let taken : window st.ring (length st.ring) f (next.write_index - f)
        ≡ window st.ring (length st.ring) f (st.write_index - f) ++ (x ∷ []) =
      rw grown (
        window-suc st.ring (length st.ring) (st.write_index - f) f write (omega arith)
        ∙ rw seen.2) in
    record {
      valid = record {
        bits = h.valid.bits;
        narrow = h.valid.narrow;
        size = h.valid.size;
        mask = h.valid.mask;
        ordered = omega (arith, h.valid.ordered);
        bounded = omega arith;
        no_wrap = omega arith;
      };
      producer_sees = tt;
      consumer_sees = ConsumerSees-kept c st next refl (omega arith) h.consumer_sees;
      in_order =
          rw (front-kept c st next refl, taken, h.in_order) (append_assoc s.delivered _ (x ∷ []));
    }

-- The worker writes its sample into a slot that the collector has released.
store-Holds :
    (x : RequestSample) (write read : ℕ) (c : Consumer) (s : Shared)
    → write - read < length s.state.ring
    → Holds s (loaded x write read) c
    → Holds
        (record s {
          state = record s.state { ring = set s.state.ring (bit_and write s.state.ring_mask) x };
          producer = stored x write;
        })
        (stored x write)
        c
store-Holds x write read c s fits h =
    let st = s.state in
    let f = front c st in
    let seen = h.producer_sees in
    let b = front_bounds c st h.valid h.consumer_sees in
    let i = bit_and write st.ring_mask in
    let at : i ≡ write % length st.ring = slot h.valid write in
    let next : WriterState = record st { ring = set st.ring i x } in
    let same : length next.ring ≡ length st.ring = length-set st.ring i x in
    record {
      valid = set-IsValid i x h.valid;
      producer_sees = (
        seen.0,
        omega (arith, same),
        rw (same, at)
            (get_or-set_self st.ring (write % length st.ring) x default_sample
              (mod-lt write (omega arith))),
      );
      consumer_sees = ConsumerSees-kept c st next refl (omega arith) h.consumer_sees;
      in_order =
          rw
            (
              front-kept c st next refl,
              same,
              window-set_past st.ring (length st.ring) x (st.write_index - f) f i (omega arith)
                  (at ∙ ap (λ k. k % length st.ring) (omega arith)),
            )
            h.in_order;
    }

-- A step of the worker.
produce-Holds :
    (p : Producer) (c : Consumer) (s : Shared)
    → s.state.write_index + 1 < u64
    → Holds s p c
    → Holds (produce p s) (produce p s).producer c
unfolding produce
produce-Holds outside c s w h = relabel outside s.consumer s.lost h
produce-Holds (loaded x write read) c s w h =
    elim (Bool-cases (leb (length s.state.ring) (sub64 write read))) [
      | inl full ↦ rw full (
          relabel outside s.consumer s.lost
            (dropped-Holds (add64 s.state.dropped 1) outside c s (leaves h)))
      | inr room ↦
          let fits : write - read < length s.state.ring =
            omega (arith, leb→lt _ _ room, h.valid.no_wrap, h.producer_sees) in
          rw room (store-Holds x write read c s fits h)
    ]
produce-Holds (stored x write) c s w h = publish-Holds x write c s w h

call-Holds :
    (p : Producer) (c : Consumer) (x : RequestSample) (s : Shared)
    → Holds s p c
    → Holds (call p x s) (call p x s).producer c
unfolding call
call-Holds outside c x s h = record {
  valid = h.valid;
  producer_sees = (refl, omega arith, h.valid.bounded);
  consumer_sees = h.consumer_sees;
  in_order = h.in_order;
}
call-Holds (loaded y write read) c x s h = relabel (loaded y write read) s.consumer s.lost h
call-Holds (stored y write) c x s h = relabel (stored y write) s.consumer s.lost h

-- The collector takes one sample out.
take-Holds :
    (p : Producer) (r w : ℕ) (s : Shared)
    → r < w
    → Holds s p (draining r w)
    → Holds
        (record s {
          consumer = draining (r + 1) w;
          delivered =
              s.delivered
              ++ (get_or s.state.ring (bit_and r s.state.ring_mask) default_sample ∷ []);
        })
        p
        (draining (r + 1) w)
take-Holds p r w s more h =
    let st = s.state in
    let seen = h.consumer_sees in
    let left : st.write_index - r ≡ suc (st.write_index - (r + 1)) = omega arith in
    record {
      valid = h.valid;
      producer_sees = h.producer_sees;
      consumer_sees = omega arith;
      in_order =
          h.in_order
          ∙ rw (left, slot h.valid r)
              (sym (
                append_assoc s.delivered (get_or st.ring (r % length st.ring) default_sample ∷ [])
                  _));
    }

-- The collector publishes how far it has read.
release-Holds :
    (p : Producer) (r w : ℕ) (s : Shared)
    → Holds s p (draining r w)
    → Holds (record s { state = record s.state { read_index = r }; consumer = released }) p released
release-Holds p r w s h =
    let next : WriterState = record s.state { read_index = r } in
    record {
      valid = record {
        bits = h.valid.bits;
        narrow = h.valid.narrow;
        size = h.valid.size;
        mask = h.valid.mask;
        ordered = omega (arith, h.consumer_sees);
        bounded = omega (arith, h.consumer_sees, h.valid.bounded);
        no_wrap = h.valid.no_wrap;
      };
      producer_sees =
          ProducerSees-kept p s.state next refl refl (omega (arith, h.consumer_sees))
            h.producer_sees;
      consumer_sees = tt;
      in_order = h.in_order;
    }

begins :
    {s : Shared} {p : Producer}
    → Holds s p resting
    → Holds s p (draining s.state.read_index s.state.write_index)
begins h = record {
  valid = h.valid;
  producer_sees = h.producer_sees;
  consumer_sees = omega (arith, h.valid.ordered);
  in_order = h.in_order;
}

rests : {s : Shared} {p : Producer} → Holds s p released → Holds s p resting
rests h = record {
  valid = h.valid;
  producer_sees = h.producer_sees;
  consumer_sees = tt;
  in_order = h.in_order;
}

-- A step of the collector.
consume-Holds :
    (p : Producer) (c : Consumer) (s : Shared)
    → Holds s p c
    → Holds (consume c s) p (consume c s).consumer
unfolding consume
consume-Holds p resting s h =
    relabel s.producer (draining s.state.read_index s.state.write_index) s.lost (begins h)
consume-Holds p (draining r w) s h = elim (Bool-cases (ltb r w)) [
  | inl more ↦ rw more (take-Holds p r w s (ltb→lt r w more) h)
  | inr done ↦ rw done (release-Holds p r w s h)
]
consume-Holds p released s h =
    relabel s.producer resting (add64 s.lost s.state.dropped)
      (dropped-Holds 0 p resting s (rests h))

consumer-produce : (p : Producer) (s : Shared) → (produce p s).consumer ≡ s.consumer
unfolding produce
consumer-produce outside s = refl
consumer-produce (loaded x write read) s = ground arith
consumer-produce (stored x write) s = refl

consumer-call : (p : Producer) (x : RequestSample) (s : Shared) → (call p x s).consumer ≡ s.consumer
unfolding call
consumer-call outside x s = refl
consumer-call (loaded y write read) x s = refl
consumer-call (stored y write) x s = refl

producer-consume : (c : Consumer) (s : Shared) → (consume c s).producer ≡ s.producer
unfolding consume
producer-consume resting s = refl
producer-consume (draining r w) s = ground arith
producer-consume released s = refl

-- Between any two steps of a schedule.
abbrev pub Invariant : Shared → Type 0
Invariant s = Holds s s.producer s.consumer

pub step-Invariant :
    (t : Turn) (s : Shared) → s.state.write_index + 1 < u64 → Invariant s → Invariant (step t s)
unfolding step
step-Invariant (calls x) s w h =
    rw (consumer-call s.producer x s) (call-Holds s.producer s.consumer x s h)
step-Invariant produces s w h =
    rw (consumer-produce s.producer s) (produce-Holds s.producer s.consumer s w h)
step-Invariant consumes s w h =
    rw (producer-consume s.consumer s) (consume-Holds s.producer s.consumer s h)

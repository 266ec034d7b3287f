-- ===== src/Stats/Concurrent.antt =====
-- src/core/stats.cpp: one worker in `StatsWriter::Record` and the collector in `Drain` on the same
-- ring, interleaved at every access to shared memory. Each atomic access is one step, and so is
-- each access to a slot; a schedule says who takes the next step. The acquire and release orders
-- of the two indices make such interleavings the ones that matter.
pub mod Invariant
pub mod Safety
pub mod Delivery
use titan_bench.Base.{
  ℕ, suc, ◌+◌, List, [], ◌∷◌, ◌++◌, length, set, get_or, bit_and, ltb, leb, if◌then◌else◌, add64,
  sub64,
}
use titan_bench.Stats.Sample.{RequestSample, default_sample}
use titan_bench.Stats.Ring.{WriterState}

-- Where the worker stands: outside `Record`, past the two loads, or past the write of the slot.
pub data Producer : Type 0 where
  outside : Producer
  loaded : RequestSample → ℕ → ℕ → Producer
  stored : RequestSample → ℕ → Producer

-- Where the collector stands: outside the loop, in it with its `r` and `w`, or past the store of
-- the read index.
pub data Consumer : Type 0 where
  resting : Consumer
  draining : ℕ → ℕ → Consumer
  released : Consumer

-- `accepted` and `delivered` are history: the samples put into the ring and taken out of it.
pub record Shared : Type 0 where
  pub state : WriterState
  pub producer : Producer
  pub consumer : Consumer
  pub accepted : List RequestSample
  pub delivered : List RequestSample
  pub lost : ℕ

pub data Turn : Type 0 where
  calls : RequestSample → Turn
  produces consumes : Turn

-- The worker's next step; `calls` enters `Record` and makes its two loads.
unfoldable pub produce : Producer → Shared → Shared
produce outside s = record s { producer = outside }
produce (loaded x write read) s =
    if leb (length s.state.ring) (sub64 write read)
    then record s {
      state = record s.state { dropped = add64 s.state.dropped 1 };
      producer = outside;
    }
    else record s {
      state = record s.state { ring = set s.state.ring (bit_and write s.state.ring_mask) x };
      producer = stored x write;
    }
produce (stored x write) s = record s {
  state = record s.state { write_index = add64 write 1 };
  producer = outside;
  accepted = s.accepted ++ (x ∷ []);
}

unfoldable pub call : Producer → RequestSample → Shared → Shared
call outside x s = record s { producer = loaded x s.state.write_index s.state.read_index }
call p x s = record s { producer = p }

unfoldable pub consume : Consumer → Shared → Shared
consume resting s = record s { consumer = draining s.state.read_index s.state.write_index }
consume (draining r w) s =
    if ltb r w
    then record s {
      consumer = draining (r + 1) w;
      delivered =
          s.delivered ++ (get_or s.state.ring (bit_and r s.state.ring_mask) default_sample ∷ []);
    }
    else record s { state = record s.state { read_index = r }; consumer = released }
consume released s = record s {
  state = record s.state { dropped = 0 };
  consumer = resting;
  lost = add64 s.lost s.state.dropped;
}

unfoldable pub step : Turn → Shared → Shared
unfolding call produce consume
step (calls x) s = call s.producer x s
step produces s = produce s.producer s
step consumes s = consume s.consumer s

unfoldable pub run : List Turn → Shared → Shared
run [] s = s
run (t ∷ ts) s = run ts (step t s)

abbrev pub start : WriterState → Shared
start w = record {
  state = w;
  producer = outside;
  consumer = resting;
  accepted = [];
  delivered = [];
  lost = 0;
}

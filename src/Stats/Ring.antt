-- ===== src/Stats/Ring.antt =====
-- src/core/stats.cpp: `WriterState`, the ring that one worker fills and the collector empties,
-- and `StatsWriter::Record`. Atomics are read and written in program order here; interleavings
-- are the subject of the module on concurrent use.
pub mod Fifo
use titan_bench.Base.{
  ℕ, ◌+◌, ◌-◌, List, replicate, length, set, bit_and, leb, if◌then◌else◌, add64, sub64,
}
use titan_bench.Stats.Sample.{RequestSample, default_sample}

pub record WriterState : Type 0 where
  pub ring : List RequestSample
  pub ring_mask : ℕ
  pub write_index : ℕ
  pub read_index : ℕ
  pub dropped : ℕ

unfoldable pub new_writer : ℕ → WriterState
new_writer capacity = record {
  ring = replicate capacity default_sample;
  ring_mask = sub64 capacity 1;
  write_index = 0;
  read_index = 0;
  dropped = 0;
}

-- `StatsWriter::Record` on a writer that has its state.
unfoldable pub record_in : WriterState → RequestSample → WriterState
record_in state sample =
    let write = state.write_index in
    let read = state.read_index in
    if leb (length state.ring) (sub64 write read)
    then record state { dropped = add64 state.dropped 1 }
    else record state {
      ring = set state.ring (bit_and write state.ring_mask) sample;
      write_index = add64 write 1;
    }

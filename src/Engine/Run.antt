-- ===== src/Engine/Run.antt =====
-- src/core/engine.h, src/core/engine.cpp: `BuildProgressReport` and `BenchmarkEngine::Run`. What
-- the clock and the counters of the other threads show is an argument; the pointer to the message
-- is never null in the program. The threads themselves are modelled by their loops.
use Prim.Native.String.{String}
use titan_bench.Base.{
  ℕ, zero, suc, ◌+◌, ◌-◌, ◌*◌, ◌/◌, Bool, true, false, ◌&&◌, List, [], ◌∷◌, Option, none, some, leb,
  ◌==◌, if◌then◌else◌, ℤ, pos, negsuc, at_least, max,
}
use titan_bench.Cli.Options.{Config}
use titan_bench.Stats.Floats.{Floats}
use titan_bench.Stats.Collector.{Collector, create_writer}
use titan_bench.Stats.Snapshot.{StatsSnapshot, snapshot}
use titan_bench.Engine.Worker.{Work, request_limit}

pub record EngineReport (Double : Type 0) : Type 0 where
  pub started_requests : ℕ
  pub completed_requests : ℕ
  pub succeeded_requests : ℕ
  pub failed_requests : ℕ
  pub retried_requests : ℕ
  pub bytes_sent : ℕ
  pub bytes_received : ℕ
  pub elapsed_ms : ℕ
  pub stats : StatsSnapshot Double

-- The readings of the steady clock in one report: for `elapsed_ms`, and two in `Snapshot`.
pub record ReportClock : Type 0 where
  pub report_ns : ℕ
  pub now_ns : ℕ
  pub later_ns : ℕ

module _ (fl : Floats) (clock : ℕ → ℕ) where
  -- The collector, which `Snapshot` drains, and the report.
  unfoldable pub build_progress_report :
      Work → Collector → ℕ → ReportClock → Collector × EngineReport fl.Double
  unfolding snapshot
  build_progress_report w c begin_ns t =
      let (c', s) = snapshot fl clock true c t.now_ns t.later_ns in
      (
        c',
        record {
          started_requests = w.started;
          completed_requests = w.completed;
          succeeded_requests = w.succeeded;
          failed_requests = w.failed;
          retried_requests = w.retried;
          bytes_sent = w.bytes_sent;
          bytes_received = w.bytes_received;
          elapsed_ms = (t.report_ns - begin_ns) / 1000000;
          stats = s;
        },
      )

-- `std::max(1, duration_seconds)`.
abbrev pub at_least_second : ℤ → ℕ
at_least_second (pos n) = max 1 n
at_least_second (negsuc n) = 1

unfoldable pub end_time : Config → ℕ → ℕ
end_time config begin_ns = begin_ns + at_least_second config.duration_seconds * 1000000000

-- The workers that get a thread, each with its share of the connections.
unfoldable pub workers_with_work : ℕ → List ℕ → List (ℕ × ℕ)
workers_with_work i [] = []
workers_with_work i (n ∷ ns) =
    let rest = workers_with_work (i + 1) ns in if n == 0 then rest else (i, n) ∷ rest

-- What a round of the main loop reads: the stop flag, the clock against the end, the completed
-- requests, and the clock before and after a report.
pub record Tick : Type 0 where
  pub stop_seen : Bool
  pub now_ns : ℕ
  pub completed : ℕ
  pub progress_ns : ℕ
  pub after_ns : ℕ

-- The test by which the loop stops the run itself.
unfoldable pub time_is_up : Config → ℕ → Tick → Bool
time_is_up config end_ns t =
    if config.has_duration
    then leb end_ns t.now_ns
    else if config.has_requests
    then leb (request_limit config.requests) t.completed
    else false

-- What the main thread does in a round: hand a report to the callback, at the time it read, or
-- drain the rings. Both drain the collector.
pub data Act : Type 0 where
  report_at : ℕ → Act
  drain_only : Act

-- What has been done, and whether the loop was left, with the stop flag set by it or found set.
pub record MainLoop : Type 0 where
  pub acts : List Act
  pub left_by : Option Bool

abbrev pub then_act : Act → MainLoop → MainLoop
then_act a l = record l { acts = a ∷ l.acts }

unfoldable pub report_due : Bool → ℕ → Tick → Bool
report_due has_callback last t = has_callback && leb 1 ((t.progress_ns - last) / 1000000000)

-- `while (!stop)`, for the rounds that are met.
unfoldable pub main_loop : Config → Bool → ℕ → List Tick → ℕ → MainLoop
unfolding time_is_up report_due
main_loop config has_callback end_ns [] last = record { acts = []; left_by = none }
main_loop config has_callback end_ns (t ∷ ts) last =
    let reported = main_loop config has_callback end_ns ts t.after_ns in
    let quiet = main_loop config has_callback end_ns ts last in
    if t.stop_seen
    then record { acts = []; left_by = some false }
    else if time_is_up config end_ns t
    then record { acts = []; left_by = some true }
    else if report_due has_callback last t
    then then_act (report_at t.progress_ns) reported
    else then_act drain_only quiet

-- The result of the run: the final report, or only a message.
pub data RunResult (Double : Type 0) : Type 0 where
  invalid : String → RunResult Double
  finished : EngineReport Double → Bool → String → RunResult Double

unfoldable pub valid_config : Config → Bool
valid_config config = at_least 1 config.concurrency && at_least 1 config.threads

unfoldable pub conclude : {Double : Type 0} → EngineReport Double → RunResult Double
conclude r =
    if r.completed_requests == 0
    then finished r false "benchmark finished with zero completed requests"
    else finished r true ""

module _ (fl : Floats) (clock : ℕ → ℕ) where
  -- `Run`, from the counters and the collector that the joined threads leave behind.
  unfoldable pub run : Config → Work → Collector → ℕ → ReportClock → RunResult fl.Double
  unfolding valid_config conclude build_progress_report
  run config w c begin_ns t =
      if valid_config config
      then conclude (build_progress_report fl clock w c begin_ns t).1
      else invalid "invalid engine config"

-- A collector with the writers of `n` threads.
unfoldable pub with_writers : ℕ → Collector → Collector
unfolding create_writer
with_writers zero c = c
with_writers (suc n) c = (create_writer (with_writers n c)).0

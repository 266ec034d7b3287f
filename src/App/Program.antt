-- ===== src/App/Program.antt =====
-- src/app/main.cpp: `main`, with the watchdog; the texts of help and version of src/cli/args.cpp.
-- What is written to the two streams counts as shown. The signal handlers end the process and
-- touch nothing else.
use titan_bench.Base.{
  ℕ, ◌+◌, ◌-◌, max, Bool, true, false, List, [], ◌∷◌, ◌++◌, leb, ltb, if◌then◌else◌, ℤ, pos, negsuc,
  Bytes, codes,
}
use titan_bench.Stats.Floats.{Floats}
use titan_bench.Stats.Collector.{Collector}
use titan_bench.Cli.Options.{Config, default_config}
use titan_bench.Cli.Args.{Opt, Outcome, accepted, refused, read_command_line}
use titan_bench.Engine.Rate.{int_wrap}
use titan_bench.Engine.Worker.{Work}
use titan_bench.Engine.Run.{EngineReport, ReportClock, RunResult, invalid, finished, run}
use titan_bench.App.Report.{texts, Fixed, print_config, print_progress, print_final}

unfoldable pub build_version_message : Bytes
build_version_message = codes "titanbench v0.1.0"

unfoldable pub build_help_message : Bytes → Bytes
build_help_message program_name = texts (
    codes "Usage: "
    ∷ program_name
    ∷ codes " -c <concurrency> (-n <requests> | -t <seconds>) [options]\n\n"
    ∷ codes "Options:\n"
    ∷ codes "  -c, --concurrency <num>   Number of concurrent connections (required)\n"
    ∷ codes "  -n, --requests <num>      Total number of requests (mutually exclusive with -t)\n"
    ∷ codes
        "  -t, --time <seconds>      Benchmark duration in seconds (mutually exclusive with -n)\n"
    ∷ codes "  -T, --threads <num>       Worker threads (default: 1)\n"
    ∷ codes "  -p, --protocol <proto>    Protocol type: http/https/tcp/udp (default: http)\n"
    ∷ codes "  -h, --host <host>         Target host (required)\n"
    ∷ codes "  -P, --port <port>         Target port (required)\n"
    ∷ codes "      --path <path>         HTTP path (default: /)\n"
    ∷ codes "      --help                Show this help message\n"
    ∷ codes "      --version             Show version information\n"
    ∷ [])

-- `duration_seconds + 60`, which wraps here where the source overflows.
unfoldable pub sixty_more : ℤ → ℤ
unfolding int_wrap
sixty_more (pos n) = int_wrap (n + 60)
sixty_more (negsuc n) = if leb n 59 then pos (59 - n) else negsuc (n - 60)

-- The seconds that the watchdog sleeps.
unfoldable pub guard_seconds : Config → ℤ
unfolding sixty_more
guard_seconds config = if config.has_duration then sixty_more config.duration_seconds else pos 3600

-- What the process wrote to its two streams, whether it ended with success, and when.
pub record Ran : Type 0 where
  pub out : Bytes
  pub err : Bytes
  pub success : Bool
  pub end_ns : ℕ

-- What the engine and the watchdog do, timed from their start: the counters and the collector
-- that the threads leave, the reports handed to the callback before the final one, and when the
-- engine returns and the watchdog wakes up.
pub record Played (fl : Floats) : Type 0 where
  pub work : Work
  pub collector : Collector
  pub begin_ns : ℕ
  pub clock : ReportClock
  pub reports : List (EngineReport fl.Double)
  pub finished_ns : ℕ
  pub woke_ns : ℕ

module _ (fl : Floats) (fixed : Fixed fl) (clock : ℕ → ℕ) where
  -- Both ends of `main` join the watchdog first.
  unfoldable pub after_run : Config → Played fl → RunResult fl.Double → Ran
  unfolding print_config print_progress print_final
  after_run config p (invalid message) = record {
    out = print_config config ++ print_progress fl fixed p.reports;
    err = texts (codes "Engine error: " ∷ codes message ∷ codes "\n" ∷ []);
    success = false;
    end_ns = max p.woke_ns p.finished_ns;
  }
  after_run config p (finished r false message) = record {
    out = print_config config ++ print_progress fl fixed (p.reports ++ r ∷ []);
    err = texts (codes "Engine error: " ∷ codes message ∷ codes "\n" ∷ []);
    success = false;
    end_ns = max p.woke_ns p.finished_ns;
  }
  after_run config p (finished r true message) = record {
    out =
        print_config config
        ++ (print_progress fl fixed (p.reports ++ r ∷ []) ++ print_final fl fixed config true r);
    err = [];
    success = true;
    end_ns = max p.woke_ns p.finished_ns;
  }

  -- The watchdog ends the process when it wakes up before the engine has returned.
  unfoldable pub run_program : Config → Played fl → Ran
  unfolding after_run run print_config print_progress
  run_program config p =
      if ltb p.woke_ns p.finished_ns
      then record {
        out = print_config config ++ print_progress fl fixed p.reports;
        err = codes "\nTimeout guard triggered, forcing exit.\n";
        success = false;
        end_ns = p.woke_ns;
      }
      else after_run config p (run fl clock config p.work p.collector p.begin_ns p.clock)

  abbrev at_once : Bytes → Bytes → Bool → Ran
  at_once out err success = record { out = out; err = err; success = success; end_ns = 0 }

  unfoldable pub on_outcome : Bytes → Played fl → Outcome → Ran
  unfolding run_program build_help_message build_version_message
  on_outcome name p (refused config message) =
      at_once []
        (texts (codes "Error: " ∷ codes message ∷ codes "\n\n" ∷ build_help_message name ∷ []))
        false
  on_outcome name p (accepted config) =
      if config.show_help
      then at_once (build_help_message name) [] true
      else if config.show_version
      then at_once (build_version_message ++ codes "\n") [] true
      else run_program config p

  -- `main`, from the calls of `getopt_long`.
  unfoldable pub program : Bytes → List Opt → Bool → Played fl → Ran
  unfolding on_outcome read_command_line
  program name os positional p = on_outcome name p (read_command_line default_config os positional)

-- ===== src/App/Tests.antt =====
-- Runs of src/cli/report.cpp and src/app/main.cpp on small inputs, and the theorem on `main` at a
-- concrete input.
use titan_bench.Base.{
  ℕ, ◌+◌, ◌/◌, ◌≡◌, refl, true, false, List, [], ◌∷◌, ◌++◌, codes, to_string, print_int, Bytes, pos,
}
use titan_bench.Stats.Floats.{Floats}
use titan_bench.Stats.Collector.{fresh}
use titan_bench.Cli.Args.{Opt}
use titan_bench.Cli.Options.{Config, default_config}
use titan_bench.Engine.Worker.{fresh_work}
use titan_bench.App.Report.{Fixed, format_ns}
use titan_bench.App.Program.{Played, guard_seconds, program}
use titan_bench.App.Exits.{Ends, program-Ends}

-- Whole numbers in place of `double`, printed without digits behind the point.
abbrev whole : Floats
whole = record {
  Double = ℕ;
  of_u64 = λ n. n;
  to_u64 = λ n. n;
  times = λ p n. n;
  over = λ a b. a / b;
  billion = 1000000000;
  p50 = 50;
  p95 = 95;
  p99 = 99;
}

abbrev cut : Fixed whole
cut = λ digits n. to_string n

milliseconds : format_ns whole cut 2500000 ≡ codes "2 ms"
unfolding format_ns
milliseconds = refl

hour :
    guard_seconds (record default_config { has_duration = true; duration_seconds = pos 10 })
    ≡ pos 70
unfolding guard_seconds
hour = refl

abbrev given_options : List Opt
given_options =
    record { code = b'c'; arg = codes "2" }
    ∷ record { code = b'n'; arg = codes "1" }
    ∷ record { code = b'h'; arg = codes "a" }
    ∷ record { code = b'P'; arg = codes "80" }
    ∷ []

abbrev one_done : Played whole
one_done = record {
  work = record fresh_work { started = 1; completed = 1; succeeded = 1 };
  collector = fresh 8 16 0;
  begin_ns = 0;
  clock = record { report_ns = 90; now_ns = 91; later_ns = 92 };
  reports = [];
  finished_ns = 95;
  woke_ns = 3600000000000;
}

program-Ends_example :
    Ends whole cut
      (λ n. 5)
      one_done
      (program whole cut (λ n. 5) (codes "titanbench") given_options false one_done)
program-Ends_example =
    program-Ends whole cut (λ n. 5) (codes "titanbench") given_options false one_done

waits :
    (program whole cut (λ n. 5) (codes "titanbench") given_options false one_done).end_ns
    ≡ 3600000000000
unfolding program titan_bench.Cli.Options.parse_positive_int titan_bench.Base.skip_space
    titan_bench.Cli.Options.parse_positive_int64 titan_bench.Cli.Options.parse_port
waits = refl

-- ===== src/App/Exits.antt =====
-- src/app/main.cpp: how the process ends.
use titan_bench.Base.{
  ℕ, ◌≤◌, ◌<◌, ◌≡◌, ◌≢◌, refl, sym, ◌∙◌, max, Bool, true, false, ◌||◌, List, [], ◌∷◌, ◌++◌, arith,
  ltb, ltb→lt, ltb→le, le→leb, ==_iff, subst, ◌==◌, if_holds, Bytes,
}
use titan_bench.Stats.Floats.{Floats}
use titan_bench.Cli.Options.{Config}
use titan_bench.Cli.Args.{Opt, Outcome}
use titan_bench.Cli.Ready.{Ready, Verdict, help, ready, no, read_command_line-Verdict}
use titan_bench.Engine.Run.{EngineReport, build_progress_report, valid_config, conclude, run}
use titan_bench.App.Report.{Fixed, print_config, print_progress, print_final}
use titan_bench.App.Program.{Ran, Played, after_run, run_program, on_outcome, program}

not_zero : (n : ℕ) → (n == 0) ≡ false → n ≢ 0
not_zero n h e = ground arith

not_shown : (a b : Bool) → (a || b) ≡ true → a ≡ false → b ≡ false → ⊥
not_shown a b h k l = cc

module _ (fl : Floats) (fixed : Fixed fl) (clock : ℕ → ℕ) where
  -- The report of the run, as `Run` makes it.
  abbrev pub last_report : Played fl → EngineReport fl.Double
  last_report p = (build_progress_report fl clock p.work p.collector p.begin_ns p.clock).1

  -- The ways in which the process ends. The final report is printed, and the end is a success, only
  -- behind a run of a configuration that is ready, with a request completed, that was over before the watchdog
  -- woke up; and the process lasts until then.
  pub data Ends (p : Played fl) : Ran → Type 0 where
    told : (text : Bytes) → Ends p (record { out = text; err = []; success = true; end_ns = 0 })
    rejected :
        (text : Bytes) → Ends p (record { out = []; err = text; success = false; end_ns = 0 })
    cut_off :
        (c : Config) (out err : Bytes)
        → Ready c
        → p.woke_ns < p.finished_ns
        → Ends p (record { out = out; err = err; success = false; end_ns = p.woke_ns })
    without_requests :
        (c : Config) (out err : Bytes)
        → Ready c
        → p.work.completed ≡ 0
        → Ends p
            (record { out = out; err = err; success = false; end_ns = max p.woke_ns p.finished_ns })
    reported :
        (c : Config)
        → Ready c
        → p.work.completed ≢ 0
        → p.finished_ns ≤ p.woke_ns
        → Ends p (record {
          out =
              print_config c
              ++ (print_progress fl fixed (p.reports ++ last_report p ∷ [])
                  ++ print_final fl fixed c true (last_report p));
          err = [];
          success = true;
          end_ns = p.woke_ns;
        })

  conclude-Ends :
      (p : Played fl) (c : Config) (r : EngineReport fl.Double)
      → r ≡ last_report p
      → r.completed_requests ≡ p.work.completed
      → Ready c
      → p.finished_ns ≤ p.woke_ns
      → Ends p (after_run fl fixed clock c p (conclude r))
  unfolding after_run conclude
  conclude-Ends p c r same completed g late =
      if_holds (λ x. Ends p (after_run fl fixed clock c p x)) (r.completed_requests == 0) _ _
        (λ none_done.
          without_requests c _ _ g (sym completed ∙ (==_iff r.completed_requests 0).0 none_done))
        (λ some_done.
          let end : p.woke_ns ≡ max p.woke_ns p.finished_ns = omega arith in
          subst
            (λ t. Ends p (record {
              out =
                  print_config c
                  ++ (print_progress fl fixed (p.reports ++ r ∷ [])
                      ++ print_final fl fixed c true r);
              err = [];
              success = true;
              end_ns = t;
            }))
            end
            (subst
              (λ x. Ends p (record {
                out =
                    print_config c
                    ++ (print_progress fl fixed (p.reports ++ x ∷ [])
                        ++ print_final fl fixed c true x);
                err = [];
                success = true;
                end_ns = p.woke_ns;
              }))
              (sym same)
              (reported c g (λ z. not_zero r.completed_requests some_done (completed ∙ z)) late)))

  Ready-valid_config : (c : Config) → Ready c → valid_config c ≡ true
  unfolding valid_config
  Ready-valid_config c g = rw (
    g.concurrency.is_value,
    g.threads.is_value,
    le→leb 1 g.concurrency.value g.concurrency.low,
    le→leb 1 g.threads.value g.threads.low,
  )

  run_program-Ends :
      (p : Played fl) (c : Config) → Ready c → Ends p (run_program fl fixed clock c p)
  unfolding run_program run
  run_program-Ends p c g =
      if_holds (Ends p) (ltb p.woke_ns p.finished_ns) _ _
        (λ early. cut_off c _ _ g (ltb→lt p.woke_ns p.finished_ns early))
        (λ late.
          rw (Ready-valid_config c g)
            (conclude-Ends p c (last_report p) refl refl g (ltb→le p.woke_ns p.finished_ns late)))

  on_outcome-Ends :
      (name : Bytes) (p : Played fl) (o : Outcome)
      → Verdict o
      → Ends p (on_outcome fl fixed clock name p o)
  unfolding on_outcome
  on_outcome-Ends name p _ (no c m) = rejected _
  on_outcome-Ends name p _ (ready c g) =
      if_holds (Ends p) c.show_help _ _ (λ _. told _)
        (λ _. if_holds (Ends p) c.show_version _ _ (λ _. told _) (λ _. run_program-Ends p c g))
  on_outcome-Ends name p _ (help c shown) =
      if_holds (Ends p) c.show_help _ _ (λ _. told _)
        (λ unhelped.
          if_holds (Ends p) c.show_version _ _ (λ _. told _)
            (λ unversioned.
              absurd (not_shown c.show_help c.show_version shown unhelped unversioned)))

  -- For all options, in any order and number, and whatever the run leaves: the process ends at once
  -- with a text and success, or with an error text and failure; or it runs a configuration that is
  -- ready, and then it is cut off with failure when the watchdog wakes up before the engine has
  -- returned, ends with failure when no request was completed, and otherwise prints the
  -- configuration, the progress and the final report and ends with success, but no sooner than
  -- the watchdog has slept its full time.
  pub program-Ends :
      (name : Bytes) (os : List Opt) (positional : Bool) (p : Played fl)
      → Ends p (program fl fixed clock name os positional p)
  unfolding program
  program-Ends name os positional p =
      on_outcome-Ends name p _ (read_command_line-Verdict os positional)

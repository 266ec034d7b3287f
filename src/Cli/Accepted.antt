-- ===== src/Cli/Accepted.antt =====
-- src/cli/args.cpp: the numbers of a configuration through `ParseArgs`.
use Prim.Native.String.{String}
use titan_bench.Base.{
  ℕ, Bool, true, false, List, [], ◌∷◌, Option, none, some, ◌==◌, arith, if_holds, ℤ, int_max,
  int64_max, Bytes,
}
use titan_bench.Cli.Options.{Protocol, Config, parse_protocol}
use titan_bench.Cli.Args.{
  Opt, Step, next, stop, fail, with_value, with_protocol, option_step, Outcome, accepted, refused,
  after_step, parse_args,
}
use titan_bench.Cli.Numbers.{
  Between, SomeBetween, no_value, in_range, parse_positive_int-Between,
  parse_positive_int64-Between, parse_port-Between,
}

-- A mode that is set has its value.
pub data ModeValue (hi : ℕ) : Bool → ℤ → Type 0 where
  unset : (v : ℤ) → ModeValue hi false v
  given : (v : ℤ) → Between 1 hi v → ModeValue hi true v

-- The numbers of a configuration while it is read.
pub record Ranged (config : Config) : Type 0 where
  pub concurrency : Between 0 int_max config.concurrency
  pub threads : Between 1 int_max config.threads
  pub port : Between 0 65535 config.port
  pub requests : ModeValue int64_max config.has_requests config.requests
  pub duration : ModeValue int_max config.has_duration config.duration_seconds

data RangedStep : Step → Type 0 where
  next_ok : (c : Config) → Ranged c → RangedStep (next c)
  stop_ok : (c : Config) → Ranged c → RangedStep (stop c)
  fail_ok : (c : Config) (m : String) → RangedStep (fail c m)

abbrev widen : (hi : ℕ) (v : ℤ) → Between 1 hi v → Between 0 hi v
widen hi v b = record { value = b.value; is_value = b.is_value; low = omega arith; high = b.high }

with_value-RangedStep :
    (c : Config) (m : String) (set : ℤ → Config) (hi : ℕ) (o : Option ℤ)
    → SomeBetween 1 hi o
    → ((v : ℤ) → Between 1 hi v → Ranged (set v))
    → RangedStep (with_value c m set o)
unfolding with_value
with_value-RangedStep c m set hi none no_value ok = fail_ok c m
with_value-RangedStep c m set hi (some _) (in_range v b) ok = next_ok (set v) (ok v b)

with_protocol-RangedStep :
    (c : Config) (o : Option Protocol) → Ranged c → RangedStep (with_protocol c o)
unfolding with_protocol
with_protocol-RangedStep c none r = fail_ok c _
with_protocol-RangedStep c (some p) r = next_ok _ (record {
  concurrency = r.concurrency;
  threads = r.threads;
  port = r.port;
  requests = r.requests;
  duration = r.duration;
})

-- Texts and flags do not matter.
same_numbers :
    (c : Config)
    → Ranged c
    → (host path : Bytes) (help version : Bool)
    → Ranged (record c { host = host; path = path; show_help = help; show_version = version })
same_numbers c r host path help version = record {
  concurrency = r.concurrency;
  threads = r.threads;
  port = r.port;
  requests = r.requests;
  duration = r.duration;
}

option_step-RangedStep : (c : Config) (o : Opt) → Ranged c → RangedStep (option_step c o)
unfolding option_step
option_step-RangedStep c o r =
    if_holds RangedStep (o.code == b'c') _ _
      (λ _. with_value-RangedStep c _ _ int_max _ (parse_positive_int-Between o.arg) (λ v b.
        record {
          concurrency = widen int_max v b;
          threads = r.threads;
          port = r.port;
          requests = r.requests;
          duration = r.duration;
        }))
      (λ _.
        if_holds RangedStep (o.code == b'n') _ _
          (λ _. with_value-RangedStep c _ _ int64_max _ (parse_positive_int64-Between o.arg) (λ v b.
            record {
              concurrency = r.concurrency;
              threads = r.threads;
              port = r.port;
              requests = given v b;
              duration = r.duration;
            }))
          (λ _.
            if_holds RangedStep (o.code == b't') _ _
              (λ _. with_value-RangedStep c _ _ int_max _ (parse_positive_int-Between o.arg) (λ v b.
                record {
                  concurrency = r.concurrency;
                  threads = r.threads;
                  port = r.port;
                  requests = r.requests;
                  duration = given v b;
                }))
              (λ _.
                if_holds RangedStep (o.code == b'T') _ _
                  (λ _.
                    with_value-RangedStep c _ _ int_max _ (parse_positive_int-Between o.arg) (λ v b.
                      record {
                        concurrency = r.concurrency;
                        threads = b;
                        port = r.port;
                        requests = r.requests;
                        duration = r.duration;
                      }))
                  (λ _.
                    if_holds RangedStep (o.code == b'p') _ _
                      (λ _. with_protocol-RangedStep c (parse_protocol o.arg) r)
                      (λ _.
                        if_holds RangedStep (o.code == b'h') _ _
                          (λ _.
                            next_ok _ (same_numbers c r o.arg c.path c.show_help c.show_version))
                          (λ _.
                            if_holds RangedStep (o.code == b'P') _ _
                              (λ _.
                                with_value-RangedStep c _ _ 65535 _ (parse_port-Between o.arg)
                                  (λ v b. record {
                                    concurrency = r.concurrency;
                                    threads = r.threads;
                                    port = widen 65535 v b;
                                    requests = r.requests;
                                    duration = r.duration;
                                  }))
                              (λ _.
                                if_holds RangedStep (o.code == 1000) _ _
                                  (λ _.
                                    next_ok _
                                      (same_numbers c r c.host o.arg c.show_help c.show_version))
                                  (λ _.
                                    if_holds RangedStep (o.code == 1001) _ _
                                      (λ _.
                                        stop_ok _
                                          (same_numbers c r c.host c.path true c.show_version))
                                      (λ _.
                                        if_holds RangedStep (o.code == 1002) _ _
                                          (λ _.
                                            stop_ok _
                                              (same_numbers c r c.host c.path c.show_help true))
                                          (λ _.
                                            if_holds RangedStep (o.code == b'?') _ _
                                              (λ _. fail_ok c _) (λ _. fail_ok c _)))))))))))

pub data RangedOutcome : Outcome → Type 0 where
  accepted_ok : (c : Config) → Ranged c → RangedOutcome (accepted c)
  refused_ok : (c : Config) (m : String) → RangedOutcome (refused c m)

after_step-RangedOutcome :
    (rest : Config → Outcome) (s : Step)
    → RangedStep s
    → ((c : Config) → Ranged c → RangedOutcome (rest c))
    → RangedOutcome (after_step rest s)
unfolding after_step
after_step-RangedOutcome rest (next _) (next_ok c r) ok = ok c r
after_step-RangedOutcome rest (stop _) (stop_ok c r) ok = accepted_ok c r
after_step-RangedOutcome rest (fail _ _) (fail_ok c m) ok = refused_ok c m

-- Whatever options there are, a configuration that `ParseArgs` accepts has its numbers in range.
pub parse_args-RangedOutcome :
    (c : Config) (os : List Opt) (positional : Bool)
    → Ranged c
    → RangedOutcome (parse_args c os positional)
unfolding parse_args
parse_args-RangedOutcome c [] true r = refused_ok c _
parse_args-RangedOutcome c [] false r = accepted_ok c r
parse_args-RangedOutcome c (o ∷ os) positional r =
    after_step-RangedOutcome _ _ (option_step-RangedStep c o r)
      (λ c' r'. parse_args-RangedOutcome c' os positional r')

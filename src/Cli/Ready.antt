-- ===== src/Cli/Ready.antt =====
-- src/cli/args.cpp and src/app/main.cpp: a configuration that reaches the engine.
use Prim.Native.String.{String}
use titan_bench.Base.{
  ℕ, ◌≤◌, ◌≡◌, refl, subst, Bool, true, false, not, ◌||◌, List, [], ◌∷◌, ◌==◌, arith, inl, inr,
  if_holds, Bool-cases, ℤ, pos, at_least, int_max, int64_max, Bytes, is_empty,
}
use titan_bench.Cli.Options.{Config, default_config}
use titan_bench.Cli.Args.{
  Opt, Outcome, accepted, refused, set_path, uses_path, same_bool, validate_config, validated,
  read_command_line,
}
use titan_bench.Cli.Numbers.{Between}
use titan_bench.Cli.Accepted.{
  ModeValue, given, unset, Ranged, RangedOutcome, accepted_ok, refused_ok, parse_args-RangedOutcome,
}

-- Exactly one mode, with its value.
pub data OneMode : Config → Type 0 where
  by_requests : (c : Config) → c.has_duration ≡ false → Between 1 int64_max c.requests → OneMode c
  by_time : (c : Config) → c.has_requests ≡ false → Between 1 int_max c.duration_seconds → OneMode c

-- What the engine relies on.
pub record Ready (c : Config) : Type 0 where
  pub concurrency : Between 1 int_max c.concurrency
  pub threads : Between 1 int_max c.threads
  pub port : Between 1 65535 c.port
  pub host : is_empty c.host ≡ false
  pub mode : OneMode c
  pub path : set_path (uses_path c.protocol) c.path ≡ c.path

-- Help, version, or a run.
pub data Verdict : Outcome → Type 0 where
  help : (c : Config) → (c.show_help || c.show_version) ≡ true → Verdict (accepted c)
  ready : (c : Config) → Ready c → Verdict (accepted c)
  no : (c : Config) (m : String) → Verdict (refused c m)

set_path_idem : (http : Bool) (p : Bytes) → set_path http (set_path http p) ≡ set_path http p
unfolding set_path
set_path_idem true [] = refl
set_path_idem false [] = refl
set_path_idem false (c ∷ cs) = refl
set_path_idem true (c ∷ cs) = elim (Bool-cases (c == b'/')) [
  | inl slash ↦ rw (set_path, slash) (rw slash)
  | inr other ↦ rw other
]

modes :
    (c : Config) (n t : Bool)
    → c.has_requests ≡ n
    → c.has_duration ≡ t
    → same_bool n t ≡ false
    → ModeValue int64_max n c.requests
    → ModeValue int_max t c.duration_seconds
    → OneMode c
modes c true false e f h (given _ b) d = by_requests c f b
modes c false true e f h r (given _ b) = by_time c e b
modes c true true e f h r d = cc
modes c false false e f h r d = cc

low_value : (n : ℕ) → not (at_least 1 (pos n)) ≡ false → 1 ≤ n
low_value n h = ground arith

positive_part : (hi : ℕ) (v : ℤ) → Between 0 hi v → not (at_least 1 v) ≡ false → Between 1 hi v
positive_part hi v b h = record {
  value = b.value;
  is_value = b.is_value;
  low = low_value b.value (subst (λ x. not (at_least 1 x) ≡ false) b.is_value h);
  high = b.high;
}

validate_config-Verdict : (c : Config) → Ranged c → Verdict (validate_config c)
unfolding validate_config
validate_config-Verdict c r =
    if_holds Verdict (c.show_help || c.show_version) _ _ (λ h. help c h)
      (λ _.
        if_holds Verdict (not (at_least 1 c.concurrency)) _ _ (λ _. no c _)
          (λ some_workers.
            if_holds Verdict (is_empty c.host) _ _ (λ _. no c _)
              (λ host.
                if_holds Verdict (not (at_least 1 c.port)) _ _ (λ _. no c _)
                  (λ port.
                    if_holds Verdict (same_bool c.has_requests c.has_duration) _ _ (λ _. no c _)
                      (λ mode. ready _ (record {
                        concurrency = positive_part int_max _ r.concurrency some_workers;
                        threads = r.threads;
                        port = positive_part 65535 _ r.port port;
                        host = host;
                        mode = modes _ _ _ refl refl mode r.requests r.duration;
                        path = set_path_idem (uses_path c.protocol) c.path;
                      }))))))

validated-Verdict : (o : Outcome) → RangedOutcome o → Verdict (validated o)
unfolding validated
validated-Verdict (accepted _) (accepted_ok c r) =
    if_holds Verdict (c.show_help || c.show_version) _ _ (λ h. help c h)
      (λ _. validate_config-Verdict c r)
validated-Verdict (refused _ _) (refused_ok c m) = no c m

pub read_command_line-Verdict :
    (os : List Opt) (positional : Bool) → Verdict (read_command_line default_config os positional)
unfolding read_command_line
read_command_line-Verdict os positional = validated-Verdict _ (
    parse_args-RangedOutcome default_config os positional (record {
      concurrency = record { value = 0; is_value = refl; low = omega arith; high = omega arith };
      threads = record { value = 1; is_value = refl; low = omega arith; high = omega arith };
      port = record { value = 0; is_value = refl; low = omega arith; high = omega arith };
      requests = unset _;
      duration = unset _;
    }))

-- ===== src/Cli/Args.antt =====
-- src/cli/args.cpp: `ParseArgs` and `ValidateConfig`. `getopt_long` is the C library's: the model
-- takes what it returns, the option's code with its argument for each call until it returns -1, and
-- whether arguments are left behind the options (`optind < argc`). The pointers are not null.
use Prim.Native.String.{String}
use titan_bench.Base.{
  ℕ, Bool, true, false, ◌&&◌, ◌||◌, not, List, [], ◌∷◌, Option, none, some, ◌==◌, if◌then◌else◌, ℤ,
  at_least, Bytes, is_empty,
}
use titan_bench.Cli.Options.{
  Protocol, k_http, k_https, k_tcp, k_udp, Config, parse_positive_int, parse_positive_int64,
  parse_port, parse_protocol,
}

-- A call of `getopt_long` and its `optarg`.
pub record Opt : Type 0 where
  pub code : ℕ
  pub arg : Bytes

-- What a case of the switch does: go on, `return true`, or `return false` with a message.
pub data Step : Type 0 where
  next : Config → Step
  stop : Config → Step
  fail : Config → String → Step

unfoldable pub with_value : Config → String → (ℤ → Config) → Option ℤ → Step
with_value config message set none = fail config message
with_value config message set (some v) = next (set v)

unfoldable pub with_protocol : Config → Option Protocol → Step
with_protocol config none = fail config "invalid value for --protocol, expected http/https/tcp/udp"
with_protocol config (some p) = next (record config { protocol = p })

unfoldable pub option_step : Config → Opt → Step
unfolding with_value with_protocol
option_step config o =
    if o.code == b'c'
    then with_value config "invalid value for --concurrency"
        (λ v. record config { concurrency = v }) (parse_positive_int o.arg)
    else if o.code == b'n'
    then with_value config "invalid value for --requests"
        (λ v. record config { requests = v; has_requests = true }) (parse_positive_int64 o.arg)
    else if o.code == b't'
    then with_value config "invalid value for --time"
        (λ v. record config { duration_seconds = v; has_duration = true })
        (parse_positive_int o.arg)
    else if o.code == b'T'
    then with_value config "invalid value for --threads" (λ v. record config { threads = v })
        (parse_positive_int o.arg)
    else if o.code == b'p'
    then with_protocol config (parse_protocol o.arg)
    else if o.code == b'h'
    then next (record config { host = o.arg })
    else if o.code == b'P'
    then with_value config "invalid value for --port" (λ v. record config { port = v })
        (parse_port o.arg)
    else if o.code == 1000
    then next (record config { path = o.arg })
    else if o.code == 1001
    then stop (record config { show_help = true })
    else if o.code == 1002
    then stop (record config { show_version = true })
    else if o.code == b'?'
    then fail config "unknown or malformed option"
    else fail config "unexpected argument parsing failure"

-- The configuration as it is left, with the message where false is returned.
pub data Outcome : Type 0 where
  accepted : Config → Outcome
  refused : Config → String → Outcome

abbrev pub options_end : Bool → Config → Outcome
options_end true config = refused config "unexpected positional arguments"
options_end false config = accepted config

unfoldable pub after_step : (Config → Outcome) → Step → Outcome
after_step rest (next config) = rest config
after_step rest (stop config) = accepted config
after_step rest (fail config message) = refused config message

unfoldable pub parse_args : Config → List Opt → Bool → Outcome
unfolding option_step after_step
parse_args config [] positional = options_end positional config
parse_args config (o ∷ os) positional =
    after_step (λ c. parse_args c os positional) (option_step config o)

abbrev pub uses_path : Protocol → Bool
uses_path k_http = true
uses_path k_https = true
uses_path k_tcp = false
uses_path k_udp = false

-- A path that is not empty, and starts with a slash where the protocol has paths.
unfoldable pub set_path : Bool → Bytes → Bytes
set_path http [] = b'/' ∷ []
set_path http (c ∷ cs) = if http && not (c == b'/') then b'/' ∷ c ∷ cs else c ∷ cs

abbrev pub same_bool : Bool → Bool → Bool
same_bool true b = b
same_bool false b = not b

unfoldable pub validate_config : Config → Outcome
unfolding set_path
validate_config config =
    if config.show_help || config.show_version
    then accepted config
    else if not (at_least 1 config.concurrency)
    then refused config "missing required option: --concurrency"
    else if is_empty config.host
    then refused config "missing required option: --host"
    else if not (at_least 1 config.port)
    then refused config "missing required option: --port"
    else if same_bool config.has_requests config.has_duration
    then refused config "either --requests or --time must be set, but not both"
    else accepted (record config { path = set_path (uses_path config.protocol) config.path })

unfoldable pub validated : Outcome → Outcome
unfolding validate_config
validated (accepted config) =
    if config.show_help || config.show_version then accepted config else validate_config config
validated (refused config message) = refused config message

-- src/app/main.cpp: `main` reads the options into `Config {}`, shows help or version, and validates.
unfoldable pub read_command_line : Config → List Opt → Bool → Outcome
unfolding validated parse_args
read_command_line config os positional = validated (parse_args config os positional)

-- ===== src/Cli/Tests.antt =====
-- Runs of src/cli/args.cpp on small command lines, and its theorems at concrete inputs.
use titan_bench.Base.{
  ◌+◌, ◌≡◌, refl, List, [], ◌∷◌, true, false, ◌&&◌, some, none, map, leb, if◌then◌else◌, arith,
  int_max, pos, negsuc, codes, same_text, skip_space, is_space, is_digit, read_digits, read_number,
  decimal,
}
use mathlib.Core.Logic.{◌↔◌}
use titan_bench.Cli.Options.{
  k_https, default_config, stoll, after_space, negative, positive, int_in, int64_in, port_in,
  parse_positive_int, parse_positive_int64, parse_port, parse_protocol, protocol_to_string,
}
use titan_bench.Cli.Args.{
  Opt, accepted, option_step, with_value, with_protocol, after_step, parse_args, set_path,
  validate_config, validated, read_command_line,
}
use titan_bench.Cli.Protocols.{parse_protocol-protocol_to_string}
use titan_bench.Cli.Numbers.{parse_positive_int-decimal}

abbrev line : List Opt
line =
    record { code = b'c'; arg = codes "10" }
    ∷ record { code = b'n'; arg = codes " +500" }
    ∷ record { code = b'p'; arg = codes "https" }
    ∷ record { code = b'h'; arg = codes "example.org" }
    ∷ record { code = b'P'; arg = codes "443" }
    ∷ record { code = 1000; arg = codes "get" }
    ∷ []

line_run :
    read_command_line default_config line false
    ≡ accepted (record {
      concurrency = pos 10;
      requests = pos 500;
      duration_seconds = pos 0;
      threads = pos 1;
      protocol = k_https;
      host = codes "example.org";
      port = pos 443;
      path = codes "/get";
      has_requests = true;
      has_duration = false;
      show_help = false;
      show_version = false;
    })
unfolding read_command_line validated parse_args option_step with_value with_protocol after_step
    validate_config set_path parse_positive_int parse_positive_int64 parse_port parse_protocol stoll
    after_space negative positive int_in int64_in port_in same_text skip_space is_space is_digit
    read_digits read_number
line_run = refl

too_large_run : parse_positive_int (codes "2147483648") ≡ none
unfolding parse_positive_int stoll after_space positive int_in skip_space is_space is_digit
    read_digits read_number
too_large_run = refl

negative_run : stoll (codes " -12x") ≡ some (negsuc 11, codes "x")
unfolding stoll after_space negative positive skip_space is_space is_digit read_digits read_number
negative_run = refl

parse_protocol-protocol_to_string_example :
    (parse_protocol (codes "https") ≡ some k_https) ↔ (codes "https" ≡ protocol_to_string k_https)
parse_protocol-protocol_to_string_example =
    parse_protocol-protocol_to_string (codes "https") k_https

parse_positive_int-decimal_example : parse_positive_int (map (λ x. b'0' + x) (8 ∷ 0 ∷ [])) ≡ (
    if leb 1 (decimal 0 (8 ∷ 0 ∷ [])) && leb (decimal 0 (8 ∷ 0 ∷ [])) int_max
    then some (pos (decimal 0 (8 ∷ 0 ∷ [])))
    else none)
parse_positive_int-decimal_example =
    parse_positive_int-decimal 8 (0 ∷ []) (omega arith, (omega arith, tt))

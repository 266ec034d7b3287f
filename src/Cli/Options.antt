-- ===== src/Cli/Options.antt =====
-- src/core/config.h, and the readers of single options of src/cli/args.cpp.
use titan_bench.Base.{
  ℕ, ◌+◌, Bool, false, ◌&&◌, [], ◌∷◌, Option, none, some, ◌==◌, if◌then◌else◌, ◌>>=◌, ℤ, pos,
  neg_of, at_least, at_most, int_max, int64_max, Bytes, codes, is_empty, same_text, skip_space,
  read_number,
}

pub data Protocol : Type 0 where
  k_http k_https k_tcp k_udp : Protocol

pub record Config : Type 0 where
  pub concurrency : ℤ
  pub requests : ℤ
  pub duration_seconds : ℤ
  pub threads : ℤ
  pub protocol : Protocol
  pub host : Bytes
  pub port : ℤ
  pub path : Bytes
  pub has_requests : Bool
  pub has_duration : Bool
  pub show_help : Bool
  pub show_version : Bool

-- `Config {}`.
abbrev pub default_config : Config
default_config = record {
  concurrency = pos 0;
  requests = pos 0;
  duration_seconds = pos 0;
  threads = pos 1;
  protocol = k_http;
  host = [];
  port = pos 0;
  path = b'/' ∷ [];
  has_requests = false;
  has_duration = false;
  show_help = false;
  show_version = false;
}

-- `std::stoll` in base 10: the value, and the text behind it; `none` where it throws.
unfoldable pub negative : ℕ × Bytes → Option (ℤ × Bytes)
negative (n, rest) = some (neg_of n, rest)

unfoldable pub positive : ℕ × Bytes → Option (ℤ × Bytes)
positive (n, rest) = some (pos n, rest)

unfoldable pub after_space : Bytes → Option (ℤ × Bytes)
unfolding negative positive read_number
after_space [] = none
after_space (c ∷ cs) =
    if c == b'-'
    then (do n ← read_number (int64_max + 1) cs; negative n)
    else if c == b'+'
    then (do n ← read_number int64_max cs; positive n)
    else (do n ← read_number int64_max (c ∷ cs); positive n)

unfoldable pub stoll : Bytes → Option (ℤ × Bytes)
unfolding after_space
stoll s = after_space (skip_space s)

unfoldable pub int_in : ℤ × Bytes → Option ℤ
int_in (v, rest) = if is_empty rest && (at_least 1 v && at_most int_max v) then some v else none

unfoldable pub int64_in : ℤ × Bytes → Option ℤ
int64_in (v, rest) = if is_empty rest && at_least 1 v then some v else none

-- `none` where the source returns false; it writes the value only where it returns true.
unfoldable pub parse_positive_int : Bytes → Option ℤ
unfolding stoll int_in
parse_positive_int input = do p ← stoll input; int_in p

unfoldable pub parse_positive_int64 : Bytes → Option ℤ
unfolding stoll int64_in
parse_positive_int64 input = do p ← stoll input; int64_in p

unfoldable pub port_in : ℤ → Option ℤ
port_in v = if at_most 65535 v then some v else none

unfoldable pub parse_port : Bytes → Option ℤ
unfolding port_in
parse_port input = do v ← parse_positive_int input; port_in v

unfoldable pub parse_protocol : Bytes → Option Protocol
parse_protocol text =
    if same_text text (codes "http")
    then some k_http
    else if same_text text (codes "https")
    then some k_https
    else if same_text text (codes "tcp")
    then some k_tcp
    else if same_text text (codes "udp")
    then some k_udp
    else none

unfoldable pub protocol_to_string : Protocol → Bytes
protocol_to_string k_http = codes "http"
protocol_to_string k_https = codes "https"
protocol_to_string k_tcp = codes "tcp"
protocol_to_string k_udp = codes "udp"

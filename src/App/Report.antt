-- ===== src/App/Report.antt =====
-- src/cli/report.h, src/cli/report.cpp: `CliReportPrinter`; `PrintConfig` of src/app/main.cpp. The
-- stream is the bytes written to it. How a `double` is printed with a fixed number of digits is an
-- argument; the literals of the source are whole numbers and convert exactly.
use Prim.Native.String.{String}
use titan_bench.Base.{
  ℕ, Bool, true, false, List, [], ◌∷◌, ◌++◌, leb, ◌==◌, if◌then◌else◌, get_or, Bytes, codes,
  to_string, print_int,
}
use titan_bench.Stats.Sample.{
  ErrorClass, class_index, k_connect_failed, k_timeout, k_http4xx, k_http5xx, k_network_io,
  k_tls_handshake, k_parse_error, k_other,
}
use titan_bench.Stats.Floats.{Floats}
use titan_bench.Stats.Snapshot.{StatsSnapshot}
use titan_bench.Cli.Options.{Config, Protocol, k_http, k_https, k_tcp, k_udp, protocol_to_string}
use titan_bench.Engine.Run.{EngineReport}

-- A field with its label, and texts one after another.
abbrev pub field : String → Bytes → Bytes
field label value = codes label ++ (value ++ codes "\n")

abbrev pub texts : List Bytes → Bytes
texts [] = []
texts (t ∷ ts) = t ++ texts ts

abbrev pub has_path : Protocol → Bool
has_path k_http = true
has_path k_https = true
has_path k_tcp = false
has_path k_udp = false

-- What only one mode has, and the dash of the other.
abbrev pub or_dash : Bool → Bytes → Bytes
or_dash b text = if b then text else codes "-"

unfoldable pub print_config : Config → Bytes
unfolding print_int protocol_to_string
print_config config = texts (
    codes "titanbench config:\n"
    ∷ field "  concurrency: " (print_int config.concurrency)
    ∷ field "  requests: " (or_dash config.has_requests (print_int config.requests))
    ∷ field "  duration_seconds: " (or_dash config.has_duration (print_int config.duration_seconds))
    ∷ field "  threads: " (print_int config.threads)
    ∷ field "  protocol: " (protocol_to_string config.protocol)
    ∷ field "  host: " config.host
    ∷ field "  port: " (print_int config.port)
    ∷ field "  path: " config.path
    ∷ [])

-- `oss << std::fixed << std::setprecision(digits) << value`.
abbrev pub Fixed : Floats → Type 0
Fixed fl = ℕ → fl.Double → Bytes

module _ (fl : Floats) (fixed : Fixed fl) where
  scaled : ℕ → ℕ → fl.Double
  scaled n unit = fl.over (fl.of_u64 n) (fl.of_u64 unit)

  unfoldable pub format_ns : ℕ → Bytes
  unfolding scaled to_string
  format_ns ns =
      if leb 1000000000 ns
      then fixed 2 (scaled ns 1000000000) ++ codes " s"
      else if leb 1000000 ns
      then fixed 2 (scaled ns 1000000) ++ codes " ms"
      else if leb 1000 ns
      then fixed 2 (scaled ns 1000) ++ codes " us"
      else to_string ns ++ codes " ns"

  unfoldable pub format_rate : fl.Double → Bytes
  format_rate value = fixed 2 value

  unfoldable pub success_rate : EngineReport fl.Double → fl.Double
  success_rate r =
      if r.completed_requests == 0
      then fl.of_u64 0
      else fl.over (fl.times (fl.of_u64 r.succeeded_requests) (fl.of_u64 100))
          (fl.of_u64 r.completed_requests)

  unfoldable pub build_progress_line : EngineReport fl.Double → Bytes
  unfolding format_rate scaled to_string
  build_progress_line r = texts (
      codes "[running] elapsed="
      ∷ fixed 1 (scaled r.elapsed_ms 1000)
      ∷ codes "s qps="
      ∷ format_rate (fl.of_u64 r.stats.qps_current_second)
      ∷ codes " done="
      ∷ to_string r.completed_requests
      ∷ codes " ok="
      ∷ to_string r.succeeded_requests
      ∷ codes " fail="
      ∷ to_string r.failed_requests
      ∷ codes " throughput="
      ∷ format_rate r.stats.throughput_bytes_per_sec
      ∷ codes " B/s"
      ∷ [])

  target_part : Config → Bytes
  unfolding protocol_to_string print_int
  target_part config = texts (
      codes "==================== titanbench report ====================\n"
      ∷ codes "[target]\n"
      ∷ field "  protocol       : " (protocol_to_string config.protocol)
      ∷ field "  host           : " config.host
      ∷ field "  port           : " (print_int config.port)
      ∷ (if has_path config.protocol then field "  path           : " config.path else [])
      ∷ [])

  params_part : Config → Bytes
  unfolding print_int
  params_part config = texts (
      codes "\n[benchmark params]\n"
      ∷ field "  concurrency    : " (print_int config.concurrency)
      ∷ field "  threads        : " (print_int config.threads)
      ∷ field "  mode           : "
          (if config.has_requests then codes "-n total requests" else codes "-t duration")
      ∷ field "  requests       : " (or_dash config.has_requests (print_int config.requests))
      ∷ field "  duration       : "
          (or_dash config.has_duration (print_int config.duration_seconds ++ codes " s"))
      ∷ [])

  overall_part : EngineReport fl.Double → Bytes
  unfolding scaled to_string
  overall_part r = texts (
      codes "\n[overall]\n"
      ∷ field "  elapsed        : " (fixed 3 (scaled r.elapsed_ms 1000) ++ codes " s")
      ∷ field "  started        : " (to_string r.started_requests)
      ∷ field "  completed      : " (to_string r.completed_requests)
      ∷ field "  success        : " (to_string r.succeeded_requests)
      ∷ field "  failed         : " (to_string r.failed_requests)
      ∷ field "  retried        : " (to_string r.retried_requests)
      ∷ [])

  latency_part : StatsSnapshot fl.Double → Bytes
  unfolding format_ns
  latency_part s = texts (
      codes "\n[latency]\n"
      ∷ field "  avg            : " (format_ns s.avg_latency_ns)
      ∷ field "  min            : " (format_ns s.min_latency_ns)
      ∷ field "  max            : " (format_ns s.max_latency_ns)
      ∷ field "  p50            : " (format_ns s.p50_latency_ns)
      ∷ field "  p95            : " (format_ns s.p95_latency_ns)
      ∷ field "  p99            : " (format_ns s.p99_latency_ns)
      ∷ [])

  rates_part : EngineReport fl.Double → Bytes
  unfolding format_rate success_rate to_string
  rates_part r = texts (
      codes "\n[qps]\n"
      ∷ field "  avg qps        : " (format_rate r.stats.qps)
      ∷ field "  current qps    : " (to_string r.stats.qps_current_second)
      ∷ codes "\n[success ratio]\n"
      ∷ field "  success rate   : " (fixed 2 (success_rate r) ++ codes " %")
      ∷ [])

  count_of : ErrorClass → List ℕ → Bytes
  unfolding to_string
  count_of e counts = to_string (get_or counts (class_index e) 0)

  errors_part : List ℕ → Bytes
  unfolding count_of
  errors_part counts = texts (
      codes "\n[errors]\n"
      ∷ field "  connect failed : " (count_of k_connect_failed counts)
      ∷ field "  timeout        : " (count_of k_timeout counts)
      ∷ field "  http 4xx       : " (count_of k_http4xx counts)
      ∷ field "  http 5xx       : " (count_of k_http5xx counts)
      ∷ field "  network io     : " (count_of k_network_io counts)
      ∷ field "  tls handshake  : " (count_of k_tls_handshake counts)
      ∷ field "  parse error    : " (count_of k_parse_error counts)
      ∷ field "  other          : " (count_of k_other counts)
      ∷ [])

  network_part : StatsSnapshot fl.Double → Bytes
  unfolding format_rate to_string
  network_part s = texts (
      codes "\n[network]\n"
      ∷ field "  bytes sent     : " (to_string s.bytes_sent)
      ∷ field "  bytes recv     : " (to_string s.bytes_received)
      ∷ field "  throughput     : " (format_rate s.throughput_bytes_per_sec ++ codes " B/s")
      ∷ field "  dropped sample : " (to_string s.dropped_samples)
      ∷ codes "============================================================\n"
      ∷ [])

  unfoldable pub build_final_report : Config → EngineReport fl.Double → Bytes
  unfolding target_part params_part overall_part latency_part rates_part errors_part network_part
  build_final_report config r = texts (
      target_part config
      ∷ params_part config
      ∷ overall_part r
      ∷ latency_part r.stats
      ∷ rates_part r
      ∷ errors_part r.stats.error_counts
      ∷ network_part r.stats
      ∷ [])

  -- `PrintProgress` for reports one after another, and whether one has been printed.
  unfoldable pub print_progress : List (EngineReport fl.Double) → Bytes
  unfolding build_progress_line
  print_progress [] = []
  print_progress (r ∷ rs) = codes "\r" ++ (build_progress_line r ++ print_progress rs)

  unfoldable pub print_final : Config → Bool → EngineReport fl.Double → Bytes
  unfolding build_final_report
  print_final config printed r = (if printed then codes "\n" else []) ++ build_final_report config r

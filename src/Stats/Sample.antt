-- ===== src/Stats/Sample.antt =====
-- src/core/stats.h: error classes and request samples; `ErrorIndexFromSample` of stats.cpp.
use titan_bench.Base.{ℕ, ◌<◌, ◌≢◌, Bool, false, ◌&&◌, refl, arith, if◌then◌else◌}
use titan_bench.Base.{ℤ, pos, at_least, at_most}

-- The last one is the number of classes; no sample carries it.
pub data ErrorClass : Type 0 where
  k_none k_connect_failed k_timeout k_http4xx k_http5xx : ErrorClass
  k_network_io k_tls_handshake k_parse_error k_other k_count : ErrorClass

-- `static_cast<std::size_t>`.
abbrev pub class_index : ErrorClass → ℕ
class_index k_none = 0
class_index k_connect_failed = 1
class_index k_timeout = 2
class_index k_http4xx = 3
class_index k_http5xx = 4
class_index k_network_io = 5
class_index k_tls_handshake = 6
class_index k_parse_error = 7
class_index k_other = 8
class_index k_count = 9

pub record RequestSample : Type 0 where
  pub timestamp_ns : ℕ
  pub latency_ns : ℕ
  pub bytes_sent : ℕ
  pub bytes_received : ℕ
  pub http_status : ℤ
  pub success : Bool
  pub error : ErrorClass

abbrev pub default_sample : RequestSample
default_sample = record {
  timestamp_ns = 0;
  latency_ns = 0;
  bytes_sent = 0;
  bytes_received = 0;
  http_status = pos 0;
  success = false;
  error = k_none;
}

unfoldable pub error_index : RequestSample → ℕ
error_index s =
    if at_least 500 s.http_status && at_most 599 s.http_status
    then class_index k_http5xx
    else if at_least 400 s.http_status && at_most 499 s.http_status
    then class_index k_http4xx
    else class_index s.error

class_index-lt : (e : ErrorClass) → e ≢ k_count → class_index e < 9
class_index-lt k_count h = absurd (h refl)
class_index-lt _ h = omega arith

-- The index of every sample lies inside the array of nine counters, unless the sample carries
-- the class that only counts the classes.
pub error_index-lt : (s : RequestSample) → s.error ≢ k_count → error_index s < 9
unfolding error_index
error_index-lt s h = ground (arith, class_index-lt s.error h)

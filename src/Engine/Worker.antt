-- ===== src/Engine/Worker.antt =====
-- src/core/engine.cpp: `WorkerLoopEventDriven`. What the clock and the `NetWorker` answer are
-- arguments; another thread may set the stop flag, which the answers carry as `stop_seen`. The order in which the
-- map of sessions is walked is the order of the list. `WaitRateToken` only delays a request and has
-- a model of its own, and a payload is given by its size.
use titan_bench.Base.{
  ℕ, suc, ◌-◌, ◌*◌, ◌%◌, ◌^◌, Bool, true, false, ◌||◌, List, [], ◌∷◌, Option, none, some, ltb, ◌==◌,
  if◌then◌else◌, ℤ, pos, negsuc, u32, u64, add64, sub64,
}
use titan_bench.Stats.Sample.{
  RequestSample, ErrorClass, k_none, k_connect_failed, k_timeout, k_network_io,
}
use titan_bench.Cli.Options.{Protocol, k_http, k_https, k_tcp, k_udp, Config}
use titan_bench.Http.Parser.{Parser, reset}
use titan_bench.Net.Errors.{NetErrc, ErrorCode, net}
use titan_bench.Engine.Quota.{acquire_request_quota}

unfoldable pub to_error_class : ErrorCode → ErrorClass
to_error_class (net NetErrc.k_timeout) = k_timeout
to_error_class (net NetErrc.k_resolve_failed) = k_connect_failed
to_error_class _ = k_network_io

-- `static_cast<std::uint64_t>` of the 64-bit number of requests.
abbrev pub request_limit : ℤ → ℕ
request_limit (pos n) = n
request_limit (negsuc n) = u64 - suc n

abbrev pub max_retry_per_session : ℕ
max_retry_per_session = 3

-- In milliseconds, for the retry that is counted as the `retries`-th.
unfoldable pub retry_backoff_ms : ℕ → ℕ
retry_backoff_ms retries = 50 * 2 ^ (retries - 1)

pub record Session : Type 0 where
  pub conn_id : ℕ
  pub parser : Parser
  pub in_flight : Bool
  pub retries : ℕ
  pub request_begin_ns : ℕ
  pub retry_at : ℕ

-- `Session {}`.
abbrev pub new_session : ℕ → Session
new_session now = record {
  conn_id = 0;
  parser = reset;
  in_flight = false;
  retries = 0;
  request_begin_ns = 0;
  retry_at = now;
}

-- The counters of `SharedState`, its stop flag, and the samples recorded, the last one first.
pub record Work : Type 0 where
  pub started : ℕ
  pub completed : ℕ
  pub succeeded : ℕ
  pub failed : ℕ
  pub retried : ℕ
  pub bytes_sent : ℕ
  pub bytes_received : ℕ
  pub stop : Bool
  pub samples : List RequestSample

-- The counters of `SharedState` at the start.
abbrev pub fresh_work : Work
fresh_work = record {
  started = 0;
  completed = 0;
  succeeded = 0;
  failed = 0;
  retried = 0;
  bytes_sent = 0;
  bytes_received = 0;
  stop = false;
  samples = [];
}

-- A request is over: the two counters and the sample.
unfoldable pub succeed : RequestSample → Work → Work
succeed x w = record w {
  succeeded = add64 w.succeeded 1;
  completed = add64 w.completed 1;
  samples = x ∷ w.samples;
}

unfoldable pub fail : RequestSample → Work → Work
fail x w = record w {
  failed = add64 w.failed 1;
  completed = add64 w.completed 1;
  samples = x ∷ w.samples;
}

pub record SendAnswer : Type 0 where
  pub begin_ns : ℕ
  pub end_ns : ℕ
  pub error : Option ErrorCode

unfoldable pub sent_over : Protocol → ℕ → SendAnswer → Session → Work → Session × Work
unfolding succeed
sent_over protocol size a s w =
    let done : Session × Work = (
      s,
      succeed
          (record {
            timestamp_ns = a.end_ns;
            latency_ns = sub64 a.end_ns a.begin_ns;
            bytes_sent = size % u32;
            bytes_received = 0;
            http_status = pos 0;
            success = true;
            error = k_none;
          })
          w,
    ) in
    let waiting : Session × Work =
      (record s { in_flight = true; request_begin_ns = a.begin_ns }, w) in
    elim protocol [ k_tcp ↦ done | k_udp ↦ done | k_http ↦ waiting | k_https ↦ waiting ]

unfoldable pub after_send :
    Protocol → ℕ → SendAnswer → Session → Option ErrorCode → Work → Session × Work
unfolding fail sent_over to_error_class
after_send protocol size a s (some e) w = (
  s,
  fail
      (record {
        timestamp_ns = a.begin_ns;
        latency_ns = 0;
        bytes_sent = 0;
        bytes_received = 0;
        http_status = pos 0;
        success = false;
        error = to_error_class e;
      })
      w,
)
after_send protocol size a s none w =
    sent_over protocol size a s (record w { bytes_sent = add64 w.bytes_sent size })

unfoldable pub with_quota : Config → ℕ → SendAnswer → Session → Bool × ℕ → Work → Session × Work
unfolding after_send
with_quota config size a s (false, started) w = (s, w)
with_quota config size a s (true, started) w =
    after_send config.protocol size a s a.error (record w { started = started })

-- One session in the walk over the sessions.
unfoldable pub send_turn : Config → ℕ → ℕ → SendAnswer → Session → Work → Session × Work
unfolding with_quota acquire_request_quota
send_turn config size now a s w =
    if s.conn_id == 0 || (s.in_flight || ltb now s.retry_at)
    then (s, w)
    else with_quota config size a s
        (acquire_request_quota config.has_requests (request_limit config.requests) w.started) w

abbrev pub Sessions : Type 0
Sessions = List (ℕ × Session)

unfoldable pub send_round : Config → ℕ → ℕ → (ℕ → SendAnswer) → Sessions → Work → Sessions × Work
unfolding send_turn
send_round config size now answers [] w = ([], w)
send_round config size now answers ((id, s) ∷ rest) w =
    let (s', w') = send_turn config size now (answers id) s w in
    let (rest', w'') = send_round config size now answers rest w' in ((id, s') ∷ rest', w'')

abbrev pub find_session : ℕ → Sessions → Option Session
find_session id [] = none
find_session id ((k, s) ∷ rest) = if k == id then some s else find_session id rest

abbrev pub erase_session : ℕ → Sessions → Sessions
erase_session id [] = []
erase_session id ((k, s) ∷ rest) =
    let rest' = erase_session id rest in if k == id then rest' else (k, s) ∷ rest'

-- `sessions[id] = s`.
abbrev pub put_session : ℕ → Session → Sessions → Sessions
put_session id s [] = (id, s) ∷ []
put_session id s ((k, t) ∷ rest) =
    let rest' = put_session id s rest in if k == id then (id, s) ∷ rest else (k, t) ∷ rest'

-- `create_connection`: the sessions, and whether it succeeded.
unfoldable pub create_connection : Option ℕ → Session → Sessions → Sessions × Bool
create_connection none s sessions = (sessions, false)
create_connection (some id) s sessions =
    (put_session id (record s { conn_id = id; in_flight = false; parser = reset }) sessions, true)

-- The connections before the loop; a failure stops the run.
unfoldable pub create_all : ℕ → List (Option ℕ) → Sessions → Work → Sessions × Work
unfolding create_connection
create_all now [] sessions w = (sessions, w)
create_all now (none ∷ answers) sessions w = (sessions, record w { stop = true })
create_all now (some id ∷ answers) sessions w =
    create_all now answers (create_connection (some id) (new_session now) sessions).0 w

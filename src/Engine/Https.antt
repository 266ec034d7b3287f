-- ===== src/Engine/Https.antt =====
-- src/core/engine.cpp: `WorkerLoopHttps`, its slots and their loop. What the clock and the calls of
-- `SslClient` meet are arguments; other threads may set the stop flag, which a round carries as
-- `stop_seen`. The sleeps and `WaitRateToken` delay a slot and change nothing else.
use titan_bench.Base.{
  ℕ, suc, ◌+◌, ◌-◌, ◌%◌, ◌^◌, Bool, true, false, ◌||◌, List, [], ◌∷◌, Option, none, some, ltb,
  get_elem?, set, if◌then◌else◌, ℤ, pos, negsuc, at_least, at_most, u32, add64, Bytes,
}
use titan_bench.Stats.Sample.{
  RequestSample, ErrorClass, k_none, k_connect_failed, k_parse_error, k_http5xx, k_other,
}
use titan_bench.Cli.Options.{Config}
use titan_bench.Http.Message.{Request, Response, no_response, ResultStatus, k_ok, k_parse_error}
use titan_bench.Tls.Wait.{Failure, Return, returns, going_on}
use titan_bench.Tls.Client.{
  SslOptions, Client, new_client, close, InitAnswer, init, ConnectAnswer, connect,
}
use titan_bench.Tls.Get.{Result, Got, GetAnswer, perform_http_get}
use titan_bench.Engine.Quota.{acquire_request_quota}
use titan_bench.Engine.Worker.{request_limit, max_retry_per_session, Work, succeed, fail}

-- `static_cast<std::uint16_t>`.
unfoldable pub to_uint16 : ℤ → ℕ
to_uint16 (pos n) = n % 2 ^ 16
to_uint16 (negsuc n) = 2 ^ 16 - suc (n % 2 ^ 16)

abbrev pub connect_timeout_ms : ℤ
connect_timeout_ms = pos 3000

unfoldable pub slot_options : Config → SslOptions
unfolding to_uint16
slot_options config = record {
  endpoint = record { host = config.host; port = to_uint16 config.port };
  verify_peer = false;
  connect_timeout_ms = connect_timeout_ms;
  handshake_timeout_ms = connect_timeout_ms;
  keep_alive = true;
}

unfoldable pub slot_request : Config → Request
slot_request config = record {
  host = config.host;
  path = config.path;
  headers = [];
  keep_alive = true;
}

-- A slot is in its loop, has returned, or is inside a call that has not come back.
pub data Phase : Type 0 where
  looping returned inside : Phase

-- The variables of one slot that outlive a round.
pub record Slot : Type 0 where
  pub client : Client
  pub retry : ℕ
  pub phase : Phase

-- What one round meets: the stop flag that is read, the calls of the client, and the clock when
-- the sample is taken.
pub record SlotRound : Type 0 where
  pub stop_seen : Bool
  pub connect : ConnectAnswer
  pub get : GetAnswer
  pub now_ns : ℕ

-- A slot returns, and the destructor of its client closes what that holds.
unfoldable pub leave : Slot → Slot
unfolding close
leave s = record s { client = close s.client; phase = returned }

-- Before the loop: without a TLS context the whole run stops.
unfoldable pub started_slot : Client × Option Failure → Work → Slot × Work
unfolding leave
started_slot (c, none) w = (record { client = c; retry = 0; phase = looping }, w)
started_slot (c, some f) w =
    (leave (record { client = c; retry = 0; phase = looping }), record w { stop = true })

unfoldable pub slot_start : InitAnswer → Work → Slot × Work
unfolding init started_slot
slot_start a w = started_slot (init a new_client) w

-- No connection: one more retry, or the end of the run once they are used up.
unfoldable pub unconnected : SlotRound → Slot → Work → Slot × Work
unfolding fail leave
unconnected a s w =
    if ltb s.retry max_retry_per_session
    then (record s { retry = s.retry + 1 }, record w { retried = add64 w.retried 1 })
    else (
      leave s,
      record (fail
          (record {
            timestamp_ns = a.now_ns;
            latency_ns = 0;
            bytes_sent = 0;
            bytes_received = 0;
            http_status = pos 0;
            success = false;
            error = k_connect_failed;
          })
          w) { stop = true },
    )

-- `resp`, which a transaction that fails leaves as it was.
abbrev pub response_left : Option (Response × Bytes) → Response
response_left none = no_response
response_left (some (r, body)) = r

unfoldable pub is_ok : ResultStatus → Response → Bool
is_ok k_ok r = at_most 399 r.status_code
is_ok _ r = false

unfoldable pub failure_class : ResultStatus → Response → ErrorClass
failure_class k_parse_error r = k_parse_error
failure_class _ r = if at_least 500 r.status_code then k_http5xx else k_other

unfoldable pub get_sample : SlotRound → Result → Response → RequestSample
unfolding is_ok failure_class
get_sample a result r = record {
  timestamp_ns = a.now_ns;
  latency_ns = result.latency_ns;
  bytes_sent = result.bytes_sent % u32;
  bytes_received = result.bytes_received % u32;
  http_status = r.status_code;
  success = is_ok result.status r;
  error = if is_ok result.status r then k_none else failure_class result.status r;
}

-- The retry behind a request that failed; when none is left, the client is kept as it is.
unfoldable pub after_failure : Slot → Work → Slot × Work
unfolding close
after_failure s w =
    if ltb s.retry max_retry_per_session
    then (
      record s { retry = s.retry + 1; client = close s.client },
      record w { retried = add64 w.retried 1 },
    )
    else (s, w)

unfoldable pub finish : SlotRound → Slot → Work → Result → Response → Slot × Work
unfolding get_sample is_ok succeed fail after_failure
finish a s w result r =
    let counted = record w {
      bytes_sent = add64 w.bytes_sent result.bytes_sent;
      bytes_received = add64 w.bytes_received result.bytes_received;
    } in
    if is_ok result.status r
    then (record s { retry = 0 }, succeed (get_sample a result r) counted)
    else after_failure s (fail (get_sample a result r) counted)

unfoldable pub after_get : SlotRound → Slot → Work → Return Got → Slot × Work
unfolding finish
after_get a s w going_on = (record s { phase = inside }, w)
after_get a s w (returns g) =
    finish a (record s { client = g.client }) w g.result (response_left g.response)

unfoldable pub request_turn : Config → SlotRound → Slot → Work → Bool × ℕ → Slot × Work
unfolding after_get slot_request perform_http_get leave
request_turn config a s w (false, started) = (leave s, w)
request_turn config a s w (true, started) =
    after_get a s (record w { started = started })
      (perform_http_get s.client (slot_request config) a.get)

-- A connected slot sends a request when the quota grants one.
unfoldable pub connected_turn : Config → SlotRound → Slot → Work → Slot × Work
unfolding request_turn acquire_request_quota
connected_turn config a s w =
    request_turn config a s w
      (acquire_request_quota config.has_requests (request_limit config.requests) w.started)

unfoldable pub after_connect :
    Config → SlotRound → Slot → Work → Client × Return (Option Failure) → Slot × Work
unfolding connected_turn unconnected
after_connect config a s w (c, going_on) = (record s { client = c; phase = inside }, w)
after_connect config a s w (c, returns (some f)) = unconnected a (record s { client = c }) w
after_connect config a s w (c, returns none) = connected_turn config a (record s { client = c }) w

-- The test of the loop and one round of it.
unfoldable pub slot_round : Config → SlotRound → Slot → Work → Slot × Work
unfolding after_connect connected_turn slot_options connect leave
slot_round config a s w =
    if w.stop || a.stop_seen
    then (leave s, w)
    else if s.client.connected
    then connected_turn config a s w
    else after_connect config a s w (connect (slot_options config) a.connect s.client)

unfoldable pub slot_turn : Config → SlotRound → Phase → Slot → Work → Slot × Work
unfolding slot_round
slot_turn config a looping s w = slot_round config a s w
slot_turn config a returned s w = (s, w)
slot_turn config a inside s w = (s, w)

-- The slots of all workers, started one by one.
unfoldable pub start_slots : List InitAnswer → Work → List Slot × Work
unfolding slot_start
start_slots [] w = ([], w)
start_slots (a ∷ as') w =
    let (s, w') = slot_start a w in let (ss, w'') = start_slots as' w' in (s ∷ ss, w'')

unfoldable pub turn_of : Config → SlotRound → ℕ → Option Slot → List Slot × Work → List Slot × Work
unfolding slot_turn
turn_of config a i none (slots, w) = (slots, w)
turn_of config a i (some s) (slots, w) =
    let (s', w') = slot_turn config a s.phase s w in (set slots i s', w')

-- The slots take their rounds in any order.
unfoldable pub slot_turns : Config → List (ℕ × SlotRound) → List Slot × Work → List Slot × Work
unfolding turn_of
slot_turns config [] p = p
slot_turns config ((i, a) ∷ rest) p =
    slot_turns config rest (turn_of config a i (get_elem? p.0 i) p)

-- ===== src/Tls/Get.antt =====
-- src/net/ssl.cpp: `PerformHttpGet`; src/protocol/http.h, http.cpp: `Result` and
-- `TransactionTimer`. The two result pointers are never null in the program.
use titan_bench.Base.{
  ℕ, ◌+◌, ◌-◌, ◌*◌, Bool, true, false, not, ◌||◌, List, [], ◌∷◌, Option, none, some, length,
  if◌then◌else◌, codes, Bytes,
}
use titan_bench.Http.Message.{
  Request, Response, ResultStatus, k_ok, k_parse_error, k_network_error, k_incomplete,
  build_get_request,
}
use titan_bench.Http.Parser.{Parser, reset}
use titan_bench.Http.Feed.{feed, mark_eof}
use titan_bench.Tls.Wait.{Failure, error_text, Return, returns, going_on}
use titan_bench.Tls.Client.{Client, close}
use titan_bench.Tls.Transfer.{
  WriteAnswer, Moved, moved, move_failed, send, ReadAnswer, Received, received, read_failed, recv,
  has_object,
}

pub record Result : Type 0 where
  pub status : ResultStatus
  pub latency_ns : ℕ
  pub bytes_sent : ℕ
  pub bytes_received : ℕ
  pub error : Bytes

-- `Result {}`.
abbrev pub new_result : Result
new_result = record {
  status = k_incomplete;
  latency_ns = 0;
  bytes_sent = 0;
  bytes_received = 0;
  error = [];
}

-- `ElapsedNs` of a steady clock, which never goes back.
abbrev pub elapsed_ns : ℕ → ℕ → ℕ
elapsed_ns begin now = now - begin

abbrev pub buffer_size : ℕ
buffer_size = 64 * 1024

-- The answers of wolfSSL to the calls of `Send` and of each `Recv`, and the clock at the begin and
-- at the end.
pub record GetAnswer : Type 0 where
  pub begin_ns : ℕ
  pub end_ns : ℕ
  pub writes : List WriteAnswer
  pub reads : List (List ReadAnswer)

-- How the loop over the reads ends: left with a parser, or with an early return, and the number of
-- bytes received so far.
pub data ReadsEnd : Type 0 where
  left : Parser → ℕ → ReadsEnd
  io_failed : Failure → ℕ → ReadsEnd
  bad_reply : Parser → ℕ → ReadsEnd
  reading : ℕ → ReadsEnd

unfoldable pub fed : (Parser → ℕ → ReadsEnd) → ℕ → Parser × Bool → ReadsEnd
fed next n (p, true) = next p n
fed next n (p, false) = bad_reply p n

unfoldable pub on_recv : (Parser → ℕ → ReadsEnd) → Parser → ℕ → Return Received → ReadsEnd
unfolding fed
on_recv next p n going_on = reading n
on_recv next p n (returns (read_failed f)) = io_failed f n
on_recv next p n (returns (received [])) = left (mark_eof p) n
on_recv next p n (returns (received (b ∷ bs))) = fed next (n + length (b ∷ bs)) (feed p (b ∷ bs))

-- `while (!parser.Done())`, for the calls of `Recv` that are met.
unfoldable pub read_loop : Client → List (List ReadAnswer) → Parser → ℕ → ReadsEnd
unfolding on_recv
read_loop c [] p n = if p.response.message_complete then left p n else reading n
read_loop c (a ∷ rest) p n =
    let round = on_recv (λ q m. read_loop c rest q m) p n (recv c buffer_size a) in
    if p.response.message_complete then left p n else round

-- The result, the response and the body when they are handed out, and the client.
pub record Got : Type 0 where
  pub result : Result
  pub response : Option (Response × Bytes)
  pub client : Client

abbrev pub got_none : Client → Result → Got
got_none c r = record { result = r; response = none; client = c }

-- The connection is kept only if the request, the reply and the options all want it.
unfoldable pub got_reply : Client → Request → Result → Parser → Got
unfolding close
got_reply c req r p = record {
  result = record r { status = k_ok };
  response = some (p.response, p.body);
  client =
      if not req.keep_alive || (not p.response.keep_alive || not c.keep_alive) then close c else c;
}

unfoldable pub after_reads : Client → Request → Result → ReadsEnd → Return Got
unfolding got_reply
after_reads c req r (reading n) = going_on
after_reads c req r (io_failed f n) =
    returns
      (got_none c (record r { status = k_network_error; bytes_received = n; error = error_text f }))
after_reads c req r (bad_reply p n) = returns (
    got_none c
      (record r { status = k_parse_error; bytes_received = n; error = codes p.error_message }))
after_reads c req r (left p n) = returns (
    if p.response.message_complete
    then got_reply c req (record r { bytes_received = n }) p
    else got_none c (record r {
      status = k_incomplete;
      bytes_received = n;
      error = codes "http response incomplete";
    }))

unfoldable pub after_send : Client → Request → GetAnswer → Result → Return Moved → Return Got
unfolding after_reads read_loop
after_send c req a r going_on = going_on
after_send c req a r (returns (move_failed f)) =
    returns (got_none c (record r { status = k_network_error; error = error_text f }))
after_send c req a r (returns (moved n)) = after_reads c req r (read_loop c a.reads reset 0)

-- The result when the request has been built, with the time of its end.
abbrev pub begun : GetAnswer → Bytes → Result
begun a wire = record new_result {
  bytes_sent = length wire;
  latency_ns = elapsed_ns a.begin_ns a.end_ns;
}

-- Every return past the first takes the time of the transaction.
unfoldable pub perform_http_get : Client → Request → GetAnswer → Return Got
unfolding after_send send
perform_http_get c req a =
    let wire = build_get_request req in
    if not c.connected || not (has_object c)
    then returns (
        got_none c (record new_result {
          status = k_network_error;
          error = codes "ssl client not connected";
        }))
    else after_send c req a (begun a wire) (send c wire a.writes).result

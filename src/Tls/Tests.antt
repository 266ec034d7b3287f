-- ===== src/Tls/Tests.antt =====
-- Runs of src/net/ssl.cpp on small inputs, and its theorems at concrete inputs.
use titan_bench.Base.{
  ◌≡◌, refl, true, false, List, [], ◌∷◌, ◌++◌, some, none, pos, negsuc, length, codes, crlf,
  print_int, to_string, Bytes,
}
use titan_bench.Http.Message.{Request, build_get_request}
use titan_bench.Http.Pieces.{joined}
use titan_bench.Tls.Wait.{
  plain, wolf, error_text, returns, interrupted, ready, timed_out, wait_fd_writable,
}
use titan_bench.Tls.Client.{
  SslOptions, Client, new_client, close, TcpAnswer, in_progress, HandshakeStep, want_read,
  want_write, ConnectAnswer, connect, do_handshake,
}
use titan_bench.Tls.Transfer.{wrote, not_written, moved, send, got, ended, not_read, recv}
use titan_bench.Tls.Get.{GetAnswer, perform_http_get}
use titan_bench.Tls.Owned.{Owned, Idle}
use titan_bench.Tls.Calls.{call_connect, call_get, calls, calls-Owned}
use titan_bench.Tls.Sent.{SentOf, send-SentOf}
use titan_bench.Tls.Exchange.{
  reply_in, reply_got, Delivers, then_end, piece, perform_http_get-reply_in,
}

abbrev options : SslOptions
options = record {
  endpoint = record { host = codes "a"; port = 443 };
  verify_peer = false;
  connect_timeout_ms = pos 3000;
  handshake_timeout_ms = pos 3000;
  keep_alive = true;
}

-- The descriptor 7, found ready after an interruption, and one read wanted in the handshake.
abbrev dial : TcpAnswer
dial = record {
  resolved = true;
  socket = some 7;
  flags = true;
  non_blocking = true;
  connect = in_progress;
  polls = interrupted ready;
  completed = true;
}

abbrev two_steps : List HandshakeStep
two_steps =
    record { error = some want_read; elapsed_ms = 2; polls = ready }
    ∷ record { error = none; elapsed_ms = 4; polls = ready }
    ∷ []

abbrev good_answer : ConnectAnswer
good_answer = record {
  init = record { started = true; context = true };
  tcp = dial;
  object = some 1;
  set_fd = true;
  handshake = two_steps;
}

-- The same with a handshake that takes too long.
abbrev late_answer : ConnectAnswer
late_answer = record good_answer {
  handshake = record { error = some want_read; elapsed_ms = 3000; polls = ready } ∷ [];
}

-- The answer of a host that does not accept the connection in time.
abbrev timed_out_answer : ConnectAnswer
timed_out_answer = record good_answer { tcp = record dial { polls = timed_out } }

-- A client that is connected with the descriptor 7 and the object 1.
abbrev joined_client : Client
joined_client = record new_client {
  ctx = true;
  ssl = some 1;
  fd = some 7;
  initialized = true;
  connected = true;
  opened = 7 ∷ [];
  made = 1 ∷ [];
}

connects : connect options good_answer new_client ≡ (joined_client, returns none)
unfolding connect wait_fd_writable do_handshake
connects = refl

late : (connect options late_answer new_client).1 ≡ returns (some (plain "tls handshake timeout"))
unfolding connect wait_fd_writable do_handshake
late = refl

-- A timeout of the connection is reported by the message of the wait.
timed_out_connect : connect options timed_out_answer new_client ≡ (
  record new_client { ctx = true; initialized = true; fd = some 7; opened = 7 ∷ [] },
  returns (some (plain "wait writable timeout/failure")),
)
unfolding connect wait_fd_writable
timed_out_connect = refl

negative_code :
    error_text (wolf "wolfSSL_read failed" (negsuc 307))
    ≡ codes "wolfSSL_read failed (wolfssl err=-308)"
unfolding error_text print_int to_string
negative_code = refl

abbrev request : Request
request = record { host = codes "a"; path = codes "/"; headers = []; keep_alive = true }

abbrev quick_get : GetAnswer
quick_get = record {
  begin_ns = 10;
  end_ns = 25;
  writes = wrote 3 ∷ not_written want_write ready ∷ wrote 1000 ∷ [];
  reads =
      (not_read want_read ready ∷ got 72 (codes "TTP/1.1 200 OK") ∷ [])
      ∷ (got 13 (10 ∷ crlf ++ codes "hi") ∷ [])
      ∷ (ended ∷ [])
      ∷ [];
}

calls-Owned_example :
    Owned (
      calls new_client (
        call_connect options timed_out_answer
        ∷ call_connect options good_answer
        ∷ call_get request quick_get
        ∷ []))
    × Idle (
        close (
          calls new_client (
            call_connect options timed_out_answer
            ∷ call_connect options good_answer
            ∷ call_get request quick_get
            ∷ [])))
calls-Owned_example = calls-Owned (
    call_connect options timed_out_answer
    ∷ call_connect options good_answer
    ∷ call_get request quick_get
    ∷ [])

send-SentOf_example : SentOf 0 2 (1 ∷ 2 ∷ 3 ∷ []) (
    send joined_client (1 ∷ 2 ∷ 3 ∷ []) (wrote 0 ∷ not_written want_write timed_out ∷ wrote 5 ∷ []))
send-SentOf_example =
    send-SentOf joined_client (1 ∷ 2 ∷ 3 ∷ [])
      (wrote 0 ∷ not_written want_write timed_out ∷ wrote 5 ∷ [])

abbrev reply_pieces : List Bytes
reply_pieces = (72 ∷ codes "TTP/1.1 200 OK") ∷ (13 ∷ 10 ∷ crlf ++ codes "hi") ∷ []

quick_sent :
    (send joined_client (build_get_request request) quick_get.writes).result
    ≡ returns (moved (length (build_get_request request)))
unfolding send build_get_request
quick_sent = refl

quick_pieces : Delivers joined_client quick_get.reads reply_pieces
unfolding recv
quick_pieces = piece _ _ _ _ _ refl (piece _ _ _ _ _ refl (then_end _ _ refl))

perform_http_get-reply_in_example :
    reply_got (perform_http_get joined_client request quick_get)
    ≡ some (reply_in (joined reply_pieces))
perform_http_get-reply_in_example =
    perform_http_get-reply_in joined_client request quick_get reply_pieces
      (length (build_get_request request)) refl refl quick_sent quick_pieces

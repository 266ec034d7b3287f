-- ===== src/Tls/Calls.antt =====
-- src/net/ssl.cpp: what a client holds, over any sequence of its calls.
use titan_bench.Base.{not, ◌||◌, List, [], ◌∷◌, if_holds}
use titan_bench.Http.Message.{Request, build_get_request}
use titan_bench.Tls.Wait.{Return, returns, going_on}
use titan_bench.Tls.Client.{
  SslOptions, Client, new_client, close, InitAnswer, init, ConnectAnswer, connect,
}
use titan_bench.Tls.Transfer.{Moved, moved, move_failed, has_object}
use titan_bench.Tls.Get.{
  Result, ReadsEnd, left, io_failed, bad_reply, reading, Got, got_reply, after_reads, after_send,
  GetAnswer, begun, perform_http_get,
}
use titan_bench.Tls.Owned.{Owned, Idle, close-Idle, init-Owned, connect-Owned, new_client-Owned}

-- The client that a transaction leaves, if it returns.
abbrev pub left_client : Client → Return Got → Client
left_client c going_on = c
left_client c (returns g) = g.client

after_reads-Owned :
    (c : Client) (req : Request) (r : Result) (e : ReadsEnd)
    → Owned c
    → Owned (left_client c (after_reads c req r e))
unfolding after_reads got_reply
after_reads-Owned c req r (reading n) o = o
after_reads-Owned c req r (io_failed f n) o = o
after_reads-Owned c req r (bad_reply p n) o = o
after_reads-Owned c req r (left p n) o =
    if_holds (λ (g : Got). Owned g.client) p.response.message_complete _ _
      (λ _.
        if_holds Owned (not req.keep_alive || (not p.response.keep_alive || not c.keep_alive)) _ _
          (λ _. (close-Idle c o).owned) (λ _. o))
      (λ _. o)

after_send-Owned :
    (c : Client) (req : Request) (a : GetAnswer) (r : Result) (m : Return Moved)
    → Owned c
    → Owned (left_client c (after_send c req a r m))
unfolding after_send
after_send-Owned c req a r going_on o = o
after_send-Owned c req a r (returns (move_failed f)) o = o
after_send-Owned c req a r (returns (moved n)) o = after_reads-Owned c req r _ o

pub perform_http_get-Owned :
    (c : Client) (req : Request) (a : GetAnswer)
    → Owned c
    → Owned (left_client c (perform_http_get c req a))
unfolding perform_http_get
perform_http_get-Owned c req a o =
    if_holds (λ r. Owned (left_client c r)) (not c.connected || not (has_object c)) _ _ (λ _. o)
      (λ _. after_send-Owned c req a (begun a (build_get_request req)) _ o)

-- The calls that change a client, with the answers they meet.
pub data Call : Type 0 where
  call_init : InitAnswer → Call
  call_connect : SslOptions → ConnectAnswer → Call
  call_get : Request → GetAnswer → Call
  call_close : Call

unfoldable pub step : Client → Call → Client
unfolding init connect perform_http_get close
step c (call_init a) = (init a c).0
step c (call_connect o a) = (connect o a c).0
step c (call_get req a) = left_client c (perform_http_get c req a)
step c call_close = close c

unfoldable pub calls : Client → List Call → Client
unfolding step
calls c [] = c
calls c (x ∷ xs) = calls (step c x) xs

step-Owned : (c : Client) (x : Call) → Owned c → Owned (step c x)
unfolding step
step-Owned c (call_init a) o = init-Owned a c o
step-Owned c (call_connect op a) o = connect-Owned op a c o
step-Owned c (call_get req a) o = perform_http_get-Owned c req a o
step-Owned c call_close o = (close-Idle c o).owned

calls_keep : (c : Client) (xs : List Call) → Owned c → Owned (calls c xs)
unfolding calls
calls_keep c [] o = o
calls_keep c (x ∷ xs) o = calls_keep (step c x) xs (step-Owned c x o)

-- After any sequence of calls on a new client, whatever wolfSSL and the sockets answer: every
-- descriptor opened is the one held or has been closed, once and in order, likewise every wolfSSL
-- object made and freed, the client is initialized exactly when it has a context, and it is
-- connected only while it holds an object and a descriptor. The `Close` of the destructor then
-- leaves a client for which the same is true and which holds nothing.
pub calls-Owned :
    (xs : List Call) → Owned (calls new_client xs) × Idle (close (calls new_client xs))
calls-Owned xs =
    let o = calls_keep new_client xs new_client-Owned in (o, close-Idle (calls new_client xs) o)

-- ===== src/Net/Interface.antt =====
-- src/net/network.cpp: the submitting interface of `NetWorker`. A call is given whether a command
-- could be allocated and what the wake-up answers; the pointers are not null.
use titan_bench.Base.{
  ℕ, Bool, ◌||◌, List, [], ◌∷◌, Option, none, some, ◌==◌, if◌then◌else◌, add64, is_empty, Bytes,
}
use titan_bench.Net.Errors.{NetErrc, k_invalid_argument, k_not_started, k_queue_full}
use titan_bench.Net.Commands.{
  k_create_tcp, k_create_udp, k_send, k_close, Endpoint, Command, WakeResult, enqueue_command,
}

pub record Front : Type 0 where
  pub started : Bool
  pub next_conn_id : ℕ
  pub head : List Command

-- What the system and the allocator answer.
pub record SubmitAnswer : Type 0 where
  pub allocated : Bool
  pub wake : WakeResult

-- `ReleaseCommand` and `new` leave a command in this state; the caller then fills it.
abbrev pub blank : Command
blank = record {
  kind = k_close;
  conn_id = 0;
  endpoint = record { host = []; port = 0 };
  connect_timeout_ms = 0;
  payload = [];
}

-- What a call returns: an error or none, and the id that it hands out.
abbrev pub Reply : Type 0
Reply = Option NetErrc × Option ℕ

unfoldable pub pushed : Option ℕ → Front → List Command × Option NetErrc → Front × Reply
pushed id f (head, err) = (record f { head = head }, (err, id))

unfoldable pub push : SubmitAnswer → Option ℕ → Command → Front → Front × Reply
unfolding pushed
push a id c f =
    if a.allocated
    then pushed id f (enqueue_command a.wake c f.head)
    else (f, (some k_queue_full, none))

-- The id is taken before the command is allocated.
unfoldable pub create : SubmitAnswer → Command → Front → Front × Reply
unfolding push
create a c f =
    if f.started
    then push a (some f.next_conn_id) (record c { conn_id = f.next_conn_id })
        (record f { next_conn_id = add64 f.next_conn_id 1 })
    else (f, (some k_not_started, none))

unfoldable pub create_tcp_connection : Endpoint → ℕ → SubmitAnswer → Front → Front × Reply
unfolding create
create_tcp_connection e timeout a f =
    if is_empty e.host || (e.port == 0 || timeout == 0)
    then (f, (some k_invalid_argument, none))
    else create a (record blank { kind = k_create_tcp; endpoint = e; connect_timeout_ms = timeout })
        f

unfoldable pub create_udp_connection : Endpoint → SubmitAnswer → Front → Front × Reply
unfolding create
create_udp_connection e a f =
    if is_empty e.host || e.port == 0
    then (f, (some k_invalid_argument, none))
    else create a (record blank { kind = k_create_udp; endpoint = e }) f

unfoldable pub post : SubmitAnswer → Command → Front → Front × Reply
unfolding push
post a c f = if f.started then push a none c f else (f, (some k_not_started, none))

unfoldable pub send : ℕ → Bytes → SubmitAnswer → Front → Front × Reply
unfolding post
send id payload a f =
    if id == 0 || is_empty payload
    then (f, (some k_invalid_argument, none))
    else post a (record blank { kind = k_send; conn_id = id; payload = payload }) f

unfoldable pub close : ℕ → SubmitAnswer → Front → Front × Reply
unfolding post
close id a f =
    if id == 0
    then (f, (some k_invalid_argument, none))
    else post a (record blank { conn_id = id }) f

pub data Call : Type 0 where
  tcp : Endpoint → ℕ → SubmitAnswer → Call
  udp : Endpoint → SubmitAnswer → Call
  sends : ℕ → Bytes → SubmitAnswer → Call
  closes : ℕ → SubmitAnswer → Call

unfoldable pub call : Call → Front → Front × Reply
unfolding create_tcp_connection create_udp_connection send close
call (tcp e timeout a) f = create_tcp_connection e timeout a f
call (udp e a) f = create_udp_connection e a f
call (sends id payload a) f = send id payload a f
call (closes id a) f = close id a f

abbrev pub handed : Option ℕ → List ℕ → List ℕ
handed none ids = ids
handed (some id) ids = id ∷ ids

-- The calls of any threads one after another, and the ids that they handed out, in order.
unfoldable pub calls : List Call → Front → Front × List ℕ
unfolding call
calls [] f = (f, [])
calls (c ∷ cs) f = let (f', r) = call c f in let (g, ids) = calls cs f' in (g, handed r.1 ids)

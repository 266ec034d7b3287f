-- ===== src/Tls/Client.antt =====
-- src/net/ssl.cpp, ssl.h: `Init`, `Close`, `ConnectTcp`, `DoHandshake` and `Connect` of
-- `SslClient`. Beside the members of the class, the client keeps which descriptors and wolfSSL
-- objects it was given and which it gave back, the last one first.
use Prim.Native.String.{String}
use titan_bench.Base.{
  ℕ, Bool, true, false, ◌||◌, List, [], ◌∷◌, Option, none, some, ◌==◌, is_empty, if◌then◌else◌, ℤ,
  at_least, at_most,
}
use titan_bench.Net.Commands.{Endpoint}
use titan_bench.Tls.Wait.{
  Failure, plain, wolf, error_text, Return, returns, going_on, Polls, wait_fd_readable,
  wait_fd_writable,
}

pub record SslOptions : Type 0 where
  pub endpoint : Endpoint
  pub verify_peer : Bool
  pub connect_timeout_ms : ℤ
  pub handshake_timeout_ms : ℤ
  pub keep_alive : Bool

-- `ctx` is whether `ctx_` is set; `ssl` and `fd` are missing when they are null and negative.
pub record Client : Type 0 where
  pub ctx : Bool
  pub ssl : Option ℕ
  pub fd : Option ℕ
  pub initialized : Bool
  pub connected : Bool
  pub verify_peer : Bool
  pub keep_alive : Bool
  pub opened : List ℕ
  pub closed : List ℕ
  pub made : List ℕ
  pub freed : List ℕ

-- `SslClient()`.
abbrev pub new_client : Client
new_client = record {
  ctx = false;
  ssl = none;
  fd = none;
  initialized = false;
  connected = false;
  verify_peer = false;
  keep_alive = true;
  opened = [];
  closed = [];
  made = [];
  freed = [];
}

-- A member that is set, in front of those given back.
abbrev pub with_held : Option ℕ → List ℕ → List ℕ
with_held none xs = xs
with_held (some x) xs = x ∷ xs

-- `wolfSSL_shutdown` tells the peer and is not waited for.
unfoldable pub close : Client → Client
close c = record c {
  connected = false;
  ssl = none;
  freed = with_held c.ssl c.freed;
  fd = none;
  closed = with_held c.fd c.closed;
}

-- Whether `wolfSSL_Init` succeeds, and whether `wolfSSL_CTX_new` gives a context.
pub record InitAnswer : Type 0 where
  pub started : Bool
  pub context : Bool

unfoldable pub init : InitAnswer → Client → Client × Option Failure
init a c =
    if c.initialized
    then (c, none)
    else if a.started
    then (if a.context
        then (record c { ctx = true; initialized = true }, none)
        else (record c { ctx = false }, some (plain "wolfSSL_CTX_new failed")))
    else (c, some (plain "wolfSSL_Init failed"))

-- `connect` at once, under way, or another error.
pub data ConnectResult : Type 0 where
  connected_now in_progress refused : ConnectResult

-- `resolved` is the result of `getaddrinfo`, `flags` and `non_blocking` those of the two `fcntl`,
-- and `completed` whether `getsockopt` succeeds and reads no error.
pub record TcpAnswer : Type 0 where
  pub resolved : Bool
  pub socket : Option ℕ
  pub flags : Bool
  pub non_blocking : Bool
  pub connect : ConnectResult
  pub polls : Polls
  pub completed : Bool

unfoldable pub resolve_endpoint : Endpoint → Bool → Bool
resolve_endpoint e resolved = if is_empty e.host || e.port == 0 then false else resolved

unfoldable pub set_non_blocking : TcpAnswer → Bool
set_non_blocking a = if a.flags then a.non_blocking else false

-- Past the wait of `ConnectTcp`, which names a timeout only when the wait left no message.
unfoldable pub after_wait : TcpAnswer → Option Failure → Option Failure
unfolding error_text
after_wait a (some f) = if is_empty (error_text f) then some (plain "connect timeout") else some f
after_wait a none = if a.completed then none else some (plain "connect completion failed")

unfoldable pub after_connect : TcpAnswer → Option ℕ → ConnectResult → Option Failure
unfolding after_wait
after_connect a fd connected_now = none
after_connect a fd refused = some (plain "connect failed")
after_connect a fd in_progress = after_wait a (wait_fd_writable fd a.polls)

unfoldable pub with_socket : TcpAnswer → Client → Option ℕ → Client × Option Failure
unfolding after_connect set_non_blocking
with_socket a c none = (record c { fd = none }, some (plain "socket create failed"))
with_socket a c (some fd) = (
  record c { fd = some fd; opened = fd ∷ c.opened },
  if set_non_blocking a
      then after_connect a (some fd) a.connect
      else some (plain "set non-blocking failed"),
)

unfoldable pub connect_tcp : Endpoint → ℤ → TcpAnswer → Client → Client × Option Failure
unfolding with_socket resolve_endpoint
connect_tcp endpoint timeout_ms a c =
    if at_least 1 timeout_ms
    then (if resolve_endpoint endpoint a.resolved
        then with_socket a c a.socket
        else (c, some (plain "resolve endpoint failed")))
    else (c, some (plain "invalid connect timeout"))

-- `wolfSSL_get_error`: more input or room is wanted, or another code.
pub data SslError : Type 0 where
  want_read want_write : SslError
  other : ℤ → SslError

-- One call of `wolfSSL_connect`: its error unless it succeeded, the time since the start, and what
-- a wait for the descriptor meets.
pub record HandshakeStep : Type 0 where
  pub error : Option SslError
  pub elapsed_ms : ℕ
  pub polls : Polls

-- The wait that an error asks for, or the failure.
unfoldable pub wait_for : String → Option ℕ → Polls → SslError → Option Failure
unfolding wait_fd_readable wait_fd_writable
wait_for prefix fd polls want_read = wait_fd_readable fd polls
wait_for prefix fd polls want_write = wait_fd_writable fd polls
wait_for prefix fd polls (other err) = some (wolf prefix err)

-- `continue` after a wait that succeeded, and the failure otherwise.
unfoldable pub go_on : Return (Option Failure) → Option Failure → Return (Option Failure)
go_on next none = next
go_on next (some f) = returns (some f)

unfoldable pub handshake_error :
    ℤ
    → Option ℕ
    → HandshakeStep
    → Return (Option Failure)
    → Option SslError
    → Return (Option Failure)
unfolding go_on wait_for
handshake_error timeout_ms fd step next none = returns none
handshake_error timeout_ms fd step next (some err) =
    if at_most step.elapsed_ms timeout_ms
    then returns (some (plain "tls handshake timeout"))
    else go_on next (wait_for "tls handshake failed" fd step.polls err)

-- `while (true)`, for the calls that are met.
unfoldable pub do_handshake : ℤ → Option ℕ → List HandshakeStep → Return (Option Failure)
unfolding handshake_error
do_handshake timeout_ms fd [] = going_on
do_handshake timeout_ms fd (step ∷ steps) =
    handshake_error timeout_ms fd step (do_handshake timeout_ms fd steps) step.error

pub record ConnectAnswer : Type 0 where
  pub init : InitAnswer
  pub tcp : TcpAnswer
  pub object : Option ℕ
  pub set_fd : Bool
  pub handshake : List HandshakeStep

-- The client after the handshake, closed again when it failed.
unfoldable pub after_handshake : Client → Return (Option Failure) → Client × Return (Option Failure)
unfolding close
after_handshake c (returns none) = (record c { connected = true }, returns none)
after_handshake c (returns (some f)) = (close c, returns (some f))
after_handshake c going_on = (c, going_on)

unfoldable pub with_object :
    SslOptions → ConnectAnswer → Client → Option ℕ → Client × Return (Option Failure)
unfolding after_handshake
with_object o a c none =
    (close (record c { ssl = none }), returns (some (plain "wolfSSL_new failed")))
with_object o a c (some ssl) =
    let c' : Client = record c { ssl = some ssl; made = ssl ∷ c.made } in
    if a.set_fd
    then after_handshake c' (do_handshake o.handshake_timeout_ms c'.fd a.handshake)
    else (close c', returns (some (plain "wolfSSL_set_fd failed")))

unfoldable pub after_tcp :
    SslOptions → ConnectAnswer → Client × Option Failure → Client × Return (Option Failure)
unfolding with_object
after_tcp o a (c, some f) = (c, returns (some f))
after_tcp o a (c, none) = with_object o a c a.object

unfoldable pub after_init :
    SslOptions → ConnectAnswer → Client × Option Failure → Client × Return (Option Failure)
unfolding after_tcp connect_tcp
after_init o a (c, some f) = (c, returns (some f))
after_init o a (c, none) = after_tcp o a (
    connect_tcp o.endpoint o.connect_timeout_ms a.tcp
      (record c { verify_peer = o.verify_peer; keep_alive = o.keep_alive }))

unfoldable pub connect : SslOptions → ConnectAnswer → Client → Client × Return (Option Failure)
unfolding after_init init close
connect o a c = after_init o a (init a.init (close c))

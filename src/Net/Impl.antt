-- ===== src/Net/Impl.antt =====
-- src/net/network.cpp: the connections of `NetWorker::Impl` and what its handlers do to them. The
-- system's answers are arguments; `closed` is the history of the calls of `close` on sockets. The
-- interest that a connection has in `epoll` is left out: its calls are made with their results dropped.
use titan_bench.Base.{
  ℕ, Bool, true, false, not, List, [], ◌∷◌, ◌++◌, Option, none, some, if◌then◌else◌, Bytes,
  find_key, erase_key, put_key,
}
use titan_bench.Net.Errors.{
  NetErrc, k_io_failed, k_resolve_failed, k_socket_create_failed, k_set_non_blocking_failed,
  k_epoll_ctl_failed,
}
use titan_bench.Net.Commands.{Command}
use titan_bench.Net.Flush.{OutboundChunk}

pub data ConnType : Type 0 where
  k_tcp k_udp : ConnType

pub data ConnState : Type 0 where
  k_connecting k_connected k_closed : ConnState

-- `fd` is `none` where the source has -1.
pub record Connection : Type 0 where
  pub fd : Option ℕ
  pub id : ℕ
  pub kind : ConnType
  pub state : ConnState
  pub connect_begin : ℕ
  pub connect_timeout_ms : ℕ
  pub pending_send : List OutboundChunk

pub data Event : Type 0 where
  received : ℕ → Bytes → Event
  error : ℕ → NetErrc → Event

pub record Impl : Type 0 where
  pub connections : List (ℕ × Connection)
  pub fd_to_conn : List (ℕ × ℕ)
  pub bytes_sent : ℕ
  pub bytes_received : ℕ
  pub send_ops : ℕ
  pub recv_ops : ℕ
  pub closed : List ℕ
  pub events : List Event

-- `close(fd)` on a socket.
abbrev pub close_fd : ℕ → Impl → Impl
close_fd fd m = record m { closed = fd ∷ m.closed }

unfoldable pub forget_fd : Option ℕ → Impl → Impl
forget_fd none m = m
forget_fd (some fd) m = record m { closed = fd ∷ m.closed; fd_to_conn = erase_key fd m.fd_to_conn }

unfoldable pub report : ℕ → Option NetErrc → Impl → Impl
report id none m = m
report id (some e) m = record m { events = m.events ++ (error id e ∷ []) }

unfoldable pub remove_found : ℕ → Option NetErrc → Option Connection → Impl → Impl
unfolding forget_fd report
remove_found id err none m = m
remove_found id err (some c) m =
    let m' = report c.id err (forget_fd c.fd m) in
    record m' { connections = erase_key id m'.connections }

unfoldable pub remove_connection : ℕ → Option NetErrc → Impl → Impl
unfolding remove_found
remove_connection id err m = remove_found id err (find_key id m.connections) m

-- What the system answers while a connection is created: the clock, whether the address resolves, the
-- socket, and whether the descriptor could be set up, entered into `epoll`, and connected.
pub data ConnectResult : Type 0 where
  connected in_progress refused : ConnectResult

pub record OpenAnswer : Type 0 where
  pub begin : ℕ
  pub socket_begin : ℕ
  pub resolved : Bool
  pub socket : Option ℕ
  pub non_blocking : Bool
  pub epoll_added : Bool
  pub connect : ConnectResult

-- `initial_conn`; a UDP connection leaves the clock and the timeout at their defaults.
abbrev pub initial_tcp : Command → ℕ → Connection
initial_tcp c begin = record {
  fd = none;
  id = c.conn_id;
  kind = k_tcp;
  state = k_connecting;
  connect_begin = begin;
  connect_timeout_ms = c.connect_timeout_ms;
  pending_send = [];
}

abbrev pub initial_udp : Command → Connection
initial_udp c = record {
  fd = none;
  id = c.conn_id;
  kind = k_udp;
  state = k_connecting;
  connect_begin = 0;
  connect_timeout_ms = 0;
  pending_send = [];
}

-- `connections[id]` is the connection from now on.
abbrev pub enter : ℕ → Connection → Impl → Impl
enter id c m = record m { connections = put_key id c m.connections }

-- The end of `HandleCreateTcp`, behind the entry into `fd_to_conn`.
unfoldable pub tcp_connect : ℕ → Connection → ConnectResult → Impl → Impl
unfolding remove_connection
tcp_connect id c connected m = enter id (record c { state = k_connected }) m
tcp_connect id c in_progress m = m
tcp_connect id c refused m = remove_connection id (some k_io_failed) m

-- A socket that is open: the connection has it, and is entered where `epoll` has it.
unfoldable pub tcp_socket : Command → OpenAnswer → ℕ → Impl → Impl
unfolding tcp_connect
tcp_socket cmd a fd m =
    let c : Connection = record (initial_tcp cmd a.socket_begin) { fd = some fd } in
    let m' : Impl = enter cmd.conn_id c m in
    if not a.non_blocking
    then remove_connection cmd.conn_id (some k_set_non_blocking_failed) (close_fd fd m)
    else if not a.epoll_added
    then remove_connection cmd.conn_id (some k_epoll_ctl_failed) (close_fd fd m')
    else tcp_connect cmd.conn_id c a.connect
        (record m' { fd_to_conn = put_key fd cmd.conn_id m'.fd_to_conn })

-- `HandleCreateUdp` behind its `connect`; it is entered into `epoll` after that.
unfoldable pub udp_connect : ℕ → ℕ → Bool → ConnectResult → Impl → Impl
unfolding remove_connection
udp_connect id fd true connected m = record m { fd_to_conn = put_key fd id m.fd_to_conn }
udp_connect id fd false connected m = remove_connection id (some k_epoll_ctl_failed) (close_fd fd m)
udp_connect id fd added in_progress m = remove_connection id (some k_io_failed) (close_fd fd m)
udp_connect id fd added refused m = remove_connection id (some k_io_failed) (close_fd fd m)

unfoldable pub udp_socket : Command → OpenAnswer → ℕ → Impl → Impl
unfolding udp_connect
udp_socket cmd a fd m =
    let c : Connection = record (initial_udp cmd) { fd = some fd; state = k_connected } in
    if not a.non_blocking
    then remove_connection cmd.conn_id (some k_set_non_blocking_failed) (close_fd fd m)
    else udp_connect cmd.conn_id fd a.epoll_added a.connect (enter cmd.conn_id c m)

unfoldable pub open_with : (ℕ → Impl → Impl) → Command → Option ℕ → Impl → Impl
unfolding remove_connection
open_with socket cmd none m = remove_connection cmd.conn_id (some k_socket_create_failed) m
open_with socket cmd (some fd) m = socket fd m

-- Both handlers up to the socket: an id that is in use removes the connection that has it.
unfoldable pub create_at :
    (ℕ → Impl → Impl) → Connection → Command → OpenAnswer → Option Connection → Impl → Impl
unfolding open_with remove_connection
create_at socket c cmd a (some old) m = remove_connection cmd.conn_id (some k_io_failed) m
create_at socket c cmd a none m =
    let m' : Impl = enter cmd.conn_id c m in
    if a.resolved
    then open_with socket cmd a.socket m'
    else remove_connection cmd.conn_id (some k_resolve_failed) m'

unfoldable pub handle_create_tcp : Command → OpenAnswer → Impl → Impl
unfolding create_at tcp_socket
handle_create_tcp cmd a m =
    create_at (tcp_socket cmd a) (initial_tcp cmd a.begin) cmd a
      (find_key cmd.conn_id m.connections) m

unfoldable pub handle_create_udp : Command → OpenAnswer → Impl → Impl
unfolding create_at udp_socket
handle_create_udp cmd a m =
    create_at (udp_socket cmd a) (initial_udp cmd) cmd a (find_key cmd.conn_id m.connections) m

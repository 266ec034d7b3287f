-- ===== src/Net/Handlers.antt =====
-- src/net/network.cpp: sending, receiving and closing on the connections, the commands, and the
-- events of one `PollOnce`.
use titan_bench.Base.{
  ℕ, ◌-◌, ◌/◌, Bool, true, false, not, ◌&&◌, List, [], ◌∷◌, ◌++◌, Option, none, some, ltb,
  if◌then◌else◌, add64, Bytes, length, find_key,
}
use titan_bench.Net.Errors.{k_io_failed, k_timeout, k_connection_not_found}
use titan_bench.Net.Commands.{CommandType, k_create_tcp, k_create_udp, k_send, k_close, Command}
use titan_bench.Net.Flush.{Flushed, FlushEnd, failed, SendResult, flush, rounds_for}
use titan_bench.Net.Impl.{
  ConnType, k_tcp, ConnState, k_connecting, k_connected, k_closed, Connection, received, error,
  Impl, enter, remove_connection, OpenAnswer, handle_create_tcp, handle_create_udp,
}

unfoldable pub queue_on : Command → Connection → ConnState → Impl → Impl
queue_on cmd c k_closed m = m
queue_on cmd c _ m =
    enter cmd.conn_id
      (record c {
        pending_send = c.pending_send ++ (record { bytes = cmd.payload; sent_offset = 0 } ∷ []);
      })
      m

unfoldable pub send_on : Command → Option Connection → Impl → Impl
unfolding queue_on
send_on cmd none m = record m {
  events = m.events ++ (error cmd.conn_id k_connection_not_found ∷ []);
}
send_on cmd (some c) m = queue_on cmd c c.state m

unfoldable pub handle_send : Command → Impl → Impl
unfolding send_on
handle_send cmd m = send_on cmd (find_key cmd.conn_id m.connections) m

unfoldable pub handle_close : Command → Impl → Impl
handle_close cmd m = remove_connection cmd.conn_id none m

unfoldable pub handle_command : CommandType → Command → OpenAnswer → Impl → Impl
unfolding handle_send handle_close
handle_command k_create_tcp cmd a m = handle_create_tcp cmd a m
handle_command k_create_udp cmd a m = handle_create_udp cmd a m
handle_command k_send cmd a m = handle_send cmd m
handle_command k_close cmd a m = handle_close cmd m

-- The commands that were drained, each with what the system answers.
unfoldable pub process_commands : List (Command × OpenAnswer) → Impl → Impl
unfolding handle_command
process_commands [] m = m
process_commands ((cmd, a) ∷ rest) m = process_commands rest (handle_command cmd.kind cmd a m)

-- What the loop of `FlushWrite` sent is counted before the connection is removed.
unfoldable pub sent_some : ℕ → Connection → Flushed → Impl → Impl
sent_some id c r m = record (enter id (record c { pending_send = r.pending }) m) {
  bytes_sent = add64 m.bytes_sent (length r.wire);
  send_ops = add64 m.send_ops r.ops;
}

unfoldable pub after_flush : Connection → FlushEnd → Impl → Impl
after_flush c failed m = remove_connection c.id (some k_io_failed) m
after_flush c _ m = m

unfoldable pub flush_write : (ℕ → ℕ → SendResult) → ℕ → Connection → Impl → Impl
unfolding sent_some after_flush
flush_write os id c m =
    let r = flush os (rounds_for c.pending_send) 0 c.pending_send in
    after_flush c r.status (sent_some id c r m)

-- `recv`: bytes, the end of the stream, `EAGAIN`, or another error. The calls are made until one does
-- not give bytes, which are at least one; a list that ends stands for `EAGAIN`.
pub data RecvResult : Type 0 where
  bytes : Bytes → RecvResult
  end_of_stream would_block recv_failed : RecvResult

unfoldable pub drain_read : List RecvResult → ℕ → Impl → Impl
drain_read [] id m = m
drain_read (would_block ∷ rest) id m = m
drain_read (end_of_stream ∷ rest) id m = remove_connection id (some k_io_failed) m
drain_read (recv_failed ∷ rest) id m = remove_connection id (some k_io_failed) m
drain_read (bytes b ∷ rest) id m = drain_read rest id (record m {
  events = m.events ++ (received id b ∷ []);
  bytes_received = add64 m.bytes_received (length b);
  recv_ops = add64 m.recv_ops 1;
})

unfoldable pub connecting : ConnType → ConnState → Bool
connecting k_tcp k_connecting = true
connecting _ _ = false

-- `so_error` says that `getsockopt` failed or gave an error.
unfoldable pub complete_tcp_connect : Bool → ℕ → Connection → Impl → Impl
unfolding connecting
complete_tcp_connect so_error id c m =
    if not (connecting c.kind c.state)
    then m
    else if so_error
    then remove_connection c.id (some k_io_failed) m
    else enter id (record c { state = k_connected }) m

unfoldable pub timed_out : ℕ → Connection → Bool
unfolding connecting
timed_out now c =
    connecting c.kind c.state
    && (ltb 0 c.connect_timeout_ms && ltb c.connect_timeout_ms ((now - c.connect_begin) / 1000000))

unfoldable pub late_ids : ℕ → List (ℕ × Connection) → List ℕ
unfolding timed_out
late_ids now [] = []
late_ids now ((id, c) ∷ rest) =
    let ids = late_ids now rest in if timed_out now c then c.id ∷ ids else ids

unfoldable pub remove_all : List ℕ → Impl → Impl
remove_all [] m = m
remove_all (id ∷ ids) m = remove_all ids (remove_connection id (some k_timeout) m)

unfoldable pub check_connect_timeouts : ℕ → Impl → Impl
unfolding late_ids remove_all
check_connect_timeouts now m = remove_all (late_ids now m.connections) m

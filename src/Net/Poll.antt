-- ===== src/Net/Poll.antt =====
-- src/net/network.cpp: `PollOnce`.
use titan_bench.Base.{
  ℕ, Bool, true, false, List, [], ◌∷◌, Option, none, some, if◌then◌else◌, find_key,
}
use titan_bench.Net.Errors.{NetErrc, k_not_started, k_io_failed}
use titan_bench.Net.Commands.{Command}
use titan_bench.Net.Flush.{SendResult}
use titan_bench.Net.Impl.{Connection, Impl, remove_connection, OpenAnswer}
use titan_bench.Net.Handlers.{
  process_commands, flush_write, RecvResult, drain_read, complete_tcp_connect,
  check_connect_timeouts,
}

-- A ready descriptor: its flags, and what the system answers if it is read or written.
pub record Ready : Type 0 where
  pub fd : ℕ
  pub hang_up : Bool
  pub writable : Bool
  pub readable : Bool
  pub so_error : Bool
  pub sends : ℕ → ℕ → SendResult
  pub reads : List RecvResult

pub data PollEvent : Type 0 where
  wake : List (Command × OpenAnswer) → PollEvent
  ready : Ready → PollEvent

-- The connection again, where it is still there.
unfoldable pub with_conn : (Connection → Impl → Impl) → Option Connection → Impl → Impl
with_conn next none m = m
with_conn next (some c) m = next c m

unfoldable pub again : (Connection → Impl → Impl) → ℕ → Impl → Impl
unfolding with_conn
again next id m = with_conn next (find_key id m.connections) m

unfoldable pub read_ready : Ready → Connection → Impl → Impl
read_ready r c m = if r.readable then drain_read r.reads c.id m else m

unfoldable pub write_ready : Ready → ℕ → Connection → Impl → Impl
unfolding again
write_ready r id c m =
    again (λ c'. read_ready r c') id
      (again (λ c'. flush_write r.sends id c') id (complete_tcp_connect r.so_error id c m))

unfoldable pub on_ready : Ready → ℕ → Connection → Impl → Impl
unfolding read_ready write_ready
on_ready r id c m =
    if r.hang_up
    then remove_connection c.id (some k_io_failed) m
    else if r.writable
    then write_ready r id c m
    else read_ready r c m

unfoldable pub on_id : Ready → Option ℕ → Impl → Impl
unfolding on_ready again
on_id r none m = m
on_id r (some id) m = again (λ c. on_ready r id c) id m

unfoldable pub on_poll_event : PollEvent → Impl → Impl
unfolding on_id
on_poll_event (wake cmds) m = process_commands cmds m
on_poll_event (ready r) m = on_id r (find_key r.fd m.fd_to_conn) m

unfoldable pub on_poll_events : List PollEvent → Impl → Impl
unfolding on_poll_event
on_poll_events [] m = m
on_poll_events (e ∷ es) m = on_poll_events es (on_poll_event e m)

-- `epoll_wait`: a signal, an error, or the ready descriptors.
pub data WaitResult : Type 0 where
  interrupted wait_failed : WaitResult
  woke : List PollEvent → WaitResult

unfoldable pub waited : ℕ → WaitResult → Impl → Impl × Option NetErrc
unfolding on_poll_events
waited now interrupted m = (m, none)
waited now wait_failed m = (m, some k_io_failed)
waited now (woke es) m = (check_connect_timeouts now (on_poll_events es m), none)

-- The result is the events in `Impl.events` and the error.
unfoldable pub poll_once :
    Bool → List (Command × OpenAnswer) → ℕ → WaitResult → ℕ → Impl → Impl × Option NetErrc
unfolding waited
poll_once false cmds before w after m = (m, some k_not_started)
poll_once true cmds before w after m =
    waited after w (check_connect_timeouts before (process_commands cmds m))

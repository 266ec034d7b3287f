-- ===== src/Net/Polled.antt =====
-- src/net/network.cpp: the two maps of the connections through `PollOnce`.
use titan_bench.Base.{
  ℕ, ◌≡◌, refl, Bool, true, false, not, List, [], ◌∷◌, Option, none, some, if_holds, Option-cases,
  inl, inr, find_key,
}
use titan_bench.Net.Errors.{k_io_failed, k_timeout}
use titan_bench.Net.Commands.{Command}
use titan_bench.Net.Flush.{
  SendResult, FlushEnd, flushed, blocked, failed, exhausted, flush, rounds_for,
}
use titan_bench.Net.Impl.{Connection, k_connected, Impl, remove_connection, OpenAnswer}
use titan_bench.Net.Handlers.{
  process_commands, sent_some, after_flush, flush_write, RecvResult, bytes, end_of_stream,
  would_block, recv_failed, drain_read, connecting, complete_tcp_connect, late_ids, remove_all,
  check_connect_timeouts,
}
use titan_bench.Net.Poll.{
  Ready, PollEvent, wake, ready, with_conn, again, read_ready, write_ready, on_ready, on_id,
  on_poll_event, on_poll_events, WaitResult, interrupted, wait_failed, woke, waited, poll_once,
}
use titan_bench.Net.Linked.{Linked, remove_connection-Linked}
use titan_bench.Net.Opened.{replace-Linked, process_commands-Linked}

after_flush-Linked :
    (c : Connection) (e : FlushEnd) (m : Impl) → Linked m → Linked (after_flush c e m)
unfolding after_flush
after_flush-Linked c failed m l = remove_connection-Linked c.id (some k_io_failed) m l
after_flush-Linked c flushed m l = l
after_flush-Linked c blocked m l = l
after_flush-Linked c exhausted m l = l

flush_write-Linked :
    (os : ℕ → ℕ → SendResult) (id : ℕ) (c : Connection) (m : Impl)
    → find_key id m.connections ≡ some c
    → Linked m
    → Linked (flush_write os id c m)
unfolding flush_write sent_some
flush_write-Linked os id c m found l =
    let r = flush os (rounds_for c.pending_send) 0 c.pending_send in
    after_flush-Linked c r.status (sent_some id c r m)
      (replace-Linked id c (record c { pending_send = r.pending }) m found refl l)

drain_read-Linked :
    (rs : List RecvResult) (id : ℕ) (m : Impl) → Linked m → Linked (drain_read rs id m)
unfolding drain_read
drain_read-Linked [] id m l = l
drain_read-Linked (would_block ∷ rest) id m l = l
drain_read-Linked (end_of_stream ∷ rest) id m l = remove_connection-Linked id (some k_io_failed) m l
drain_read-Linked (recv_failed ∷ rest) id m l = remove_connection-Linked id (some k_io_failed) m l
drain_read-Linked (bytes b ∷ rest) id m l = drain_read-Linked rest id _ l

complete_tcp_connect-Linked :
    (so_error : Bool) (id : ℕ) (c : Connection) (m : Impl)
    → find_key id m.connections ≡ some c
    → Linked m
    → Linked (complete_tcp_connect so_error id c m)
unfolding complete_tcp_connect
complete_tcp_connect-Linked so_error id c m found l =
    if_holds Linked (not (connecting c.kind c.state)) _ _ (λ _. l)
      (λ _.
        if_holds Linked so_error _ _ (λ _. remove_connection-Linked c.id (some k_io_failed) m l)
          (λ _. replace-Linked id c (record c { state = k_connected }) m found refl l))

remove_all-Linked : (ids : List ℕ) (m : Impl) → Linked m → Linked (remove_all ids m)
unfolding remove_all
remove_all-Linked [] m l = l
remove_all-Linked (id ∷ ids) m l =
    remove_all-Linked ids (remove_connection id (some k_timeout) m)
      (remove_connection-Linked id (some k_timeout) m l)

check-Linked : (now : ℕ) (m : Impl) → Linked m → Linked (check_connect_timeouts now m)
unfolding check_connect_timeouts
check-Linked now m l = remove_all-Linked (late_ids now m.connections) m l

again-Linked :
    (next : Connection → Impl → Impl) (id : ℕ) (m : Impl)
    → ((c : Connection) → find_key id m.connections ≡ some c → Linked (next c m))
    → Linked m
    → Linked (again next id m)
unfolding again with_conn
again-Linked next id m h l = elim (Option-cases (find_key id m.connections)) [
  | inl missing ↦ rw missing l
  | inr (c, found) ↦ rw found (h c found)
]

read_ready-Linked : (r : Ready) (c : Connection) (m : Impl) → Linked m → Linked (read_ready r c m)
unfolding read_ready
read_ready-Linked r c m l =
    if_holds Linked r.readable _ _ (λ _. drain_read-Linked r.reads c.id m l) (λ _. l)

write_ready-Linked :
    (r : Ready) (id : ℕ) (c : Connection) (m : Impl)
    → find_key id m.connections ≡ some c
    → Linked m
    → Linked (write_ready r id c m)
unfolding write_ready
write_ready-Linked r id c m found l =
    let m1 = complete_tcp_connect r.so_error id c m in
    let l1 = complete_tcp_connect-Linked r.so_error id c m found l in
    let m2 = again (λ c'. flush_write r.sends id c') id m1 in
    let l2 =
      again-Linked (λ c'. flush_write r.sends id c') id m1
        (λ c' f. flush_write-Linked r.sends id c' m1 f l1) l1 in
    again-Linked (λ c'. read_ready r c') id m2 (λ c' f. read_ready-Linked r c' m2 l2) l2

on_ready-Linked :
    (r : Ready) (id : ℕ) (c : Connection) (m : Impl)
    → find_key id m.connections ≡ some c
    → Linked m
    → Linked (on_ready r id c m)
unfolding on_ready
on_ready-Linked r id c m found l =
    if_holds Linked r.hang_up _ _ (λ _. remove_connection-Linked c.id (some k_io_failed) m l)
      (λ _.
        if_holds Linked r.writable _ _ (λ _. write_ready-Linked r id c m found l)
          (λ _. read_ready-Linked r c m l))

on_id-Linked : (r : Ready) (o : Option ℕ) (m : Impl) → Linked m → Linked (on_id r o m)
unfolding on_id
on_id-Linked r none m l = l
on_id-Linked r (some id) m l =
    again-Linked (λ c. on_ready r id c) id m (λ c f. on_ready-Linked r id c m f l) l

on_poll_events-Linked : (es : List PollEvent) (m : Impl) → Linked m → Linked (on_poll_events es m)
unfolding on_poll_events on_poll_event
on_poll_events-Linked [] m l = l
on_poll_events-Linked (wake cmds ∷ es) m l =
    on_poll_events-Linked es (process_commands cmds m) (process_commands-Linked cmds m l)
on_poll_events-Linked (ready r ∷ es) m l =
    on_poll_events-Linked es (on_id r (find_key r.fd m.fd_to_conn) m) (on_id-Linked r _ m l)

waited-Linked : (now : ℕ) (w : WaitResult) (m : Impl) → Linked m → Linked (waited now w m).0
unfolding waited
waited-Linked now interrupted m l = l
waited-Linked now wait_failed m l = l
waited-Linked now (woke es) m l =
    check-Linked now (on_poll_events es m) (on_poll_events-Linked es m l)

-- If every descriptor in `fd_to_conn` leads to a connection that has this descriptor, the same
-- holds after `PollOnce`, whatever commands were queued and however the system answers.
pub poll_once-Linked :
    (started : Bool) (cmds : List (Command × OpenAnswer)) (before : ℕ) (w : WaitResult) (after : ℕ)
    (m : Impl)
    → Linked m
    → Linked (poll_once started cmds before w after m).0
unfolding poll_once
poll_once-Linked false cmds before w after m l = l
poll_once-Linked true cmds before w after m l =
    waited-Linked after w (check_connect_timeouts before (process_commands cmds m))
      (check-Linked before (process_commands cmds m) (process_commands-Linked cmds m l))

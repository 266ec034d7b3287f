-- ===== src/Net/Opened.antt =====
-- src/net/network.cpp: the two maps of the connections through the commands.
use titan_bench.Base.{
  ℕ, ◌≡◌, refl, sym, subst, ◌∙◌, Bool, true, false, not, List, [], ◌∷◌, Option, none, some, ◌==◌,
  if_holds, Option-cases, inl, inr, find_key, put_key, find_key-put_key,
}
use titan_bench.Net.Errors.{
  k_io_failed, k_resolve_failed, k_socket_create_failed, k_epoll_ctl_failed,
  k_set_non_blocking_failed,
}
use titan_bench.Net.Commands.{Command, CommandType, k_create_tcp, k_create_udp, k_send, k_close}
use titan_bench.Net.Impl.{
  Connection, ConnState, k_closed, k_connected, k_connecting, Impl, enter, OpenAnswer,
  ConnectResult, connected, in_progress, refused, tcp_connect, tcp_socket, udp_socket, udp_connect,
  open_with, create_at, handle_create_tcp, handle_create_udp, initial_tcp, initial_udp, close_fd,
}
use titan_bench.Net.Handlers.{
  queue_on, send_on, handle_send, handle_close, handle_command, process_commands,
}
use titan_bench.Net.Linked.{
  LinkedTo, linked, LinkedIn, Linked, enter-Linked, link_fd, remove_connection-Linked,
}

-- A connection is stored again, with its descriptor.
pub replace-Linked :
    (id : ℕ) (old c : Connection) (m : Impl)
    → find_key id m.connections ≡ some old
    → c.fd ≡ old.fd
    → Linked m
    → Linked (enter id c m)
replace-Linked id old c m found same l =
    enter-Linked id c m (λ f k. same ∙ link_fd f old (subst (λ o. LinkedTo f o) found k)) l

-- A connection gets its descriptor.
bare-Linked :
    (id : ℕ) (old c : Connection) (m : Impl)
    → find_key id m.connections ≡ some old
    → old.fd ≡ none
    → Linked m
    → Linked (enter id c m)
bare-Linked id old c m found bare l =
    enter-Linked id c m
      (λ f k. absurd (cc (link_fd f old (subst (λ o. LinkedTo f o) found k), bare))) l

no_link : (f : ℕ) (c : Connection) → LinkedTo f none → c.fd ≡ some f
no_link f c k = elim k [ ]

fresh-Linked :
    (id : ℕ) (c : Connection) (m : Impl)
    → find_key id m.connections ≡ none
    → Linked m
    → Linked (enter id c m)
fresh-Linked id c m missing l =
    enter-Linked id c m (λ f k. no_link f c (subst (λ o. LinkedTo f o) missing k)) l

put-LinkedIn :
    (fd id : ℕ) (xs : List (ℕ × Connection)) (table : List (ℕ × ℕ))
    → LinkedTo fd (find_key id xs)
    → LinkedIn xs table
    → LinkedIn xs (put_key fd id table)
put-LinkedIn fd id xs [] k l = (k, tt)
put-LinkedIn fd id xs ((f, j) ∷ rest) k l =
    if_holds (LinkedIn xs) (f == fd) _ _ (λ _. (k, l.1))
      (λ _. (l.0, put-LinkedIn fd id xs rest k l.1))

tcp_connect-Linked :
    (id : ℕ) (c : Connection) (r : ConnectResult) (m : Impl)
    → find_key id m.connections ≡ some c
    → Linked m
    → Linked (tcp_connect id c r m)
unfolding tcp_connect
tcp_connect-Linked id c connected m found l =
    replace-Linked id c (record c { state = k_connected }) m found refl l
tcp_connect-Linked id c in_progress m found l = l
tcp_connect-Linked id c refused m found l = remove_connection-Linked id (some k_io_failed) m l

-- The connection with its descriptor, and the descriptor's entry.
both_entered :
    (id : ℕ) (old c : Connection) (fd : ℕ) (m : Impl)
    → find_key id m.connections ≡ some old
    → old.fd ≡ none
    → c.fd ≡ some fd
    → Linked m
    → LinkedIn (put_key id c m.connections) (put_key fd id m.fd_to_conn)
both_entered id old c fd m found bare has l =
    put-LinkedIn fd id (put_key id c m.connections) m.fd_to_conn
      (subst (λ o. LinkedTo fd o) (sym (find_key-put_key id c m.connections)) (linked c has))
      (bare-Linked id old c m found bare l)

tcp_socket-Linked :
    (cmd : Command) (a : OpenAnswer) (fd : ℕ) (old : Connection) (m : Impl)
    → find_key cmd.conn_id m.connections ≡ some old
    → old.fd ≡ none
    → Linked m
    → Linked (tcp_socket cmd a fd m)
unfolding tcp_socket
tcp_socket-Linked cmd a fd old m found bare l =
    let c : Connection = record (initial_tcp cmd a.socket_begin) { fd = some fd } in
    if_holds Linked (not a.non_blocking) _ _
      (λ _. remove_connection-Linked cmd.conn_id (some k_set_non_blocking_failed) (close_fd fd m) l)
      (λ _.
        if_holds Linked (not a.epoll_added) _ _
          (λ _.
            remove_connection-Linked cmd.conn_id (some k_epoll_ctl_failed)
              (close_fd fd (enter cmd.conn_id c m)) (bare-Linked cmd.conn_id old c m found bare l))
          (λ _.
            tcp_connect-Linked cmd.conn_id c a.connect
              (record (enter cmd.conn_id c m) { fd_to_conn = put_key fd cmd.conn_id m.fd_to_conn })
              (find_key-put_key cmd.conn_id c m.connections)
              (both_entered cmd.conn_id old c fd m found bare refl l)))

udp_connect-Linked :
    (id fd : ℕ) (c : Connection) (added : Bool) (r : ConnectResult) (m : Impl)
    → find_key id m.connections ≡ some c
    → c.fd ≡ some fd
    → Linked m
    → Linked (udp_connect id fd added r m)
unfolding udp_connect
udp_connect-Linked id fd c true connected m found has l =
    put-LinkedIn fd id m.connections m.fd_to_conn
      (subst (λ o. LinkedTo fd o) (sym found) (linked c has)) l
udp_connect-Linked id fd c false connected m found has l =
    remove_connection-Linked id (some k_epoll_ctl_failed) (close_fd fd m) l
udp_connect-Linked id fd c added in_progress m found has l =
    remove_connection-Linked id (some k_io_failed) (close_fd fd m) l
udp_connect-Linked id fd c added refused m found has l =
    remove_connection-Linked id (some k_io_failed) (close_fd fd m) l

udp_socket-Linked :
    (cmd : Command) (a : OpenAnswer) (fd : ℕ) (old : Connection) (m : Impl)
    → find_key cmd.conn_id m.connections ≡ some old
    → old.fd ≡ none
    → Linked m
    → Linked (udp_socket cmd a fd m)
unfolding udp_socket
udp_socket-Linked cmd a fd old m found bare l =
    let c : Connection = record (initial_udp cmd) { fd = some fd; state = k_connected } in
    if_holds Linked (not a.non_blocking) _ _
      (λ _. remove_connection-Linked cmd.conn_id (some k_set_non_blocking_failed) (close_fd fd m) l)
      (λ _.
        udp_connect-Linked cmd.conn_id fd c a.epoll_added a.connect (enter cmd.conn_id c m)
          (find_key-put_key cmd.conn_id c m.connections) refl
          (bare-Linked cmd.conn_id old c m found bare l))

open_with-Linked :
    (socket : ℕ → Impl → Impl) (cmd : Command) (o : Option ℕ) (m : Impl)
    → ((fd : ℕ) → Linked (socket fd m))
    → Linked m
    → Linked (open_with socket cmd o m)
unfolding open_with
open_with-Linked socket cmd none m h l =
    remove_connection-Linked cmd.conn_id (some k_socket_create_failed) m l
open_with-Linked socket cmd (some fd) m h l = h fd

create_at-Linked :
    (socket : ℕ → Impl → Impl) (c : Connection) (cmd : Command) (a : OpenAnswer) (m : Impl)
    → ((fd : ℕ) (n : Impl)
        → find_key cmd.conn_id n.connections ≡ some c
        → Linked n
        → Linked (socket fd n))
    → Linked m
    → Linked (create_at socket c cmd a (find_key cmd.conn_id m.connections) m)
unfolding create_at
create_at-Linked socket c cmd a m h l = elim (Option-cases (find_key cmd.conn_id m.connections)) [
  | inr (old, found) ↦ rw found (remove_connection-Linked cmd.conn_id (some k_io_failed) m l)
  | inl missing ↦
      let entered = fresh-Linked cmd.conn_id c m missing l in
      rw missing (
        if_holds Linked a.resolved _ _
          (λ _.
            open_with-Linked socket cmd a.socket (enter cmd.conn_id c m)
              (λ fd.
                h fd (enter cmd.conn_id c m) (find_key-put_key cmd.conn_id c m.connections) entered)
              entered)
          (λ _.
            remove_connection-Linked cmd.conn_id (some k_resolve_failed) (enter cmd.conn_id c m)
              entered))
]

queue_on-Linked :
    (cmd : Command) (c : Connection) (st : ConnState) (m : Impl)
    → find_key cmd.conn_id m.connections ≡ some c
    → Linked m
    → Linked (queue_on cmd c st m)
unfolding queue_on
queue_on-Linked cmd c k_closed m found l = l
queue_on-Linked cmd c k_connecting m found l = replace-Linked cmd.conn_id c _ m found refl l
queue_on-Linked cmd c k_connected m found l = replace-Linked cmd.conn_id c _ m found refl l

handle_send-Linked : (cmd : Command) (m : Impl) → Linked m → Linked (handle_send cmd m)
unfolding handle_send send_on
handle_send-Linked cmd m l = elim (Option-cases (find_key cmd.conn_id m.connections)) [
  | inl missing ↦ rw missing l
  | inr (c, found) ↦ rw found (queue_on-Linked cmd c c.state m found l)
]

handle_command-Linked :
    (k : CommandType) (cmd : Command) (a : OpenAnswer) (m : Impl)
    → Linked m
    → Linked (handle_command k cmd a m)
unfolding handle_command handle_create_tcp handle_create_udp handle_close
handle_command-Linked k_create_tcp cmd a m l =
    create_at-Linked (tcp_socket cmd a) (initial_tcp cmd a.begin) cmd a m
      (λ fd n found k. tcp_socket-Linked cmd a fd _ n found refl k) l
handle_command-Linked k_create_udp cmd a m l =
    create_at-Linked (udp_socket cmd a) (initial_udp cmd) cmd a m
      (λ fd n found k. udp_socket-Linked cmd a fd _ n found refl k) l
handle_command-Linked k_send cmd a m l = handle_send-Linked cmd m l
handle_command-Linked k_close cmd a m l = remove_connection-Linked cmd.conn_id none m l

pub process_commands-Linked :
    (cmds : List (Command × OpenAnswer)) (m : Impl) → Linked m → Linked (process_commands cmds m)
unfolding process_commands
process_commands-Linked [] m l = l
process_commands-Linked ((cmd, a) ∷ rest) m l =
    process_commands-Linked rest (handle_command cmd.kind cmd a m)
      (handle_command-Linked cmd.kind cmd a m l)

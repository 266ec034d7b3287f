-- ===== src/Net/Lifecycle.antt =====
-- src/net/network.cpp: `Start`, `Stop`, `ShutdownAll` and `GetStats`, and a worker with all its
-- calls, one after another. Beside the members, a worker keeps which descriptors it opened and
-- closed for `epoll` and the wake-up, the last one first; those of its sockets are in `Impl`.
use titan_bench.Base.{ℕ, Bool, true, false, List, [], ◌∷◌, Option, none, some, map, if◌then◌else◌}
use titan_bench.Net.Errors.{
  NetErrc, k_already_started, k_epoll_create_failed, k_event_fd_create_failed, k_epoll_ctl_failed,
  k_not_started,
}
use titan_bench.Net.Commands.{Command, drain_commands}
use titan_bench.Net.Impl.{Connection, OpenAnswer, Impl}
use titan_bench.Net.Poll.{WaitResult, poll_once}
use titan_bench.Net.Interface.{Front, Call, call}

pub record Worker : Type 0 where
  pub front : Front
  pub impl : Impl
  pub epoll_fd : Option ℕ
  pub wake_fd : Option ℕ
  pub opened : List ℕ
  pub closed : List ℕ

-- `Impl()`.
abbrev pub new_worker : Worker
new_worker = record {
  front = record { started = false; next_conn_id = 1; head = [] };
  impl = record {
    connections = [];
    fd_to_conn = [];
    bytes_sent = 0;
    bytes_received = 0;
    send_ops = 0;
    recv_ops = 0;
    closed = [];
    events = [];
  };
  epoll_fd = none;
  wake_fd = none;
  opened = [];
  closed = [];
}

-- A descriptor that is there, in front of those that were closed.
abbrev pub and_fd : Option ℕ → List ℕ → List ℕ
and_fd none fds = fds
and_fd (some fd) fds = fd ∷ fds

unfoldable pub close_sockets : List (ℕ × Connection) → List ℕ → List ℕ
close_sockets [] fds = fds
close_sockets ((id, c) ∷ rest) fds = close_sockets rest (and_fd c.fd fds)

unfoldable pub shutdown_all : Worker → Worker
unfolding close_sockets
shutdown_all w = record w {
  impl = record w.impl {
    closed = close_sockets w.impl.connections w.impl.closed;
    connections = [];
    fd_to_conn = [];
  };
  closed = and_fd w.epoll_fd (and_fd w.wake_fd w.closed);
  wake_fd = none;
  epoll_fd = none;
  front = record w.front { head = [] };
}

abbrev pub set_started : Bool → Worker → Worker
set_started b w = record w { front = record w.front { started = b } }

-- The descriptors that `epoll_create1` and `eventfd` give, and whether `epoll_ctl` succeeds.
pub record StartAnswer : Type 0 where
  pub epoll : Option ℕ
  pub wake : Option ℕ
  pub added : Bool

unfoldable pub with_wake : StartAnswer → Worker → Option ℕ → Worker × Option NetErrc
unfolding shutdown_all
with_wake a w none = (set_started false (shutdown_all w), some k_event_fd_create_failed)
with_wake a w (some fd) =
    let w' : Worker = record w { wake_fd = some fd; opened = fd ∷ w.opened } in
    if a.added then (w', none) else (set_started false (shutdown_all w'), some k_epoll_ctl_failed)

unfoldable pub with_epoll : StartAnswer → Worker → Option ℕ → Worker × Option NetErrc
unfolding with_wake
with_epoll a w none = (set_started false (record w { epoll_fd = none }), some k_epoll_create_failed)
with_epoll a w (some fd) =
    with_wake a (record w { epoll_fd = some fd; opened = fd ∷ w.opened }) a.wake

unfoldable pub start : StartAnswer → Worker → Worker × Option NetErrc
unfolding with_epoll
start a w =
    if w.front.started
    then (w, some k_already_started)
    else with_epoll a (set_started true w) a.epoll

unfoldable pub stop : Worker → Worker × Option NetErrc
unfolding shutdown_all
stop w = if w.front.started then (shutdown_all (set_started false w), none) else (w, none)

-- `PollOnce` on the queue of the worker: what the system answers to a command that it drains.
pub record PollAnswer : Type 0 where
  pub opens : Command → OpenAnswer
  pub before : ℕ
  pub wait : WaitResult
  pub after : ℕ

unfoldable pub poll : PollAnswer → Worker → Worker × Option NetErrc
unfolding drain_commands poll_once
poll a w =
    let (cmds, left) = drain_commands w.front.head in
    let (m, err) = poll_once true (map (λ c. (c, a.opens c)) cmds) a.before a.wait a.after w.impl in
    if w.front.started
    then (record w { impl = m; front = record w.front { head = left } }, err)
    else (w, some k_not_started)

pub record NetStats : Type 0 where
  pub bytes_sent : ℕ
  pub bytes_received : ℕ
  pub send_ops : ℕ
  pub recv_ops : ℕ

unfoldable pub get_stats : Worker → NetStats
get_stats w = record {
  bytes_sent = w.impl.bytes_sent;
  bytes_received = w.impl.bytes_received;
  send_ops = w.impl.send_ops;
  recv_ops = w.impl.recv_ops;
}

pub data WorkerCall : Type 0 where
  starts : StartAnswer → WorkerCall
  stops : WorkerCall
  polls : PollAnswer → WorkerCall
  submits : Call → WorkerCall

unfoldable pub worker_call : WorkerCall → Worker → Worker
unfolding start stop poll call
worker_call (starts a) w = (start a w).0
worker_call stops w = (stop w).0
worker_call (polls a) w = (poll a w).0
worker_call (submits c) w = record w { front = (call c w.front).0 }

unfoldable pub worker_calls : List WorkerCall → Worker → Worker
unfolding worker_call
worker_calls [] w = w
worker_calls (x ∷ xs) w = worker_calls xs (worker_call x w)

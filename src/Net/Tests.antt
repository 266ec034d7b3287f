-- ===== src/Net/Tests.antt =====
-- Runs of src/net/network.cpp on small inputs, and its theorems at concrete inputs.
use titan_bench.Base.{
  ℕ, zero, suc, ◌≡◌, refl, List, [], ◌∷◌, ◌++◌, true, false, some, none, arith, codes,
}
use titan_bench.Net.Commands.{
  k_create_tcp, k_send, k_close, Command, no_wake_fd, written, wake_failed, Use, submit, drain,
  Queue, use_queue, submitted, turn_round, use_queue-submitted,
}
use titan_bench.Net.Flush.{
  OutboundChunk, SendResult, sent, again, flush, unsent, Ended, flush-Whole, flush-Ended,
}
use titan_bench.Net.Impl.{
  Impl, OpenAnswer, in_progress, handle_create_tcp, create_at, open_with, tcp_socket,
  remove_connection, remove_found, forget_fd, report,
}
use titan_bench.Net.Poll.{WaitResult, woke, ready, poll_once}
use titan_bench.Net.Linked.{Linked}
use titan_bench.Net.Interface.{Front, SubmitAnswer, Call, tcp, udp, sends, closes, calls}
use titan_bench.Net.Fresh.{Rising, calls-Rising}
use titan_bench.Net.Polled.{poll_once-Linked}
use titan_bench.Net.Recycle
use titan_bench.Net.Recycle.{Recycler, outside, acquires, releases, recycle}
use titan_bench.Net.Lifecycle.{new_worker, WorkerCall, starts, stops, submits, worker_calls}
use titan_bench.Net.Standing.{Lawful, worker_calls-Lawful}

abbrev opening : Command
opening = record {
  kind = k_create_tcp;
  conn_id = 1;
  endpoint = record { host = codes "h"; port = 80 };
  connect_timeout_ms = 3000;
  payload = [];
}

abbrev sending : Command
sending = record opening { kind = k_send; payload = codes "GET" }

abbrev closing : Command
closing = record opening { kind = k_close }

abbrev uses : List Use
uses =
    submit no_wake_fd opening ∷ submit wake_failed sending ∷ drain ∷ submit no_wake_fd closing ∷ []

abbrev empty_queue : Queue
empty_queue = record { head = []; handled = [] }

use_queue-submitted_example :
    (use_queue uses empty_queue).handled ++ turn_round [] (use_queue uses empty_queue).head
    ≡ ([] ++ turn_round [] []) ++ submitted uses
use_queue-submitted_example = use_queue-submitted uses empty_queue

abbrev chunks : List OutboundChunk
chunks =
    record { bytes = codes "GET"; sent_offset = 1 }
    ∷ record { bytes = codes "PUT"; sent_offset = 0 }
    ∷ []

-- One byte at a time, until the third call.
abbrev slow : ℕ → ℕ → SendResult
slow (suc (suc zero)) r = again
slow _ r = sent 1

flush-Whole_example :
    (flush slow 7 0 chunks).wire ++ unsent (flush slow 7 0 chunks).pending ≡ unsent chunks
flush-Whole_example = flush-Whole slow 7 0 chunks

flush-Ended_example : Ended (flush slow 7 0 chunks)
flush-Ended_example = flush-Ended slow 7 0 chunks (omega arith)

flush_run : (flush slow 7 0 chunks).wire ≡ codes "ET"
unfolding flush
flush_run = refl

abbrev idle : Impl
idle = record {
  connections = [];
  fd_to_conn = [];
  bytes_sent = 0;
  bytes_received = 0;
  send_ops = 0;
  recv_ops = 0;
  closed = [];
  events = [];
}

abbrev accepted : OpenAnswer
accepted = record {
  begin = 5;
  socket_begin = 6;
  resolved = true;
  socket = some 9;
  non_blocking = true;
  epoll_added = true;
  connect = in_progress;
}

abbrev writable : WaitResult
writable = woke (
    ready (record {
      fd = 9;
      hang_up = false;
      writable = true;
      readable = false;
      so_error = false;
      sends = slow;
      reads = [];
    })
    ∷ [])

poll_once-Linked_example :
    Linked (poll_once true ((opening, accepted) ∷ (sending, accepted) ∷ []) 7 writable 8 idle).0
poll_once-Linked_example =
    poll_once-Linked true ((opening, accepted) ∷ (sending, accepted) ∷ []) 7 writable 8 idle tt

-- Where `epoll` does not take the socket, its descriptor is closed twice.
double_close_run :
    (handle_create_tcp opening (record accepted { epoll_added = false }) idle).closed ≡ 9 ∷ 9 ∷ []
unfolding handle_create_tcp create_at open_with tcp_socket remove_connection remove_found forget_fd
    report
double_close_run = refl

abbrev front : Front
front = record { started = true; next_conn_id = 1; head = [] }

abbrev granted : SubmitAnswer
granted = record { allocated = true; wake = no_wake_fd }

abbrev requests : List Call
requests =
    tcp opening.endpoint 3000 granted
    ∷ sends 1 (codes "GET") granted
    ∷ udp opening.endpoint (record granted { allocated = false })
    ∷ udp opening.endpoint granted
    ∷ closes 1 granted
    ∷ []

calls_run : (calls requests front).1 ≡ 1 ∷ 3 ∷ []
unfolding calls
calls_run = refl

calls-Rising_example : Rising 1 (calls requests front).1 (calls requests front).0.next_conn_id
calls-Rising_example = calls-Rising requests front (omega arith)

-- Two commands wait for reuse, 1 in front of 2, and two threads take from them.
abbrev two_free : Recycler
two_free = record {
  free_head = some 1;
  links = (1, some 2) ∷ (2, none) ∷ [];
  fresh = 3;
  threads = outside ∷ outside ∷ [];
  handed = [];
}

-- Thread 0 reads the head 1 and its link 2; thread 1 takes 1 and 2 and 1 is released; thread 0
-- swaps 1 for 2, and thread 1 takes 2 again.
abbrev swapped_back : List Recycle.Use
swapped_back =
    acquires 0 false
    ∷ acquires 0 false
    ∷ acquires 1 false
    ∷ acquires 1 false
    ∷ acquires 1 false
    ∷ acquires 1 false
    ∷ acquires 1 false
    ∷ acquires 1 false
    ∷ releases 1
    ∷ acquires 0 false
    ∷ acquires 1 false
    ∷ acquires 1 false
    ∷ acquires 1 false
    ∷ []

-- The command 2 has been handed out twice.
handed_twice : (recycle swapped_back two_free).handed ≡ 2 ∷ 1 ∷ 2 ∷ []
unfolding recycle
handed_twice = refl

abbrev started_once : List WorkerCall
started_once =
    starts (record { epoll = some 3; wake = none; added = true })
    ∷ starts (record { epoll = some 3; wake = some 4; added = true })
    ∷ submits (sends 1 (7 ∷ []) (record { allocated = true; wake = written }))
    ∷ stops
    ∷ []

worker_calls-Lawful_example : Lawful (worker_calls started_once new_worker)
worker_calls-Lawful_example = worker_calls-Lawful started_once

-- A failed start and one that is stopped leave nothing open.
all_closed : (worker_calls started_once new_worker).closed ≡ 3 ∷ 4 ∷ 3 ∷ []
unfolding worker_calls
all_closed = refl

-- ===== src/Net/Errors.antt =====
-- src/net/network.h: the error codes; `NetErrorCategory::message` of network.cpp.
use Prim.Native.String.{String}
use titan_bench.Base.{ℕ}

pub data NetErrc : Type 0 where
  k_ok k_invalid_argument k_not_started k_resolve_failed k_socket_create_failed : NetErrc
  k_set_non_blocking_failed k_epoll_create_failed k_epoll_ctl_failed : NetErrc
  k_event_fd_create_failed k_io_failed k_timeout k_connection_not_found k_queue_full : NetErrc
  k_already_started : NetErrc

-- A `std::error_code` that is set: of this category, or of the system's with its `errno`.
pub data ErrorCode : Type 0 where
  net : NetErrc → ErrorCode
  system : ℕ → ErrorCode

unfoldable pub message : NetErrc → String
message k_ok = "ok"
message k_invalid_argument = "invalid argument"
message k_not_started = "network worker not started"
message k_resolve_failed = "dns resolve failed"
message k_socket_create_failed = "socket create failed"
message k_set_non_blocking_failed = "set non-blocking failed"
message k_epoll_create_failed = "epoll create failed"
message k_epoll_ctl_failed = "epoll ctl failed"
message k_event_fd_create_failed = "eventfd create failed"
message k_io_failed = "io failed"
message k_timeout = "connection timeout"
message k_connection_not_found = "connection not found"
message k_queue_full = "command queue allocation failed"
message k_already_started = "already started"

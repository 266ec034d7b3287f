-- ===== src/Tls/Wait.antt =====
-- src/net/ssl.cpp: the error messages, `PollFd`, `WaitFdReadable`, `WaitFdWritable`. The caller's
-- `error` is never null in the program; a failure is the message written to it.
use Prim.Native.String.{String}
use titan_bench.Base.{
  ℕ, Bool, true, false, ◌++◌, Option, none, some, take, if◌then◌else◌, ℤ, Bytes, codes, print_int,
}

-- A message of the source, or one of `SetErrorMessage` with the code that wolfSSL gives.
pub data Failure : Type 0 where
  plain : String → Failure
  wolf : String → ℤ → Failure

-- The text of a failure; `SetErrorMessage` prints into 256 bytes, the last one a zero.
unfoldable pub error_text : Failure → Bytes
unfolding print_int
error_text (plain message) = codes message
error_text (wolf prefix err) =
    take 255 (codes prefix ++ (codes " (wolfssl err=" ++ (print_int err ++ codes ")")))

-- What a call of the source returns, when it returns: waits may go on past the answers that are
-- given.
pub data Return (A : Type 0) : Type 0 where
  returns : A → Return A
  going_on : Return A

-- What the calls of `poll` answer in one wait: any number of interruptions and then a result.
pub data Polls : Type 0 where
  interrupted : Polls → Polls
  ready timed_out poll_failed : Polls

unfoldable pub poll_fd : Polls → Bool
poll_fd (interrupted rest) = poll_fd rest
poll_fd ready = true
poll_fd timed_out = false
poll_fd poll_failed = false

-- `none` is the success of the wait, and a descriptor is missing when `fd_` is negative.
unfoldable pub wait_fd_readable : Option ℕ → Polls → Option Failure
unfolding poll_fd
wait_fd_readable none polls = some (plain "invalid fd")
wait_fd_readable (some fd) polls =
    if poll_fd polls then none else some (plain "wait readable timeout/failure")

unfoldable pub wait_fd_writable : Option ℕ → Polls → Option Failure
unfolding poll_fd
wait_fd_writable none polls = some (plain "invalid fd")
wait_fd_writable (some fd) polls =
    if poll_fd polls then none else some (plain "wait writable timeout/failure")

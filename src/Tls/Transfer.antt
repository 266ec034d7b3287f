-- ===== src/Tls/Transfer.antt =====
-- src/net/ssl.cpp: `Send` and `Recv`. A request is shorter than 2^31 bytes, so that the casts to
-- `int` change nothing.
use titan_bench.Base.{
  ℕ, suc, ◌+◌, Bool, true, false, not, List, [], ◌∷◌, ◌++◌, Option, none, some, length, take, drop,
  min, ◌==◌, ◌||◌, is_empty, if◌then◌else◌, Bytes,
}
use titan_bench.Tls.Wait.{Failure, plain, Return, returns, going_on, Polls}
use titan_bench.Tls.Client.{Client, SslError, wait_for}

-- One call of `wolfSSL_write`: it takes some of the bytes, at least one and no more than there are,
-- or fails, with what the wait behind it meets.
pub data WriteAnswer : Type 0 where
  wrote : ℕ → WriteAnswer
  not_written : SslError → Polls → WriteAnswer

-- What a transfer comes to: a number of bytes, or a failure, for which the source returns -1.
pub data Moved : Type 0 where
  moved : ℕ → Moved
  move_failed : Failure → Moved

-- The bytes that wolfSSL took, and the result.
pub record Sent : Type 0 where
  pub wire : Bytes
  pub result : Return Moved

unfoldable pub waited : Sent → Option Failure → Sent
waited next none = next
waited next (some f) = record { wire = []; result = returns (move_failed f) }

-- `next` sends the bytes that are left from the offset it is given.
unfoldable pub on_write : Option ℕ → (ℕ → Bytes → Sent) → ℕ → Bytes → WriteAnswer → Sent
unfolding waited wait_for
on_write fd next offset left (wrote n) =
    let taken = min (suc n) (length left) in
    let rest = next (offset + taken) (drop taken left) in
    record rest { wire = take taken left ++ rest.wire }
on_write fd next offset left (not_written err polls) =
    waited (next offset left) (wait_for "wolfSSL_write failed" fd polls err)

-- `while (offset < len)`, with the bytes from the offset on, for the calls that are met.
unfoldable pub send_loop : Option ℕ → List WriteAnswer → ℕ → Bytes → Sent
unfolding on_write
send_loop fd answers offset [] = record { wire = []; result = returns (moved offset) }
send_loop fd [] offset (b ∷ bs) = record { wire = []; result = going_on }
send_loop fd (a ∷ answers) offset (b ∷ bs) =
    on_write fd (λ o left. send_loop fd answers o left) offset (b ∷ bs) a

abbrev pub has_object : Client → Bool
has_object c = elim c.ssl [ none ↦ false | some x ↦ true ]

unfoldable pub send : Client → Bytes → List WriteAnswer → Sent
unfolding send_loop
send c data' answers =
    if not c.connected || (not (has_object c) || is_empty data')
    then record { wire = []; result = returns (move_failed (plain "invalid send state")) }
    else send_loop c.fd answers 0 data'

-- One call of `wolfSSL_read`: a piece of at least one byte, the end of the connection, or an error.
pub data ReadAnswer : Type 0 where
  got : ℕ → Bytes → ReadAnswer
  ended : ReadAnswer
  not_read : SslError → Polls → ReadAnswer

-- The bytes received, none at the end of the connection, or a failure.
pub data Received : Type 0 where
  received : Bytes → Received
  read_failed : Failure → Received

unfoldable pub waited_read : Return Received → Option Failure → Return Received
waited_read next none = next
waited_read next (some f) = returns (read_failed f)

unfoldable pub on_read : Option ℕ → ℕ → Return Received → ReadAnswer → Return Received
unfolding waited_read wait_for
on_read fd room next (got b bs) = returns (received (take room (b ∷ bs)))
on_read fd room next ended = returns (received [])
on_read fd room next (not_read err polls) =
    waited_read next (wait_for "wolfSSL_read failed" fd polls err)

-- `while (true)`, for the calls that are met.
unfoldable pub recv_loop : Option ℕ → ℕ → List ReadAnswer → Return Received
unfolding on_read
recv_loop fd room [] = going_on
recv_loop fd room (a ∷ answers) = on_read fd room (recv_loop fd room answers) a

-- Into a buffer with room for `room` bytes.
unfoldable pub recv : Client → ℕ → List ReadAnswer → Return Received
unfolding recv_loop
recv c room answers =
    if not c.connected || (not (has_object c) || room == 0)
    then returns (read_failed (plain "invalid recv state"))
    else recv_loop c.fd room answers

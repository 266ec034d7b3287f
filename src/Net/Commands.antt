-- ===== src/Net/Commands.antt =====
-- src/net/network.cpp: the command queue, a stack that submitters push onto and that the worker
-- takes whole and reverses. A push is one step: its compare-and-swap makes it so.
use titan_bench.Base.{
  ℕ, ◌≡◌, refl, sym, ap, ◌∙◌, List, [], ◌∷◌, ◌++◌, append-nil, append_assoc, Option, none, some,
  Bytes,
}
use titan_bench.Net.Errors.{NetErrc, k_io_failed}

pub data CommandType : Type 0 where
  k_create_tcp k_create_udp k_send k_close : CommandType

pub record Endpoint : Type 0 where
  pub host : Bytes
  pub port : ℕ

pub record Command : Type 0 where
  pub kind : CommandType
  pub conn_id : ℕ
  pub endpoint : Endpoint
  pub connect_timeout_ms : ℕ
  pub payload : Bytes

-- `write` on the wake descriptor.
pub data WakeResult : Type 0 where
  no_wake_fd written full wake_failed : WakeResult

woken : WakeResult → Option NetErrc
woken wake_failed = some k_io_failed
woken _ = none

-- The command is in the queue even where an error is returned.
unfoldable pub enqueue_command : WakeResult → Command → List Command → List Command × Option NetErrc
unfolding woken
enqueue_command wake c head = (c ∷ head, woken wake)

-- The loop that turns the links round: `prev` grows by the nodes of the stack.
unfoldable pub turn_round : List Command → List Command → List Command
turn_round prev [] = prev
turn_round prev (node ∷ stack) = turn_round (node ∷ prev) stack

-- The commands to handle, and the queue that is left.
unfoldable pub drain_commands : List Command → List Command × List Command
unfolding turn_round
drain_commands head = (turn_round [] head, [])

-- What the threads do to the queue: submit a command, or drain it.
pub data Use : Type 0 where
  submit : WakeResult → Command → Use
  drain : Use

pub record Queue : Type 0 where
  pub head : List Command
  pub handled : List Command

unfoldable pub use_queue : List Use → Queue → Queue
unfolding enqueue_command drain_commands
use_queue [] q = q
use_queue (submit wake c ∷ us) q =
    use_queue us (record q { head = (enqueue_command wake c q.head).0 })
use_queue (drain ∷ us) q =
    use_queue us (record {
      head = (drain_commands q.head).1;
      handled = q.handled ++ (drain_commands q.head).0;
    })

abbrev pub submitted : List Use → List Command
submitted [] = []
submitted (submit wake c ∷ us) = c ∷ submitted us
submitted (drain ∷ us) = submitted us

turn_round-append :
    (prev stack : List Command) → turn_round prev stack ≡ turn_round [] stack ++ prev
unfolding turn_round
turn_round-append prev [] = refl
turn_round-append prev (node ∷ stack) =
    turn_round-append (node ∷ prev) stack
    ∙ (sym (append_assoc (turn_round [] stack) (node ∷ []) prev)
        ∙ ap (λ l. l ++ prev) (sym (turn_round-append (node ∷ []) stack)))

-- From any state of the queue and for any interleaving of submissions and drains, the commands
-- handled so far and then the ones in the queue are the earlier ones and then the ones submitted, in the order
-- of their submission: none is lost, doubled or overtaken.
pub use_queue-submitted :
    (us : List Use) (q : Queue)
    → (use_queue us q).handled ++ turn_round [] (use_queue us q).head
      ≡ (q.handled ++ turn_round [] q.head) ++ submitted us
unfolding use_queue drain_commands enqueue_command turn_round
use_queue-submitted [] q = sym (append-nil (q.handled ++ turn_round [] q.head))
use_queue-submitted (submit wake c ∷ us) q =
    use_queue-submitted us (record q { head = c ∷ q.head })
    ∙ (ap (λ l. (q.handled ++ l) ++ submitted us) (turn_round-append (c ∷ []) q.head)
        ∙ (ap (λ l. l ++ submitted us)
              (sym (append_assoc q.handled (turn_round [] q.head) (c ∷ [])))
            ∙ append_assoc (q.handled ++ turn_round [] q.head) (c ∷ []) (submitted us)))
use_queue-submitted (drain ∷ us) q =
    use_queue-submitted us (record { head = []; handled = q.handled ++ turn_round [] q.head })
    ∙ ap (λ l. l ++ submitted us) (append-nil (q.handled ++ turn_round [] q.head))

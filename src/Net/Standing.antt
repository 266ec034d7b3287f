-- ===== src/Net/Standing.antt =====
-- src/net/network.cpp: what a worker holds while it is started and while it is not.
use titan_bench.Base.{
  ℕ, ◌≡◌, refl, sym, subst, ◌∙◌, Bool, true, false, ◌||◌, List, [], ◌∷◌, Option, none, some, arith,
  count_if, ◌==◌, if_holds, is_empty,
}
use titan_bench.Net.Errors.{NetErrc}
use titan_bench.Net.Commands.{Command, k_create_tcp, k_create_udp}
use titan_bench.Net.Linked.{Linked}
use titan_bench.Net.Polled.{poll_once-Linked}
use titan_bench.Net.Interface.{
  Front, blank, Reply, SubmitAnswer, pushed, push, create, create_tcp_connection,
  create_udp_connection, post, send, close, Call, tcp, udp, sends, closes, call,
}
use titan_bench.Net.Lifecycle.{
  Worker, new_worker, and_fd, shutdown_all, set_started, StartAnswer, with_wake, with_epoll, start,
  stop, PollAnswer, poll, WorkerCall, starts, stops, polls, submits, worker_call, worker_calls,
}

abbrev pub is_there : Option ℕ → Bool
is_there none = false
is_there (some fd) = true

-- A started worker has both descriptors; one that is not started has none, no connection, no entry
-- for a descriptor and no command in its queue.
abbrev pub At : Bool → Worker → Type 0
At true w = (is_there w.epoll_fd ≡ true) × (is_there w.wake_fd ≡ true)
At false w =
    (w.epoll_fd ≡ none)
    × ((w.wake_fd ≡ none)
        × ((w.impl.connections ≡ []) × ((w.impl.fd_to_conn ≡ []) × (w.front.head ≡ []))))

abbrev pub times : ℕ → List ℕ → ℕ
times fd fds = count_if (λ x. x == fd) fds

-- Each descriptor was opened as often as it is held or was closed.
abbrev pub Ledger : Worker → Type 0
Ledger w = (fd : ℕ) → times fd w.opened ≡ times fd (and_fd w.epoll_fd (and_fd w.wake_fd w.closed))

pub record Lawful (w : Worker) : Type 0 where
  pub standing : At w.front.started w
  pub ledger : Ledger w
  pub linked : Linked w.impl

shutdown_all-Lawful : (w : Worker) → Ledger w → Lawful (set_started false (shutdown_all w))
unfolding shutdown_all
shutdown_all-Lawful w l = record {
  standing = (refl, (refl, (refl, (refl, refl))));
  ledger = l;
  linked = tt;
}

with_wake-Lawful :
    (a : StartAnswer) (w : Worker) (o : Option ℕ)
    → w.front.started ≡ true
    → is_there w.epoll_fd ≡ true
    → w.wake_fd ≡ none
    → Ledger w
    → Linked w.impl
    → Lawful (with_wake a w o).0
unfolding with_wake
with_wake-Lawful a w none up e n l k = shutdown_all-Lawful w l
with_wake-Lawful a w (some fd) up e n l k =
    let w' : Worker = record w { wake_fd = some fd; opened = fd ∷ w.opened } in
    let l' : Ledger w' = λ f.
      in_front w.epoll_fd fd f
        (subst (λ o. times f w.opened ≡ times f (and_fd w.epoll_fd (and_fd o w.closed))) n (l f)) in
    if_holds (λ (r : Worker × Option NetErrc). Lawful r.0) a.added _ _
      (λ _. record { standing = subst (λ b. At b w') (sym up) (e, refl); ledger = l'; linked = k })
      (λ _. shutdown_all-Lawful w' l')
  where
    in_front :
        (o : Option ℕ) (fd f : ℕ)
        → times f w.opened ≡ times f (and_fd o w.closed)
        → times f (fd ∷ w.opened) ≡ times f (and_fd o (fd ∷ w.closed))
    in_front none fd f h = omega (arith, h)
    in_front (some e) fd f h = omega (arith, h)

with_epoll-Lawful :
    (a : StartAnswer) (w : Worker) (o : Option ℕ)
    → At false w
    → Ledger w
    → Linked w.impl
    → Lawful (with_epoll a (set_started true w) o).0
unfolding with_epoll
with_epoll-Lawful a w none h l k = record {
  standing = (refl, h.1);
  ledger =
      λ f. subst (λ o. times f w.opened ≡ times f (and_fd o (and_fd w.wake_fd w.closed))) h.0 (l f);
  linked = k;
}
with_epoll-Lawful a w (some fd) h l k =
    with_wake-Lawful a (record (set_started true w) { epoll_fd = some fd; opened = fd ∷ w.opened })
      a.wake refl refl h.1.0
      (λ f. omega (
        arith,
        subst (λ o. times f w.opened ≡ times f (and_fd o (and_fd w.wake_fd w.closed))) h.0 (l f),
      ))
      k

start-Lawful : (a : StartAnswer) (w : Worker) → Lawful w → Lawful (start a w).0
unfolding start
start-Lawful a w s =
    if_holds (λ (r : Worker × Option NetErrc). Lawful r.0) w.front.started _ _ (λ _. s)
      (λ down.
        with_epoll-Lawful a w a.epoll (subst (λ b. At b w) down s.standing) s.ledger s.linked)

stop-Lawful : (w : Worker) → Lawful w → Lawful (stop w).0
unfolding stop shutdown_all
stop-Lawful w s =
    if_holds (λ (r : Worker × Option NetErrc). Lawful r.0) w.front.started _ _
      (λ _. record {
        standing = (refl, (refl, (refl, (refl, refl))));
        ledger = s.ledger;
        linked = tt;
      })
      (λ _. s)

-- A started worker, with other connections and another queue.
busy-At :
    (w v : Worker)
    → w.front.started ≡ true
    → v.front.started ≡ true
    → v.epoll_fd ≡ w.epoll_fd
    → v.wake_fd ≡ w.wake_fd
    → At w.front.started w
    → At v.front.started v
busy-At w v up up' e k h =
    let at = subst (λ b. At b w) up h in subst (λ b. At b v) (sym up') (rw e at.0, rw k at.1)

poll-Lawful : (a : PollAnswer) (w : Worker) → Lawful w → Lawful (poll a w).0
unfolding poll
poll-Lawful a w s =
    if_holds (λ (r : Worker × Option NetErrc). Lawful r.0) w.front.started _ _
      (λ up. record {
        standing = busy-At w _ up up refl refl s.standing;
        ledger = s.ledger;
        linked = poll_once-Linked true _ a.before a.wait a.after w.impl s.linked;
      })
      (λ _. s)

-- A call of the interface leaves the state alone, and the queue of a worker that is not started.
abbrev SameQueue : Bool → Front → Front → Type 0
SameQueue true f g = Unit
SameQueue false f g = g.head ≡ f.head

record Beside (f g : Front) : Type 0 where
  started : g.started ≡ f.started
  queue : SameQueue f.started f g

beside : (f : Front) → Beside f f
beside f = record { started = refl; queue = same f.started }
  where
    same : (b : Bool) → SameQueue b f f
    same true = tt
    same false = refl

any_queue : (f g : Front) → f.started ≡ true → SameQueue f.started f g
any_queue f g up = subst (λ b. SameQueue b f g) (sym up) tt

push-Beside :
    (a : SubmitAnswer) (id : Option ℕ) (c : Command) (f g : Front)
    → f.started ≡ true
    → g.started ≡ true
    → Beside f (push a id c g).0
unfolding push pushed
push-Beside a id c f g up up' =
    if_holds (λ (r : Front × Reply). Beside f r.0) a.allocated _ _
      (λ _. record { started = cc; queue = any_queue f _ up })
      (λ _. record { started = cc; queue = any_queue f g up })

create-Beside : (a : SubmitAnswer) (c : Command) (f : Front) → Beside f (create a c f).0
unfolding create
create-Beside a c f =
    if_holds (λ (r : Front × Reply). Beside f r.0) f.started _ _ (λ up. push-Beside a _ _ f _ up up)
      (λ _. beside f)

post-Beside : (a : SubmitAnswer) (c : Command) (f : Front) → Beside f (post a c f).0
unfolding post
post-Beside a c f =
    if_holds (λ (r : Front × Reply). Beside f r.0) f.started _ _ (λ up. push-Beside a _ _ f _ up up)
      (λ _. beside f)

call-Beside : (c : Call) (f : Front) → Beside f (call c f).0
unfolding call create_tcp_connection create_udp_connection send close
call-Beside (tcp e timeout a) f =
    if_holds (λ (r : Front × Reply). Beside f r.0)
      (is_empty e.host || (e.port == 0 || timeout == 0)) _ _ (λ _. beside f)
      (λ _.
        create-Beside a
          (record blank { kind = k_create_tcp; endpoint = e; connect_timeout_ms = timeout }) f)
call-Beside (udp e a) f =
    if_holds (λ (r : Front × Reply). Beside f r.0) (is_empty e.host || e.port == 0) _ _
      (λ _. beside f) (λ _. create-Beside a (record blank { kind = k_create_udp; endpoint = e }) f)
call-Beside (sends id payload a) f =
    if_holds (λ (r : Front × Reply). Beside f r.0) (id == 0 || is_empty payload) _ _ (λ _. beside f)
      (λ _. post-Beside a _ f)
call-Beside (closes id a) f =
    if_holds (λ (r : Front × Reply). Beside f r.0) (id == 0) _ _ (λ _. beside f)
      (λ _. post-Beside a _ f)

submit-At :
    (b : Bool) (w : Worker) (g : Front)
    → SameQueue b w.front g
    → At b w
    → At b (record w { front = g })
submit-At true w g q h = h
submit-At false w g q h = (h.0, (h.1.0, (h.1.1.0, (h.1.1.1.0, q ∙ h.1.1.1.1))))

worker_call-Lawful : (x : WorkerCall) (w : Worker) → Lawful w → Lawful (worker_call x w)
unfolding worker_call
worker_call-Lawful (starts a) w s = start-Lawful a w s
worker_call-Lawful stops w s = stop-Lawful w s
worker_call-Lawful (polls a) w s = poll-Lawful a w s
worker_call-Lawful (submits c) w s =
    let b = call-Beside c w.front in
    record {
      standing =
          subst (λ k. At k (record w { front = (call c w.front).0 })) (sym b.started)
            (submit-At w.front.started w (call c w.front).0 b.queue s.standing);
      ledger = s.ledger;
      linked = s.linked;
    }

worker_calls_keep : (xs : List WorkerCall) (w : Worker) → Lawful w → Lawful (worker_calls xs w)
unfolding worker_calls
worker_calls_keep [] w s = s
worker_calls_keep (x ∷ xs) w s = worker_calls_keep xs (worker_call x w) (worker_call-Lawful x w s)

-- After any sequence of starts, stops, polls and submissions on a new worker, whatever the system
-- answers, failed starts included: while the worker is started it has its epoll and its wake-up
-- descriptor; while it is not it has neither, no connection, no entry for a descriptor and no
-- command in its queue; every descriptor of these two kinds was opened as often as it is held or
-- has been closed; and every entry for a socket leads to a connection that has this socket.
pub worker_calls-Lawful : (xs : List WorkerCall) → Lawful (worker_calls xs new_worker)
worker_calls-Lawful xs =
    worker_calls_keep xs new_worker
      (record { standing = (refl, (refl, (refl, (refl, refl)))); ledger = λ f. refl; linked = tt })

-- ===== src/Net/Fresh.antt =====
-- src/net/network.cpp: the ids that the submitting interface hands out.
use titan_bench.Base.{
  ℕ, suc, ◌+◌, ◌≤◌, ◌<◌, ◌≡◌, ◌||◌, List, [], ◌∷◌, Option, none, some, ◌==◌, u64, arith, length,
  if_holds, is_empty,
}
use titan_bench.Net.Commands.{Command, k_create_tcp, k_create_udp}
use titan_bench.Net.Interface.{
  Front, SubmitAnswer, Reply, blank, pushed, push, create, post, create_tcp_connection,
  create_udp_connection, send, close, Call, tcp, udp, sends, closes, call, calls, handed,
}

-- The ids rise from the first one on, below the last.
abbrev pub Rising : ℕ → List ℕ → ℕ → Type 0
Rising from [] to = from ≤ to
Rising from (id ∷ ids) to = (from ≤ id) × Rising (suc id) ids to

-- A call hands out the next id or none, and the next id moves on by one at most.
pub data Hands (f : Front) : Front × Reply → Type 0 where
  hands :
      (g : Front) (err : Option _)
      → g.next_conn_id ≡ f.next_conn_id + 1
      → Hands f (g, (err, some f.next_conn_id))
  hands_none :
      (g : Front) (err : Option _)
      → f.next_conn_id ≤ g.next_conn_id
      → g.next_conn_id ≤ f.next_conn_id + 1
      → Hands f (g, (err, none))

push-Hands :
    (a : SubmitAnswer) (c : Command) (f g : Front)
    → g.next_conn_id ≡ f.next_conn_id + 1
    → Hands f (push a (some f.next_conn_id) c g)
unfolding push pushed
push-Hands a c f g e =
    if_holds (Hands f) a.allocated _ _ (λ _. hands _ _ e)
      (λ _. hands_none g _ (omega (arith, e)) (omega (arith, e)))

post-Hands : (a : SubmitAnswer) (c : Command) (f : Front) → Hands f (post a c f)
unfolding post push pushed
post-Hands a c f =
    if_holds (Hands f) f.started _ _
      (λ _.
        if_holds (Hands f) a.allocated _ _ (λ _. hands_none _ _ (omega arith) (omega arith))
          (λ _. hands_none f _ (omega arith) (omega arith)))
      (λ _. hands_none f _ (omega arith) (omega arith))

create-Hands :
    (a : SubmitAnswer) (c : Command) (f : Front) → f.next_conn_id + 1 < u64 → Hands f (create a c f)
unfolding create
create-Hands a c f small =
    if_holds (Hands f) f.started _ _ (λ _. push-Hands a _ f _ (omega (arith, small)))
      (λ _. hands_none f _ (omega arith) (omega arith))

call-Hands : (c : Call) (f : Front) → f.next_conn_id + 1 < u64 → Hands f (call c f)
unfolding call create_tcp_connection create_udp_connection send close
call-Hands (tcp e timeout a) f small =
    if_holds (Hands f) (is_empty e.host || (e.port == 0 || timeout == 0)) _ _
      (λ _. hands_none f _ (omega arith) (omega arith))
      (λ _.
        create-Hands a
          (record blank { kind = k_create_tcp; endpoint = e; connect_timeout_ms = timeout }) f
          small)
call-Hands (udp e a) f small =
    if_holds (Hands f) (is_empty e.host || e.port == 0) _ _
      (λ _. hands_none f _ (omega arith) (omega arith))
      (λ _. create-Hands a (record blank { kind = k_create_udp; endpoint = e }) f small)
call-Hands (sends id payload a) f small =
    if_holds (Hands f) (id == 0 || is_empty payload) _ _
      (λ _. hands_none f _ (omega arith) (omega arith)) (λ _. post-Hands a _ f)
call-Hands (closes id a) f small =
    if_holds (Hands f) (id == 0) _ _ (λ _. hands_none f _ (omega arith) (omega arith))
      (λ _. post-Hands a _ f)

Rising-le : (a b to : ℕ) (ids : List ℕ) → a ≤ b → Rising b ids to → Rising a ids to
Rising-le a b to [] h r = omega arith
Rising-le a b to (id ∷ ids) h r = (omega (arith, r.0), r.1)

one_call :
    (f : Front) (r : Front × Reply) (n : ℕ) (ids : List ℕ) (to : ℕ)
    → Hands f r
    → f.next_conn_id + suc n < u64
    → (r.0.next_conn_id + n < u64 → Rising r.0.next_conn_id ids to)
    → Rising f.next_conn_id (handed r.1.1 ids) to
one_call f _ n ids to (hands g err e) small rest =
    (omega arith, Rising-le _ g.next_conn_id to ids (omega (arith, e)) (rest (omega (arith, e))))
one_call f _ n ids to (hands_none g err low high) small rest =
    Rising-le _ g.next_conn_id to ids low (rest (omega (arith, high)))

-- While fewer than 2^64 ids are taken, the ids that the calls hand out, of all threads in the order in which
-- they take them, rise strictly, from the next id on and below the one that is next at the end: no id is handed
-- out twice.
pub calls-Rising :
    (cs : List Call) (f : Front)
    → f.next_conn_id + length cs < u64
    → Rising f.next_conn_id (calls cs f).1 (calls cs f).0.next_conn_id
unfolding calls
calls-Rising [] f small = omega arith
calls-Rising (c ∷ cs) f small =
    one_call f (call c f) (length cs) _ _ (call-Hands c f (omega arith)) (omega arith)
      (λ h. calls-Rising cs (call c f).0 h)

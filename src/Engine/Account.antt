-- ===== src/Engine/Account.antt =====
-- src/core/engine.cpp: the books of an event-driven worker, and its sending side.
use mathlib.Core.Logic.{◌⊎◌}
use titan_bench.Base.{
  ℕ, ◌%◌, ◌≤◌, ◌≡◌, refl, sym, ap, ◌∙◌, Bool, true, false, not, ◌||◌, List, [], ◌∷◌, Option, none,
  some, length, count_if, All, ltb, leb, ◌==◌, u64, arith, if_holds, inl, inr, leb→lt,
}
use titan_bench.Stats.Sample.{RequestSample}
use titan_bench.Cli.Options.{Protocol, k_http, k_https, k_tcp, k_udp, Config}
use titan_bench.Engine.Quota.{acquire_request_quota}
use titan_bench.Engine.Worker.{
  Session, new_session, Work, succeed, fail, SendAnswer, Sessions, find_session, erase_session,
  put_session, create_connection, create_all, request_limit, max_retry_per_session, sent_over,
  after_send, with_quota, send_turn, send_round,
}

-- The counters are the numbers of samples, modulo 2^64.
pub record Balanced (w : Work) : Type 0 where
  pub completed : w.completed ≡ length w.samples % u64
  pub succeeded : w.succeeded ≡ count_if (λ x. x.success) w.samples % u64
  pub failed : w.failed ≡ count_if (λ x. not x.success) w.samples % u64

pub succeed-Balanced :
    (x : RequestSample) (w : Work) → x.success ≡ true → Balanced w → Balanced (succeed x w)
unfolding succeed
succeed-Balanced x w h b = record {
  completed = omega (arith, b.completed);
  succeeded = rw h (omega (arith, b.succeeded));
  failed = rw h (omega (arith, b.failed));
}

pub fail-Balanced :
    (x : RequestSample) (w : Work) → x.success ≡ false → Balanced w → Balanced (fail x w)
unfolding fail
fail-Balanced x w h b = record {
  completed = omega (arith, b.completed);
  succeeded = rw h (omega (arith, b.succeeded));
  failed = rw h (omega (arith, b.failed));
}

-- Counters that the samples do not see.
pub same_counts :
    (w v : Work)
    → Balanced w
    → v.completed ≡ w.completed
    → v.succeeded ≡ w.succeeded
    → v.failed ≡ w.failed
    → v.samples ≡ w.samples
    → Balanced v
same_counts w v b c s f x = record {
  completed = c ∙ (b.completed ∙ ap (λ l. length l % u64) (sym x));
  succeeded = s ∙ (b.succeeded ∙ ap (λ l. count_if (λ x. x.success) l % u64) (sym x));
  failed = f ∙ (b.failed ∙ ap (λ l. count_if (λ x. not x.success) l % u64) (sym x));
}

-- With a number of requests, no more are started.
abbrev pub Within : Config → Work → Type 0
Within config w = (config.has_requests ≡ false) ⊎ (w.started ≤ request_limit config.requests)

-- A session is stored under its connection, and has been retried three times at most.
abbrev pub Kept : ℕ × Session → Type 0
Kept (id, s) = (s.conn_id ≡ id) × (s.retries ≤ max_retry_per_session)

pub put-Kept :
    (id : ℕ) (s : Session) (xs : Sessions)
    → Kept (id, s)
    → All Kept xs
    → All Kept (put_session id s xs)
put-Kept id s [] h k = (h, tt)
put-Kept id s ((j, t) ∷ rest) h k =
    if_holds (All Kept) (j == id) _ _ (λ _. (h, k.1)) (λ _. (k.0, put-Kept id s rest h k.1))

pub erase-Kept : (id : ℕ) (xs : Sessions) → All Kept xs → All Kept (erase_session id xs)
erase-Kept id [] k = tt
erase-Kept id ((j, t) ∷ rest) k =
    if_holds (All Kept) (j == id) _ _ (λ _. erase-Kept id rest k.1)
      (λ _. (k.0, erase-Kept id rest k.1))

-- What was found, if anything was.
abbrev pub FoundKept : Option Session → Type 0
FoundKept none = Unit
FoundKept (some s) = s.retries ≤ max_retry_per_session

pub find-FoundKept : (id : ℕ) (xs : Sessions) → All Kept xs → FoundKept (find_session id xs)
find-FoundKept id [] k = tt
find-FoundKept id ((j, t) ∷ rest) k =
    if_holds FoundKept (j == id) (some t) (find_session id rest) (λ _. k.0.1)
      (λ _. find-FoundKept id rest k.1)

-- A step that leaves the session's place in the map and its retries alone.
pub record Turned (config : Config) (s : Session) (r : Session × Work) : Type 0 where
  pub conn_id : r.0.conn_id ≡ s.conn_id
  pub retries : r.0.retries ≡ s.retries
  pub balanced : Balanced r.1
  pub within : Within config r.1

sent_over-Turned :
    (config : Config) (p : Protocol) (size : ℕ) (a : SendAnswer) (s : Session) (w : Work)
    → Balanced w
    → Within config w
    → Turned config s (sent_over p size a s w)
unfolding sent_over succeed
sent_over-Turned config k_tcp size a s w b i = record {
  conn_id = refl;
  retries = refl;
  balanced = succeed-Balanced _ w refl b;
  within = i;
}
sent_over-Turned config k_udp size a s w b i = record {
  conn_id = refl;
  retries = refl;
  balanced = succeed-Balanced _ w refl b;
  within = i;
}
sent_over-Turned config k_http size a s w b i = record {
  conn_id = refl;
  retries = refl;
  balanced = b;
  within = i;
}
sent_over-Turned config k_https size a s w b i = record {
  conn_id = refl;
  retries = refl;
  balanced = b;
  within = i;
}

after_send-Turned :
    (config : Config) (p : Protocol) (size : ℕ) (a : SendAnswer) (s : Session) (e : Option _)
    (w : Work)
    → Balanced w
    → Within config w
    → Turned config s (after_send p size a s e w)
unfolding after_send fail
after_send-Turned config p size a s none w b i =
    sent_over-Turned config p size a s _
      (record { completed = b.completed; succeeded = b.succeeded; failed = b.failed }) i
after_send-Turned config p size a s (some e) w b i = record {
  conn_id = refl;
  retries = refl;
  balanced = fail-Balanced _ w refl b;
  within = i;
}

-- A grant stays within the limit.
pub acquire_le :
    (has : Bool) (limit started : ℕ)
    → (has ≡ false) ⊎ (started ≤ limit)
    → (has ≡ false) ⊎ ((acquire_request_quota has limit started).1 ≤ limit)
unfolding acquire_request_quota
acquire_le false limit started h = inl refl
acquire_le true limit started (inl h) = cc
acquire_le true limit started (inr h) =
    if_holds (λ (q : Bool × ℕ). (true ≡ false) ⊎ (q.1 ≤ limit)) (leb limit started) _ _ (λ _. inr h)
      (λ room. inr (omega (arith, leb→lt limit started room)))

with_quota-Turned :
    (config : Config) (size : ℕ) (a : SendAnswer) (s : Session) (q : Bool × ℕ) (w : Work)
    → Balanced w
    → Within config w
    → (config.has_requests ≡ false) ⊎ (q.1 ≤ request_limit config.requests)
    → Turned config s (with_quota config size a s q w)
unfolding with_quota
with_quota-Turned config size a s (false, started) w b i h = record {
  conn_id = refl;
  retries = refl;
  balanced = b;
  within = i;
}
with_quota-Turned config size a s (true, started) w b i h =
    after_send-Turned config config.protocol size a s a.error _
      (record { completed = b.completed; succeeded = b.succeeded; failed = b.failed }) h

send_turn-Turned :
    (config : Config) (size now : ℕ) (a : SendAnswer) (s : Session) (w : Work)
    → Balanced w
    → Within config w
    → Turned config s (send_turn config size now a s w)
unfolding send_turn
send_turn-Turned config size now a s w b i =
    if_holds (Turned config s) (s.conn_id == 0 || (s.in_flight || ltb now s.retry_at)) _ _
      (λ _. record { conn_id = refl; retries = refl; balanced = b; within = i })
      (λ _. with_quota-Turned config size a s _ w b i (acquire_le _ _ _ i))

-- The sessions and the counters together.
pub record Sound (config : Config) (sessions : Sessions) (w : Work) : Type 0 where
  pub balanced : Balanced w
  pub within : Within config w
  pub kept : All Kept sessions

pub send_round-Sound :
    (config : Config) (size now : ℕ) (answers : ℕ → SendAnswer) (xs : Sessions) (w : Work)
    → Sound config xs w
    → Sound config
        (send_round config size now answers xs w).0
        (send_round config size now answers xs w).1
unfolding send_round
send_round-Sound config size now answers [] w i = i
send_round-Sound config size now answers ((id, s) ∷ rest) w i =
    let t = send_turn-Turned config size now (answers id) s w i.balanced i.within in
    let r =
      send_round-Sound config size now answers rest (send_turn config size now (answers id) s w).1
        (record { balanced = t.balanced; within = t.within; kept = i.kept.1 }) in
    record {
      balanced = r.balanced;
      within = r.within;
      kept = ((t.conn_id ∙ i.kept.0.0, omega (arith, t.retries, i.kept.0.1)), r.kept);
    }

pub create_connection-Kept :
    (o : Option ℕ) (s : Session) (xs : Sessions)
    → s.retries ≤ max_retry_per_session
    → All Kept xs
    → All Kept (create_connection o s xs).0
unfolding create_connection
create_connection-Kept none s xs h k = k
create_connection-Kept (some id) s xs h k = put-Kept id _ xs (refl, h) k

pub create_all-Sound :
    (config : Config) (now : ℕ) (answers : List (Option ℕ)) (xs : Sessions) (w : Work)
    → Sound config xs w
    → Sound config (create_all now answers xs w).0 (create_all now answers xs w).1
unfolding create_all
create_all-Sound config now [] xs w i = i
create_all-Sound config now (none ∷ answers) xs w i = record {
  balanced = record {
    completed = i.balanced.completed;
    succeeded = i.balanced.succeeded;
    failed = i.balanced.failed;
  };
  within = i.within;
  kept = i.kept;
}
create_all-Sound config now (some id ∷ answers) xs w i =
    create_all-Sound config now answers _ w (record {
      balanced = i.balanced;
      within = i.within;
      kept = create_connection-Kept (some id) (new_session now) xs (omega arith) i.kept;
    })

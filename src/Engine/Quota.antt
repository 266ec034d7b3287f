-- ===== src/Engine/Quota.antt =====
-- src/core/engine.cpp: `AcquireRequestQuota`, alone and with threads that race for the quota. A
-- thread's load and its compare-and-swap are one step each; a weak compare-and-swap may fail
-- without a reason.
use titan_bench.Base.{
  ℕ, suc, zero, ◌+◌, ◌≤◌, ◌<◌, ◌≡◌, Bool, true, false, not, ◌&&◌, List, [], ◌∷◌, leb, ◌==◌,
  if◌then◌else◌, set, get_or, All, add64, u64, arith, if_holds, leb→lt,
}

-- What a call returns and leaves in `started`, when no other thread gets in between.
unfoldable pub acquire_request_quota : Bool → ℕ → ℕ → Bool × ℕ
acquire_request_quota false requests started = (true, started)
acquire_request_quota true requests started =
    if leb requests started then (false, started) else (true, add64 started 1)

-- A thread at the top of the loop, or past the test on the value it loaded.
pub data Phase : Type 0 where
  at_top : Phase
  tested : ℕ → Phase

-- `granted` and `denied` count the calls that returned true and false.
pub record Race : Type 0 where
  pub started : ℕ
  pub threads : List Phase
  pub granted : ℕ
  pub denied : ℕ

unfoldable pub turn : ℕ → ℕ → Bool → Phase → Race → Race
turn requests i spurious at_top r =
    if leb requests r.started
    then record r { denied = r.denied + 1 }
    else record r { threads = set r.threads i (tested r.started) }
turn requests i spurious (tested old) r =
    if old == r.started && not spurious
    then record r {
      started = add64 r.started 1;
      granted = r.granted + 1;
      threads = set r.threads i at_top;
    }
    else record r { threads = set r.threads i at_top }

-- Who takes the next step, and whether its compare-and-swap fails without a reason.
pub record Turn : Type 0 where
  pub thread : ℕ
  pub spurious : Bool

unfoldable pub race : ℕ → List Turn → Race → Race
unfolding turn
race requests [] r = r
race requests (t ∷ ts) r =
    race requests ts (turn requests t.thread t.spurious (get_or r.threads t.thread at_top) r)

abbrev pub Fits : ℕ → Phase → Type 0
Fits requests at_top = Unit
Fits requests (tested old) = old < requests

pub record Fair (requests : ℕ) (r : Race) : Type 0 where
  pub counted : r.granted ≡ r.started
  pub bounded : r.started ≤ requests
  pub phases : All (Fits requests) r.threads

All-set :
    (requests : ℕ) (xs : List Phase) (i : ℕ) (p : Phase)
    → All (Fits requests) xs
    → Fits requests p
    → All (Fits requests) (set xs i p)
All-set requests [] i p h k = h
All-set requests (x ∷ xs) zero p h k = (k, h.1)
All-set requests (x ∷ xs) (suc i) p h k = (h.0, All-set requests xs i p h.1 k)

All-get_or :
    (requests : ℕ) (xs : List Phase) (i : ℕ)
    → All (Fits requests) xs
    → Fits requests (get_or xs i at_top)
All-get_or requests [] i h = tt
All-get_or requests (x ∷ xs) zero h = h.0
All-get_or requests (x ∷ xs) (suc i) h = All-get_or requests xs i h.1

granted_step :
    (requests started old : ℕ) (spurious : Bool)
    → requests < u64
    → (old == started && not spurious) ≡ true
    → old < requests
    → (add64 started 1 ≡ started + 1) × (started < requests)
granted_step requests started old spurious w h k = ground arith

turn-Fair :
    (requests i : ℕ) (spurious : Bool) (p : Phase) (r : Race)
    → requests < u64
    → Fits requests p
    → Fair requests r
    → Fair requests (turn requests i spurious p r)
unfolding turn
turn-Fair requests i spurious at_top r w h f =
    if_holds (Fair requests) (leb requests r.started) _ _
      (λ full. record { counted = f.counted; bounded = f.bounded; phases = f.phases })
      (λ room. record {
        counted = f.counted;
        bounded = f.bounded;
        phases =
            All-set requests r.threads i (tested r.started) f.phases
              (leb→lt requests r.started room);
      })
turn-Fair requests i spurious (tested old) r w h f =
    if_holds (Fair requests) (old == r.started && not spurious) _ _
      (λ won.
        let (next, room) = granted_step requests r.started old spurious w won h in
        record {
          counted = omega (arith, f.counted, next);
          bounded = omega (arith, next, room);
          phases = All-set requests r.threads i at_top f.phases tt;
        })
      (λ lost. record {
        counted = f.counted;
        bounded = f.bounded;
        phases = All-set requests r.threads i at_top f.phases tt;
      })

-- From a state in which as many calls have been granted a request as `started` says, no more
-- than `requests`, and every thread has loaded less than `requests`: with any number of
-- threads, any order of their steps and any spurious failures the same holds again, for a
-- number of requests below 2^64.
pub race-Fair :
    (requests : ℕ) (ts : List Turn) (r : Race)
    → requests < u64
    → Fair requests r
    → Fair requests (race requests ts r)
unfolding race
race-Fair requests [] r w f = f
race-Fair requests (t ∷ ts) r w f = race-Fair requests ts _ w (
    turn-Fair requests t.thread t.spurious _ r w (All-get_or requests r.threads t.thread f.phases)
      f)

-- One thread at the top of its loop, and two of its steps.
abbrev pub alone : ℕ → Race
alone started = record { started = started; threads = at_top ∷ []; granted = 0; denied = 0 }

abbrev pub two_steps : List Turn
two_steps = record { thread = 0; spurious = false } ∷ record { thread = 0; spurious = false } ∷ []

-- ===== src/Engine/Rate.antt =====
-- src/core/engine.cpp: `WaitRateToken`, and the interval that `SharedState` gives it. Times are
-- nanoseconds of the steady clock; a slot beyond 2^63 ns, 292 years of uptime, is not reached.
use titan_bench.Base.{
  ℕ, suc, zero, ◌+◌, ◌-◌, ◌*◌, ◌/◌, ◌%◌, ◌≤◌, max, ◌≡◌, Bool, true, not, ◌&&◌, List, [], ◌∷◌, leb,
  ◌==◌, if◌then◌else◌, set, get_or, u32, int_max, arith, if_holds, ℤ, pos, negsuc, neg_of, le→leb,
}
use native.Mathlib.Nat.{le-div_iff_mul-le, div-mul-le_self}

-- `concurrency * 200` on an `int`, which overflows above 10737418 connections; written with the
-- wrap-around that compilers give it.
unfoldable pub int_wrap : ℕ → ℤ
int_wrap n = let m = n % u32 in if leb m int_max then pos m else neg_of (u32 - m)

-- `max(1, v)` for an `int`.
abbrev pub at_least_one : ℤ → ℕ
at_least_one (pos n) = max 1 n
at_least_one (negsuc n) = 1

-- `rate_interval_ns` of the constructor of `SharedState`.
unfoldable pub rate_interval_ns : ℕ → ℕ
unfolding int_wrap
rate_interval_ns concurrency = max 1 (1000000000 / at_least_one (int_wrap (concurrency * 200)))

-- One undisturbed round: the new value of `next_token_ns`, and how long the thread sleeps.
unfoldable pub wait_rate_token : ℕ → ℕ → ℕ → ℕ × ℕ
wait_rate_token zero now next = (next, 0)
wait_rate_token (suc i) now next = (max next now + suc i, max next now - now)

-- A thread at the top of the loop, or past its clock reading and its load.
pub data Phase : Type 0 where
  at_top : Phase
  loaded : ℕ → ℕ → Phase

-- `slots` is history: the slots taken so far, the last one first.
pub record Tokens : Type 0 where
  pub next_token_ns : ℕ
  pub threads : List Phase
  pub slots : List ℕ

-- One step of a thread: read the clock and load, or compare and swap.
unfoldable pub turn : ℕ → ℕ → ℕ → Bool → Phase → Tokens → Tokens
turn interval i now spurious at_top t = record t {
  threads = set t.threads i (loaded now t.next_token_ns);
}
turn interval i now spurious (loaded read old) t =
    if old == t.next_token_ns && not spurious
    then record t {
      next_token_ns = max old read + interval;
      slots = max old read ∷ t.slots;
      threads = set t.threads i at_top;
    }
    else record t { threads = set t.threads i at_top }

pub record Turn : Type 0 where
  pub thread : ℕ
  pub now : ℕ
  pub spurious : Bool

unfoldable pub run : ℕ → List Turn → Tokens → Tokens
unfolding turn
run interval [] t = t
run interval (x ∷ xs) t =
    run interval xs (turn interval x.thread x.now x.spurious (get_or t.threads x.thread at_top) t)

-- Every slot is an interval after the one before it, and the next one is an interval later.
abbrev pub Spaced : ℕ → ℕ → List ℕ → Type 0
Spaced interval next [] = Unit
Spaced interval next (s ∷ ss) = (s + interval ≤ next) × Spaced interval s ss

taken :
    (interval next old read : ℕ) (spurious : Bool)
    → (old == next && not spurious) ≡ true
    → next ≤ max old read
taken interval next old read spurious h = ground arith

Spaced-le : (interval a b : ℕ) (ss : List ℕ) → a ≤ b → Spaced interval a ss → Spaced interval b ss
Spaced-le interval a b [] h k = tt
Spaced-le interval a b (s ∷ ss) h k = (omega (arith, k.0), k.1)

turn-Spaced :
    (interval i now : ℕ) (spurious : Bool) (p : Phase) (t : Tokens)
    → Spaced interval t.next_token_ns t.slots
    → Spaced interval
        (turn interval i now spurious p t).next_token_ns
        (turn interval i now spurious p t).slots
unfolding turn
turn-Spaced interval i now spurious at_top t h = h
turn-Spaced interval i now spurious (loaded read old) t h =
    if_holds (λ (x : Tokens). Spaced interval x.next_token_ns x.slots)
      (old == t.next_token_ns && not spurious) _ _
      (λ won. (
        omega arith,
        Spaced-le interval t.next_token_ns (max old read) t.slots
            (taken interval t.next_token_ns old read spurious won) h,
      ))
      (λ lost. h)

-- If the slots handed out so far are an interval apart and the next token is an interval
-- behind the last one, this stays so with any number of threads, any clock readings, any order
-- of the steps and any spurious failures of the swap.
pub run-Spaced :
    (interval : ℕ) (xs : List Turn) (t : Tokens)
    → Spaced interval t.next_token_ns t.slots
    → Spaced interval (run interval xs t).next_token_ns (run interval xs t).slots
unfolding run
run-Spaced interval [] t h = h
run-Spaced interval (x ∷ xs) t h =
    run-Spaced interval xs _ (turn-Spaced interval x.thread x.now x.spurious _ t h)

rps_exact :
    (concurrency : ℕ)
    → 1 ≤ concurrency
    → concurrency * 200 ≤ int_max
    → at_least_one (int_wrap (concurrency * 200)) ≡ concurrency * 200
unfolding int_wrap
rps_exact concurrency h k =
    let small : concurrency * 200 % u32 ≡ concurrency * 200 = omega arith in
    let fits : leb (concurrency * 200) int_max ≡ true = le→leb (concurrency * 200) int_max k in
    rw (small, fits) (omega arith)

-- From one to 5 million connections, the interval is at least one nanosecond, and 200
-- intervals for each connection fit into a second.
pub rate_interval_ns-bounds :
    (concurrency : ℕ)
    → 1 ≤ concurrency
    → concurrency ≤ 5000000
    → (1 ≤ rate_interval_ns concurrency)
      × (rate_interval_ns concurrency * (concurrency * 200) ≤ 1000000000)
unfolding rate_interval_ns
rate_interval_ns-bounds concurrency h k =
    let rps = concurrency * 200 in
    let some_time : 1 ≤ 1000000000 / rps =
      (le-div_iff_mul-le {k = rps} {x = 1} {y = 1000000000} (omega arith)).1 (omega arith) in
    let same : max 1 (1000000000 / rps) ≡ 1000000000 / rps = omega arith in
    rw (rps_exact concurrency h (omega arith), same) (some_time, div-mul-le_self 1000000000 rps)

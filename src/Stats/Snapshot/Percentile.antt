-- ===== src/Stats/Snapshot/Percentile.antt =====
-- src/core/stats.cpp: the loop over the histogram.
use native.Mathlib.Decide.{dec_lt}
use titan_bench.Base.{
  ◌∙◌, ℕ, zero, suc, ◌+◌, ◌≤◌, ◌<◌, ◌≡◌, ap, some, List, [], ◌∷◌, arith, length, take, sum_of, leb,
  leb→le, leb→lt, ◌==◌, if◌then◌else◌, add64, u64, Bool-cases, inl, inr,
}
use titan_bench.Stats.Bucket.{bucket_to_latency_upper_ns}
use titan_bench.Stats.Snapshot.{first_reaching, get_percentile_ns}

abbrev pub sum : List ℕ → ℕ
sum = sum_of (λ n. n)

-- Bucket `k` is where the running sum, starting from `before`, first reaches the target.
pub record Crosses (target before : ℕ) (hs : List ℕ) (k : ℕ) : Type 0 where
  pub inside : k < length hs
  pub under : before + sum (take k hs) < target
  pub reached : target ≤ before + sum (take (suc k) hs)

first_reaching-Crosses :
    (target : ℕ) (hs : List ℕ) (i before : ℕ)
    → before < target
    → target ≤ before + sum hs
    → before + sum hs < u64
    → (k : ℕ) × (first_reaching target hs i before ≡ some (i + k)) × Crosses target before hs k
unfolding first_reaching
first_reaching-Crosses target [] i before lo hi w = absurd (omega arith)
first_reaching-Crosses target (h ∷ hs) i before lo hi w =
    elim (Bool-cases (leb target (add64 before h))) [
      | inl stop ↦ (
        0,
        rw stop (ap some (omega arith)),
        record {
          inside = omega arith;
          under = omega arith;
          reached = omega (arith, leb→le target (add64 before h) stop);
        },
      )
      | inr more ↦
          let e : add64 before h ≡ before + h = omega arith in
          let (k, found, x) =
            first_reaching-Crosses target hs (i + 1) (add64 before h)
              (leb→lt target (add64 before h) more) (omega arith) (omega arith) in
          (
            suc k,
            rw more (rw found (ap some (omega arith))),
            record {
              inside = omega (arith, x.inside);
              under = omega (arith, x.under);
              reached = omega (arith, x.reached);
            },
          )
    ]

sum-take_mono : (hs : List ℕ) (j k : ℕ) → j ≤ k → sum (take j hs) ≤ sum (take k hs)
sum-take_mono hs zero k h = omega arith
sum-take_mono [] (suc j) zero h = omega arith
sum-take_mono [] (suc j) (suc k) h = omega arith
sum-take_mono (x ∷ hs) (suc j) zero h = absurd (omega arith)
sum-take_mono (x ∷ hs) (suc j) (suc k) h = omega (arith, sum-take_mono hs j k (omega arith))

-- A higher target is reached no earlier.
pub Crosses-mono :
    {s t : ℕ} (hs : List ℕ) {j k : ℕ} → s ≤ t → Crosses s 0 hs j → Crosses t 0 hs k → j ≤ k
Crosses-mono hs {j} {k} h x y = elim (dec_lt k j) [
  | yes later ↦ absurd (omega (arith, x.under, y.reached, sum-take_mono hs (suc k) j later))
  | no fine ↦ omega arith
]

-- The target is at least one.
abbrev pub target_of : ℕ → ℕ
target_of scaled = if scaled == 0 then 1 else scaled

-- If the buckets hold the total, which is not 0, and the scaled total is not above it, the
-- percentile is the latency of the bucket at which the running sum of the buckets reaches the
-- scaled total, or 1 where that is 0.
pub get_percentile-Crosses :
    (hs : List ℕ) (scaled total : ℕ)
    → 0 < total
    → total < u64
    → sum hs ≡ total
    → scaled ≤ total
    → (k : ℕ) × (get_percentile_ns hs scaled total ≡ bucket_to_latency_upper_ns k)
      × Crosses (target_of scaled) 0 hs k
unfolding get_percentile_ns
get_percentile-Crosses hs scaled total p w e h =
    let low : (0 < target_of scaled) × (target_of scaled ≤ total) = ground arith in
    let (k, found, x) =
      first_reaching-Crosses (target_of scaled) hs 0 0 low.0 (omega arith) (omega arith) in
    let at : first_reaching (target_of scaled) hs 0 0 ≡ some k = found ∙ ap some (omega arith) in
    (k, ground arith, x)

-- ===== src/Engine/Split.antt =====
-- src/core/engine.cpp: the split of the connections over the workers in `BenchmarkEngine::Run`.
use titan_bench.Base.{
  ℕ, suc, zero, ◌+◌, ◌%◌, ◌≤◌, ◌<◌, max, min, ◌≡◌, refl, ◌∙◌, List, [], ◌∷◌, set, get_or, replicate,
  sum_of, length, arith, length-set, length-replicate, get_or-set_self, Bool-cases, inl, inr, ◌≢◌,
  ◌==◌,
}
use native.Mathlib.Nat.{mod-lt, mod-eq_of_lt}

-- `workers` of the constructor of `SharedState`.
unfoldable pub worker_count : ℕ → ℕ → ℕ
worker_count threads concurrency = max 1 (min threads concurrency)

-- `worker_concurrency[i % worker_count]++`, from `i` on for `left` rounds.
unfoldable pub deal : ℕ → ℕ → ℕ → List ℕ → List ℕ
deal zero i count slots = slots
deal (suc left) i count slots =
    deal left (i + 1) count (set slots (i % count) (get_or slots (i % count) 0 + 1))

unfoldable pub worker_concurrency : ℕ → ℕ → List ℕ
unfolding deal worker_count
worker_concurrency threads concurrency =
    deal concurrency 0 (worker_count threads concurrency)
      (replicate (worker_count threads concurrency) 0)

abbrev total : List ℕ → ℕ
total xs = sum_of (λ x. x) xs

total-set :
    (xs : List ℕ) (i : ℕ) → i < length xs → total (set xs i (get_or xs i 0 + 1)) ≡ total xs + 1
total-set [] i h = absurd (omega arith)
total-set (x ∷ xs) zero h = omega arith
total-set (x ∷ xs) (suc i) h = omega (arith, total-set xs i (omega arith))

total-replicate : (n : ℕ) → total (replicate n 0) ≡ 0
total-replicate zero = refl
total-replicate (suc n) = omega (arith, total-replicate n)

length-deal : (left i count : ℕ) (slots : List ℕ) → length (deal left i count slots) ≡ length slots
unfolding deal
length-deal zero i count slots = refl
length-deal (suc left) i count slots =
    length-deal left (i + 1) count _ ∙ length-set slots (i % count) _

total-deal :
    (left i count : ℕ) (slots : List ℕ)
    → 1 ≤ count
    → length slots ≡ count
    → total (deal left i count slots) ≡ total slots + left
unfolding deal
total-deal zero i count slots h k = omega arith
total-deal (suc left) i count slots h k =
    total-deal left (i + 1) count _ h (length-set slots (i % count) _ ∙ k)
    ∙ omega (arith, total-set slots (i % count) (rw k (mod-lt i h)))

raise-le :
    (slots : List ℕ) (i j : ℕ) → get_or slots j 0 ≤ get_or (set slots i (get_or slots i 0 + 1)) j 0
raise-le [] i j = omega arith
raise-le (x ∷ xs) zero zero = omega arith
raise-le (x ∷ xs) zero (suc j) = omega arith
raise-le (x ∷ xs) (suc i) zero = omega arith
raise-le (x ∷ xs) (suc i) (suc j) = raise-le xs i j

deal-le :
    (left i count j : ℕ) (slots : List ℕ) → get_or slots j 0 ≤ get_or (deal left i count slots) j 0
unfolding deal
deal-le zero i count j slots = omega arith
deal-le (suc left) i count j slots = omega (
  arith,
  deal-le left (i + 1) count j (set slots (i % count) (get_or slots (i % count) 0 + 1)),
  raise-le slots (i % count) j,
)

deal_reaches :
    (left i count j : ℕ) (slots : List ℕ)
    → length slots ≡ count
    → i ≤ j
    → j < i + left
    → j < count
    → 1 ≤ get_or (deal left i count slots) j 0
unfolding deal
deal_reaches zero i count j slots k low high room = absurd (omega arith)
deal_reaches (suc left) i count j slots k low high room = elim (Bool-cases (i == j)) [
  | inl here ↦
      let e : i ≡ j = ground arith in
      let m : i % count ≡ j = mod-eq_of_lt (omega arith) ∙ e in
      let up = get_or-set_self slots j (get_or slots j 0 + 1) 0 (omega arith) in
      rw m (omega (arith, up, deal-le left (i + 1) count j (set slots j (get_or slots j 0 + 1))))
  | inr on ↦
      let ne : i ≢ j = ground arith in
      deal_reaches left (i + 1) count j _ (length-set slots (i % count) _ ∙ k) (omega arith)
        (omega arith) room
]

-- For at least one connection and any number of threads, there are as many workers as were
-- counted, their connections add up to all of them, and each worker has one at least.
pub worker_concurrency-total :
    (threads concurrency : ℕ)
    → 1 ≤ concurrency
    → (sum_of (λ x. x) (worker_concurrency threads concurrency) ≡ concurrency)
      × (length (worker_concurrency threads concurrency) ≡ worker_count threads concurrency)
      × ((j : ℕ)
          → j < worker_count threads concurrency
          → 1 ≤ get_or (worker_concurrency threads concurrency) j 0)
unfolding worker_concurrency worker_count
worker_concurrency-total threads concurrency h =
    let n = max 1 (min threads concurrency) in
    let room : 1 ≤ n = omega arith in
    (
      total-deal concurrency 0 n (replicate n 0) room (length-replicate n 0)
          ∙ omega (arith, total-replicate n),
      length-deal concurrency 0 n (replicate n 0) ∙ length-replicate n 0,
      λ j k.
          deal_reaches concurrency 0 n j (replicate n 0) (length-replicate n 0) (omega arith)
            (omega arith) k,
    )

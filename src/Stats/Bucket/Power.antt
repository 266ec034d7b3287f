-- ===== src/Stats/Bucket/Power.antt =====
-- src/core/stats.cpp: `NormalizePowerOfTwo` and powers of two.
use native.Mathlib.Decide.{dec_lt}
use native.Mathlib.Nat.{pow-suc, pow-le-pow_right, lt_irrefl}
use titan_bench.Base.{
  ℕ, zero, suc, ◌+◌, ◌*◌, ◌^◌, ◌%◌, ◌≤◌, ◌<◌, max, ◌≡◌, refl, ◌⊎◌, inl, inr, subst, Option, none,
  some, arith, ltb, ltb→lt, ltb→le, lt→ltb, Bool-cases, u64,
}
use titan_bench.Stats.Bucket.{double_until, normalize_power_of_two}

-- A power of two no smaller than `value`, and less than twice it unless it is 1.
pub record IsRoundUp (value : ℕ) (r : Option ℕ) : Type 0 where
  pub exponent : ℕ
  pub result : r ≡ some (2 ^ exponent)
  pub small : exponent ≤ 63
  pub covers : value ≤ 2 ^ exponent
  pub tight : (exponent ≡ 0) ⊎ (2 ^ exponent < 2 * value)

below_63 : (j : ℕ) → 2 ^ j < 2 ^ 63 → j ≤ 63 → suc j ≤ 63
below_63 j h s = elim (dec_lt j 63) [
  | yes room ↦ room
  | no full ↦
      let last : j ≡ 63 = omega arith in
      absurd (lt_irrefl (2 ^ 63) (subst (λ k. 2 ^ k < 2 ^ 63) last h))
]

double_until-IsRoundUp :
    (fuel j value : ℕ)
    → 64 ≤ j + fuel
    → j ≤ 63
    → value ≤ 2 ^ 63
    → (j ≡ 0) ⊎ (2 ^ j < 2 * value)
    → IsRoundUp value (double_until fuel value (2 ^ j))
unfolding double_until
double_until-IsRoundUp zero j value f s v t = absurd (omega arith)
double_until-IsRoundUp (suc fuel) j value f s v t = elim (Bool-cases (ltb (2 ^ j) value)) [
  | inl more ↦
      let room : suc j ≤ 63 = below_63 j (omega (arith, ltb→lt (2 ^ j) value more)) s in
      let fits : 2 ^ suc j ≤ 2 ^ 63 = pow-le-pow_right (omega arith) room in
      let next : 2 ^ j * 2 % u64 ≡ 2 ^ suc j = omega (arith, pow-suc 2 j) in
      rw (more, next)
        (double_until-IsRoundUp fuel (suc j) value (omega arith) room v
          (inr (omega (arith, pow-suc 2 j, ltb→lt (2 ^ j) value more))))
  | inr stop ↦ rw stop (record {
    exponent = j;
    result = refl;
    small = s;
    covers = ltb→le (2 ^ j) value stop;
    tight = t;
  })
]

-- Sizes up to 2^63 are rounded up to the next power of two: the loop ends, and its result is the
-- least power of two that is no smaller than either argument.
pub normalize-IsRoundUp :
    (n min_value : ℕ)
    → n ≤ 2 ^ 63
    → min_value ≤ 2 ^ 63
    → IsRoundUp (max n min_value) (normalize_power_of_two n min_value)
unfolding normalize_power_of_two
normalize-IsRoundUp n min_value h k =
    double_until-IsRoundUp 65 0 (max n min_value) (omega arith) (omega arith) (omega arith)
      (inl refl)

double_until-zero : (fuel value : ℕ) → 0 < value → double_until fuel value 0 ≡ none
unfolding double_until
double_until-zero zero value h = refl
double_until-zero (suc fuel) value h = rw (lt→ltb 0 value h) (double_until-zero fuel value h)

double_until_overshoot :
    (fuel j value : ℕ) → j ≤ 63 → 2 ^ 63 < value → double_until fuel value (2 ^ j) ≡ none
unfolding double_until
double_until_overshoot zero j value s v = refl
double_until_overshoot (suc fuel) j value s v =
    let fits : 2 ^ j ≤ 2 ^ 63 = pow-le-pow_right (omega arith) s in
    rw (lt→ltb (2 ^ j) value (omega arith)) (elim (dec_lt j 63) [
      | yes room ↦
          let fits' : 2 ^ suc j ≤ 2 ^ 63 = pow-le-pow_right (omega arith) room in
          let next : 2 ^ j * 2 % u64 ≡ 2 ^ suc j = omega (arith, pow-suc 2 j) in
          rw next (double_until_overshoot fuel (suc j) value room v)
      | no full ↦
          let last : j ≡ 63 = omega arith in
          let next : 2 ^ j * 2 % u64 ≡ 0 = rw last refl in
          rw next (double_until-zero fuel value (omega arith))
    ])

-- For a size above 2^63 the doubling wraps to 0 and the loop never ends, whatever the fuel.
pub double_until_diverges : (fuel value : ℕ) → 2 ^ 63 < value → double_until fuel value 1 ≡ none
double_until_diverges fuel value h = double_until_overshoot fuel 0 value (omega arith) h

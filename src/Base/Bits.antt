-- ===== src/Base/Bits.antt =====
-- `x & (2^k - 1)` is the remainder by `2^k`, at every width: how the source wraps its indices.
use Prim.Native.Nat.{
  ℕ, zero, suc, ◌+◌, ◌-◌, ◌*◌, ◌/◌, ◌%◌, ◌^◌, ◌≤◌, min, bit_and, digits, bit_and-bitwise,
}
use mathlib.Core.Path.{◌≡◌, refl, sym, ap, ◌∙◌}
use native.Mathlib.Nat.{
  pow-suc, one-le-pow, mul_comm, div-div-eq-div-mul, mod-eq-sub-div-mul, div-mul-le_self,
}
use native.Mathlib.Omega.{arith}

-- The recursion that the native operation stands for; its first argument is fuel.
abbrev and_upto : ℕ → ℕ → ℕ → ℕ
and_upto fuel x y = digits (λ y. zero) min fuel x y

and_upto-zero : (fuel y : ℕ) → and_upto fuel 0 y ≡ 0
and_upto-zero zero y = refl
and_upto-zero (suc fuel) y = refl

-- Any fuel that covers the first operand gives the same value.
and_upto_stable : (f g x y : ℕ) → x ≤ f → x ≤ g → and_upto f x y ≡ and_upto g x y
and_upto_stable f g zero y p q = omega (arith, and_upto-zero f y, and_upto-zero g y)
and_upto_stable zero g (suc x) y p q = absurd (omega arith)
and_upto_stable (suc f) zero (suc x) y p q = absurd (omega arith)
and_upto_stable (suc f) (suc g) (suc x) y p q =
    omega (arith, and_upto_stable f g (suc x / 2) (y / 2) (omega arith) (omega arith))

-- The lowest digit, and the rest.
and_split : (x y : ℕ) → bit_and x y ≡ bit_and (x / 2) (y / 2) * 2 + min (x % 2) (y % 2)
and_split zero y = omega (
  arith,
  bit_and-bitwise 0 y,
  and_upto-zero 0 y,
  bit_and-bitwise 0 (y / 2),
  and_upto-zero 0 (y / 2),
)
and_split (suc x) y =
    let fits : suc x / 2 ≤ x = omega arith in
    omega (
      arith,
      bit_and-bitwise (suc x) y,
      bit_and-bitwise (suc x / 2) (y / 2),
      and_upto_stable x (suc x / 2) (suc x / 2) (y / 2) fits (omega arith),
    )

and-zero_below : (fuel x : ℕ) → x ≤ fuel → bit_and x 0 ≡ 0
and-zero_below fuel zero h = refl
and-zero_below zero (suc x) h = absurd (omega arith)
and-zero_below (suc fuel) (suc x) h =
    omega (arith, and_split (suc x) 0, and-zero_below fuel (suc x / 2) (omega arith))

mod_double : (x k : ℕ) → x % 2 ^ suc k ≡ (x / 2) % 2 ^ k * 2 + x % 2
mod_double x k =
    let q = x / 2 ^ suc k in
    let halves : x / 2 / 2 ^ k ≡ q =
      div-div-eq-div-mul x 2 (2 ^ k)
      ∙ ap (λ (m : ℕ). x / m) (mul_comm 2 (2 ^ k) ∙ sym (pow-suc 2 k)) in
    omega (
      arith,
      mod-eq-sub-div-mul x (2 ^ suc k),
      mod-eq-sub-div-mul (x / 2) (2 ^ k),
      div-mul-le_self x (2 ^ suc k),
      div-mul-le_self (x / 2) (2 ^ k),
      ap (λ (m : ℕ). m * 2 ^ k) halves,
      ap (λ (m : ℕ). q * m) (pow-suc 2 k),
    )

half_mask : (k : ℕ) → (2 ^ suc k - 1) / 2 ≡ 2 ^ k - 1
half_mask k = omega (arith, pow-suc 2 k, one-le-pow k 2)

-- An index is wrapped by a mask of ones exactly as by a remainder.
pub bit_and_mask : (k x : ℕ) → bit_and x (2 ^ k - 1) ≡ x % 2 ^ k
bit_and_mask zero x = and-zero_below x x (omega arith) ∙ omega arith
bit_and_mask (suc k) x =
    let rest : bit_and (x / 2) ((2 ^ suc k - 1) / 2) ≡ (x / 2) % 2 ^ k =
      ap (bit_and (x / 2)) (half_mask k) ∙ bit_and_mask k (x / 2) in
    omega (arith, and_split x (2 ^ suc k - 1), pow-suc 2 k, one-le-pow k 2, mod_double x k, rest)

-- ===== src/Base/Assoc.antt =====
-- Maps as association lists by a number, for `std::unordered_map`; a key stands in them once.
use Prim.Native.Nat.{ℕ}
use mathlib.Core.Path.{◌≡◌, refl}
use mathlib.Core.Logic.{◌≢◌}
use mathlib.Core.List.{List, [], ◌∷◌}
use mathlib.Core.Option.{Option, none, some}
use native.Mathlib.Omega.{arith}
use titan_bench.Base.Check.{◌==◌, if◌then◌else◌}

module _ {ℓ} {A : Type ℓ} where
  abbrev pub find_key : ℕ → List (ℕ × A) → Option A
  find_key k [] = none
  find_key k ((j, a) ∷ rest) = if j == k then some a else find_key k rest

  -- `erase(k)`.
  abbrev pub erase_key : ℕ → List (ℕ × A) → List (ℕ × A)
  erase_key k [] = []
  erase_key k ((j, a) ∷ rest) =
      let rest' = erase_key k rest in if j == k then rest' else (j, a) ∷ rest'

  -- `map[k] = a`.
  abbrev pub put_key : ℕ → A → List (ℕ × A) → List (ℕ × A)
  put_key k a [] = (k, a) ∷ []
  put_key k a ((j, b) ∷ rest) =
      let rest' = put_key k a rest in if j == k then (k, a) ∷ rest else (j, b) ∷ rest'

module _ {ℓ} {A : Type ℓ} where
  pub find_key-erase_key_ne :
      (k j : ℕ) (xs : List (ℕ × A)) → j ≢ k → find_key k (erase_key j xs) ≡ find_key k xs
  find_key-erase_key_ne k j [] h = refl
  find_key-erase_key_ne k j ((i, a) ∷ rest) h = ground (arith, find_key-erase_key_ne k j rest h)

  pub find_key-erase_key : (k : ℕ) (xs : List (ℕ × A)) → find_key k (erase_key k xs) ≡ none
  find_key-erase_key k [] = refl
  find_key-erase_key k ((i, a) ∷ rest) = ground (arith, find_key-erase_key k rest)

  pub find_key-put_key : (k : ℕ) (a : A) (xs : List (ℕ × A)) → find_key k (put_key k a xs) ≡ some a
  find_key-put_key k a [] = ground arith
  find_key-put_key k a ((i, b) ∷ rest) = ground (arith, find_key-put_key k a rest)

  pub find_key-put_key_ne :
      (k j : ℕ) (a : A) (xs : List (ℕ × A)) → j ≢ k → find_key k (put_key j a xs) ≡ find_key k xs
  find_key-put_key_ne k j a [] h = ground arith
  find_key-put_key_ne k j a ((i, b) ∷ rest) h = ground (arith, find_key-put_key_ne k j a rest h)

-- ===== src/Base/Search.antt =====
-- Lemmas on the searches in texts.
use Prim.Native.Nat.{ℕ, zero, suc, ◌+◌, ◌-◌, ◌≤◌}
use mathlib.Core.Path.{◌≡◌, refl, ap, ◌∙◌}
use mathlib.Core.Logic.{◌⊎◌, inl, inr}
use mathlib.Core.Bool.{true, false, ◌&&◌}
use mathlib.Core.List.{[], ◌∷◌, ◌++◌}
use mathlib.Core.Option.{some}
use native.Mathlib.Omega.{arith}
use titan_bench.Base.Check.{◌==◌, Bool-cases, Option-cases}
use titan_bench.Base.Lists.{length, drop}
use titan_bench.Base.Text.{Bytes, starts_with, find, crlf, crlf_crlf}

starts_with-append :
    (pat s t : Bytes) → length pat ≤ length s → starts_with pat (s ++ t) ≡ starts_with pat s
unfolding starts_with
starts_with-append [] s t h = refl
starts_with-append (c ∷ cs) [] t h = absurd (omega arith)
starts_with-append (c ∷ cs) (d ∷ ds) t h =
    ap (λ b. c == d && b) (starts_with-append cs ds t (omega arith))

starts_with-le : (pat s : Bytes) → starts_with pat s ≡ true → length pat ≤ length s
unfolding starts_with
starts_with-le [] s h = omega arith
starts_with-le (c ∷ cs) [] h = cc
starts_with-le (c ∷ cs) (d ∷ ds) h = ground (arith, starts_with-le cs ds)

-- Where a pattern is found, it stands at the front or is found further on.
find-cons :
    (pat : Bytes) (c : ℕ) (cs : Bytes) (p : ℕ)
    → find pat (c ∷ cs) ≡ some p
    → ((starts_with pat (c ∷ cs) ≡ true) × (p ≡ 0))
      ⊎ ((q : ℕ) × (starts_with pat (c ∷ cs) ≡ false) × (find pat cs ≡ some q) × (p ≡ suc q))
unfolding find
find-cons pat c cs p h = elim (Bool-cases (starts_with pat (c ∷ cs))) [
  | inl here ↦ inl (here, ground arith)
  | inr on ↦ elim (Option-cases (find pat cs)) [
    | inl missing ↦ cc (missing, on, h)
    | inr (q, e) ↦ inr (q, on, e, ground arith)
  ]
]

pub find-le : (pat s : Bytes) (p : ℕ) → find pat s ≡ some p → p + length pat ≤ length s
find-le pat [] p h = unfold find in cc
find-le pat (c ∷ cs) p h = elim (find-cons pat c cs p h) [
  | inl (here, e) ↦ omega (arith, starts_with-le pat (c ∷ cs) here)
  | inr (q, on, found, e) ↦ omega (arith, find-le pat cs q found)
]

pub find-append : (pat s t : Bytes) (p : ℕ) → find pat s ≡ some p → find pat (s ++ t) ≡ some p
unfolding find
find-append pat [] t p h = cc
find-append pat (c ∷ cs) t p h = elim (find-cons pat c cs p h) [
  | inl (here, e) ↦
      rw (starts_with-append pat (c ∷ cs) t (starts_with-le pat (c ∷ cs) here) ∙ here, e)
  | inr (q, on, found, e) ↦
      let room : length pat ≤ length (c ∷ cs) = omega (arith, find-le pat cs q found) in
      rw (starts_with-append pat (c ∷ cs) t room ∙ on, find-append pat cs t q found, e)
        (ap some (omega arith))
]

pub find-drop :
    (pat s : Bytes) (i p : ℕ) → find pat s ≡ some p → i ≤ p → find pat (drop i s) ≡ some (p - i)
find-drop pat s zero p h k = h ∙ ap some (omega arith)
find-drop pat [] (suc i) p h k = unfold find in cc
find-drop pat (c ∷ cs) (suc i) p h k = elim (find-cons pat c cs p h) [
  | inl (here, e) ↦ absurd (omega arith)
  | inr (q, on, found, e) ↦ find-drop pat cs i q found (omega arith) ∙ ap some (omega arith)
]

starts_with-crlf : (s : Bytes) → starts_with crlf_crlf s ≡ true → starts_with crlf s ≡ true
unfolding starts_with
starts_with-crlf [] h = cc
starts_with-crlf (a ∷ []) h = ground arith
starts_with-crlf (a ∷ b ∷ s) h = ground arith

find_later :
    (pat : Bytes) (c : ℕ) (cs : Bytes) (r : ℕ)
    → starts_with pat (c ∷ cs) ≡ false
    → find pat cs ≡ some r
    → find pat (c ∷ cs) ≡ some (suc r)
unfolding find
find_later pat c cs r on found = rw (on, found) (ap some (omega arith))

-- An empty line ends a line.
pub find-crlf_le :
    (s : Bytes) (q : ℕ) → find crlf_crlf s ≡ some q → (r : ℕ) × (find crlf s ≡ some r) × (r ≤ q)
find-crlf_le [] q h = unfold find in cc
find-crlf_le (c ∷ cs) q h = elim (Bool-cases (starts_with crlf (c ∷ cs))) [
  | inl front ↦ (0, (unfold find in rw front), omega arith)
  | inr other ↦ elim (find-cons crlf_crlf c cs q h) [
    | inl (here, e) ↦ absurd (cc (starts_with-crlf (c ∷ cs) here, other))
    | inr (k, on, found, e) ↦
        let (r, first, below) = find-crlf_le cs k found in
        (suc r, find_later crlf c cs r other first, omega arith)
  ]
]

-- ===== src/Base/Digits.antt =====
-- The characters of the "C" locale and the decimal digits, as `isspace`, `from_chars` and
-- `stoll` of the C++ library read them.
use Prim.Native.Nat.{ℕ, zero, suc, ◌+◌, ◌-◌, ◌*◌, ◌/◌, ◌%◌, ◌<◌}
use mathlib.Core.Path.{◌≡◌, refl, ap, ◌∙◌}
use mathlib.Core.Bool.{Bool, true, false, ◌&&◌, ◌||◌}
use mathlib.Core.List.{List, [], ◌∷◌, ◌++◌, map}
use mathlib.Core.Option.{Option, none, some}
use native.Mathlib.Omega.{arith}
use titan_bench.Base.Check.{ltb, leb, ◌==◌, if◌then◌else◌}
use titan_bench.Base.Lists.{All}
use titan_bench.Base.Int.{ℤ, pos, negsuc}
use titan_bench.Base.Text.{Bytes}

-- `std::isspace` in the "C" locale.
unfoldable pub is_space : ℕ → Bool
is_space c = (leb 9 c && leb c 13) || c == 32

unfoldable pub skip_space : Bytes → Bytes
unfolding is_space
skip_space [] = []
skip_space (c ∷ cs) = if is_space c then skip_space cs else c ∷ cs

unfoldable pub is_digit : ℕ → Bool
is_digit c = leb b'0' c && leb c b'9'

-- The value of the digits in front, on top of those already read, and what follows them.
unfoldable pub read_digits : ℕ → Bytes → ℕ × Bytes
unfolding is_digit
read_digits value [] = (value, [])
read_digits value (c ∷ cs) = elim (is_digit c) [
  | true ↦ read_digits (value * 10 + (c - b'0')) cs
  | false ↦ (value, c ∷ cs)
]

-- At least one digit, and a value of at most `limit`; else an error.
unfoldable pub read_number : ℕ → Bytes → Option (ℕ × Bytes)
unfolding read_digits
read_number limit [] = none
read_number limit (c ∷ cs) =
    let (value, rest) = read_digits 0 (c ∷ cs) in
    if is_digit c && leb value limit then some (value, rest) else none

-- The value of decimal digits behind a value read so far.
unfoldable pub decimal : ℕ → List ℕ → ℕ
decimal value [] = value
decimal value (d ∷ ds) = decimal (value * 10 + d) ds

abbrev pub ascii : ℕ → ℕ
ascii d = b'0' + d

pub is_digit-ascii : (d : ℕ) → d < 10 → is_digit (ascii d) ≡ true
unfolding is_digit
is_digit-ascii d h = ground arith

read_digits_step :
    (value c : ℕ) (cs : Bytes)
    → is_digit c ≡ true
    → read_digits value (c ∷ cs) ≡ read_digits (value * 10 + (c - b'0')) cs
unfolding read_digits
read_digits_step value c cs h = rw (read_digits, h)

pub read_digits-decimal :
    (value : ℕ) (ds : List ℕ)
    → All (λ d. d < 10) ds
    → read_digits value (map ascii ds) ≡ (decimal value ds, [])
unfolding read_digits decimal
read_digits-decimal value [] h = refl
read_digits-decimal value (d ∷ ds) h =
    read_digits_step value (ascii d) (map ascii ds) (is_digit-ascii d h.0)
    ∙ (ap (λ x. read_digits (value * 10 + x) (map ascii ds)) (omega arith)
        ∙ read_digits-decimal (value * 10 + d) ds h.1)

-- The decimal digits of a number, as `std::to_string` prints them; a number has fewer digits than
-- its successor.
digits_from : ℕ → ℕ → List ℕ
digits_from zero n = []
digits_from (suc fuel) n =
    let front = digits_from fuel (n / 10) in if ltb n 10 then n ∷ [] else front ++ n % 10 ∷ []

unfoldable pub digits : ℕ → List ℕ
unfolding digits_from
digits n = digits_from (suc n) n

unfoldable pub to_string : ℕ → Bytes
unfolding digits
to_string n = map ascii (digits n)

-- `%d`, and a signed number written into a stream.
unfoldable pub print_int : ℤ → Bytes
unfolding to_string
print_int (pos n) = to_string n
print_int (negsuc n) = b'-' ∷ to_string (suc n)

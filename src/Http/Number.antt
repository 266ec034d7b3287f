-- ===== src/Http/Number.antt =====
-- src/protocol/http.cpp: `std::from_chars` in base 10, as it is used: on an `int` of three characters and on a
-- `std::size_t`.
use titan_bench.Base.{
  ℕ, ◌+◌, ◌-◌, [], ◌∷◌, Option, none, some, ◌==◌, if◌then◌else◌, Bytes, is_empty, ℤ, pos, neg_of,
  u64, int_max, read_number, ◌>>=◌,
}

-- `from_chars` on a `std::size_t` over the whole of the text, `none` on an error or a rest.
unfoldable pub whole : ℕ × Bytes → Option ℕ
whole (value, rest) = if is_empty rest then some value else none

unfoldable pub whole_size : Bytes → Option ℕ
unfolding read_number whole
whole_size s = do n ← read_number (u64 - 1) s; whole n

negated : ℕ → Option ℤ
negated n = some (neg_of n)

unsigned : ℕ → Option ℤ
unsigned n = some (pos n)

-- The same on an `int`: a minus sign may stand in front.
unfoldable pub whole_int : Bytes → Option ℤ
unfolding read_number whole negated unsigned
whole_int [] = none
whole_int (c ∷ cs) =
    if c == b'-'
    then (do n ← read_number (int_max + 1) cs; v ← whole n; negated v)
    else (do n ← read_number int_max (c ∷ cs); v ← whole n; unsigned v)

-- ===== src/Cli/Numbers.antt =====
-- src/cli/args.cpp: lemmas on `ParsePositiveInt`, `ParsePositiveInt64` and `ParsePort`.
use titan_bench.Base.{
  ℕ, ◌≤◌, ◌≡◌, refl, ap, ◌∙◌, subst, Bool, true, false, ◌&&◌, List, [], ◌∷◌, Option, none, some,
  ◌==◌, leb, if◌then◌else◌, arith, All, ◌<◌, is_space, map, decimal, ascii, is_digit-ascii,
  read_digits-decimal, ◌+◌, leb→le, le→leb, if_holds, bind_holds, read_number, skip_space,
  read_digits, is_digit, ℤ, pos, negsuc, at_least, at_most, int_max, int64_max, Bytes, is_empty,
  ◌>>=◌,
}
use titan_bench.Cli.Options.{
  stoll, after_space, negative, positive, int_in, int64_in, port_in, parse_positive_int,
  parse_positive_int64, parse_port,
}

-- An integer of the source between two bounds.
pub record Between (lo hi : ℕ) (v : ℤ) : Type 0 where
  pub value : ℕ
  pub is_value : v ≡ pos value
  pub low : lo ≤ value
  pub high : value ≤ hi

-- What a reader returns is in range.
pub data SomeBetween (lo hi : ℕ) : Option ℤ → Type 0 where
  no_value : SomeBetween lo hi none
  in_range : (v : ℤ) → Between lo hi v → SomeBetween lo hi (some v)

pub at_least-Between : (hi : ℕ) (v : ℤ) → at_least 1 v ≡ true → at_most hi v ≡ true → Between 1 hi v
at_least-Between hi (pos n) h k = record {
  value = n;
  is_value = refl;
  low = ground arith;
  high = ground arith;
}
at_least-Between hi (negsuc n) h k = cc

split_and : (a b : Bool) → (a && b) ≡ true → (a ≡ true) × (b ≡ true)
split_and true true h = (refl, refl)
split_and true false h = cc
split_and false b h = cc

int_in-Between : (p : ℤ × Bytes) → SomeBetween 1 int_max (int_in p)
unfolding int_in
int_in-Between (v, rest) =
    if_holds (SomeBetween 1 int_max) _ _ _
      (λ h.
        let (low, high) =
          split_and (at_least 1 v) (at_most int_max v) (split_and (is_empty rest) _ h).1 in
        in_range v (at_least-Between int_max v low high))
      (λ _. no_value)

int64_in-Between :
    (p : ℤ × Bytes) → at_most int64_max p.0 ≡ true → SomeBetween 1 int64_max (int64_in p)
unfolding int64_in
int64_in-Between (v, rest) high =
    if_holds (SomeBetween 1 int64_max) _ _ _
      (λ h. in_range v (at_least-Between int64_max v (split_and (is_empty rest) _ h).1 high))
      (λ _. no_value)

pub parse_positive_int-Between : (input : Bytes) → SomeBetween 1 int_max (parse_positive_int input)
unfolding parse_positive_int
parse_positive_int-Between input =
    bind_holds (SomeBetween 1 int_max) (stoll input) int_in no_value (λ p _. int_in-Between p)

-- `stoll` throws above 2^63 - 1.
data Below : Option (ℤ × Bytes) → Type 0 where
  throws : Below none
  fits : (v : ℤ) (rest : Bytes) → at_most int64_max v ≡ true → Below (some (v, rest))

data Small (limit : ℕ) : Option (ℕ × Bytes) → Type 0 where
  no_number : Small limit none
  small : (n : ℕ) (rest : Bytes) → n ≤ limit → Small limit (some (n, rest))

read_number-Small : (limit : ℕ) (s : Bytes) → Small limit (read_number limit s)
unfolding read_number
read_number-Small limit [] = no_number
read_number-Small limit (c ∷ cs) =
    let (value, rest) = read_digits 0 (c ∷ cs) in
    if_holds (Small limit) (is_digit c && leb value limit) (some (value, rest)) none
      (λ h. small value rest (leb→le value limit (split_and (is_digit c) _ h).1)) (λ _. no_number)

minus : (o : Option (ℕ × Bytes)) → Below (do n ← o; negative n)
unfolding negative
minus none = throws
minus (some (ℕ.zero, rest)) = fits _ rest refl
minus (some (ℕ.suc n, rest)) = fits _ rest refl

plus : (o : Option (ℕ × Bytes)) → Small int64_max o → Below (do n ← o; positive n)
unfolding positive
plus none no_number = throws
plus (some _) (small n rest h) = fits (pos n) rest (le→leb n int64_max h)

after_space-Below : (s : Bytes) → Below (after_space s)
unfolding after_space
after_space-Below [] = throws
after_space-Below (c ∷ cs) =
    if_holds Below (c == b'-') _ _ (λ _. minus (read_number (int64_max + 1) cs))
      (λ _.
        if_holds Below (c == b'+') _ _ (λ _. plus _ (read_number-Small int64_max cs))
          (λ _. plus _ (read_number-Small int64_max (c ∷ cs))))

int64_Below : (o : Option (ℤ × Bytes)) → Below o → SomeBetween 1 int64_max (do p ← o; int64_in p)
int64_Below none throws = no_value
int64_Below (some _) (fits v rest h) = int64_in-Between (v, rest) h

pub parse_positive_int64-Between :
    (input : Bytes) → SomeBetween 1 int64_max (parse_positive_int64 input)
unfolding parse_positive_int64 stoll
parse_positive_int64-Between input =
    int64_Below (stoll input) (after_space-Below (skip_space input))

port_in-Between :
    (o : Option ℤ) → SomeBetween 1 int_max o → SomeBetween 1 65535 (do v ← o; port_in v)
unfolding port_in
port_in-Between none no_value = no_value
port_in-Between (some _) (in_range v b) =
    if_holds (SomeBetween 1 65535) (at_most 65535 v) (some v) none
      (λ h. in_range v (record {
        value = b.value;
        is_value = b.is_value;
        low = b.low;
        high = leb→le b.value 65535 (subst (λ x. at_most 65535 x ≡ true) b.is_value h);
      }))
      (λ _. no_value)

pub parse_port-Between : (input : Bytes) → SomeBetween 1 65535 (parse_port input)
unfolding parse_port
parse_port-Between input =
    port_in-Between (parse_positive_int input) (parse_positive_int-Between input)

read_number-decimal :
    (limit d : ℕ) (ds : List ℕ)
    → All (λ x. x < 10) (d ∷ ds)
    → read_number limit (map ascii (d ∷ ds))
      ≡ (if leb (decimal 0 (d ∷ ds)) limit then some (decimal 0 (d ∷ ds), []) else none)
unfolding read_number
read_number-decimal limit d ds h = rw (read_digits-decimal 0 (d ∷ ds) h, is_digit-ascii d h.0)

not_space : (d : ℕ) → d < 10 → is_space (b'0' + d) ≡ false
unfolding is_space
not_space d h = ground arith

not_sign : (d c : ℕ) → c < b'0' → (b'0' + d == c) ≡ false
not_sign d c h = ground arith

skip_space-digit : (d : ℕ) (cs : Bytes) → d < 10 → skip_space (ascii d ∷ cs) ≡ ascii d ∷ cs
unfolding skip_space
skip_space-digit d cs h = rw (not_space d h)

after_space-digit :
    (d : ℕ) (cs : Bytes)
    → after_space (ascii d ∷ cs) ≡ (do n ← read_number int64_max (ascii d ∷ cs); positive n)
unfolding after_space
after_space-digit d cs = rw (not_sign d b'-' (omega arith), not_sign d b'+' (omega arith))

positive_if :
    (b : Bool) (n : ℕ) (rest : Bytes)
    → (do p ← if b then some (n, rest) else none; positive p)
      ≡ (if b then some (pos n, rest) else none)
unfolding positive
positive_if true n rest = refl
positive_if false n rest = refl

stoll-decimal :
    (d : ℕ) (ds : List ℕ)
    → All (λ x. x < 10) (d ∷ ds)
    → stoll (map ascii (d ∷ ds))
      ≡ (if leb (decimal 0 (d ∷ ds)) int64_max then some (pos (decimal 0 (d ∷ ds)), []) else none)
unfolding stoll
stoll-decimal d ds h =
    ap after_space (skip_space-digit d (map ascii ds) h.0)
    ∙ (after_space-digit d (map ascii ds)
        ∙ (ap (λ o. do n ← o; positive n) (read_number-decimal int64_max d ds h)
            ∙ positive_if _ (decimal 0 (d ∷ ds)) []))

int_if :
    (n : ℕ)
    → (do p ← if leb n int64_max then some (pos n, []) else none; int_in p)
      ≡ (if leb 1 n && leb n int_max then some (pos n) else none)
unfolding int_in
int_if n = ground arith

-- Decimal digits, at least one, are read by `ParsePositiveInt` as their value when it is from 1 to
-- the largest `int`, and refused otherwise.
pub parse_positive_int-decimal :
    (d : ℕ) (ds : List ℕ)
    → All (λ x. x < 10) (d ∷ ds)
    → parse_positive_int (map (λ x. b'0' + x) (d ∷ ds)) ≡ (
        if leb 1 (decimal 0 (d ∷ ds)) && leb (decimal 0 (d ∷ ds)) int_max
        then some (pos (decimal 0 (d ∷ ds)))
        else none)
unfolding parse_positive_int
parse_positive_int-decimal d ds h =
    ap (λ o. do p ← o; int_in p) (stoll-decimal d ds h) ∙ int_if (decimal 0 (d ∷ ds))

-- ===== src/Http/Lines.antt =====
-- src/protocol/http.cpp: lemmas on the loop over the header lines.
use Prim.Native.String.{String}
use mathlib.Core.Logic.{◌⊎◌}
use titan_bench.Base.{
  ℕ, zero, suc, ◌+◌, ◌-◌, ◌≤◌, ◌<◌, ◌≡◌, refl, ◌∙◌, true, false, Option, none, some, arith, take,
  drop, ltb, inl, inr, Bool-cases, ltb→lt, lt→ltb, ltb→le, ltb-false, Bytes, crlf_crlf, same_text,
  codes, find, Option-cases,
}
use titan_bench.Http.Message.{Response}
use titan_bench.Http.Number.{whole_size}
use titan_bench.Http.Parser.{
  Parsed, good, bad, header_loop, with_length, header_field, header_split, parse_header_line,
  loop_on, LoopEnd,
}
use titan_bench.Http.Chunks.{LineAt, find-LineAt}

module _ (s : Bytes) (pos : ℕ) (h : find crlf_crlf s ≡ some pos) where
  -- One round of the loop, when there is a line left.
  pub header_loop_round :
      (fuel b : ℕ) (r : Response)
      → b < pos
      → (l : LineAt s pos b)
      → header_loop (suc fuel) s pos b r
        ≡ loop_on
            (λ b' r'. header_loop fuel s pos b' r')
            r
            l.line_end
            (parse_header_line r (take (l.line_end - b) (drop b s)))
  unfolding header_loop
  header_loop_round fuel b r more l =
      let more' : ltb b pos ≡ true = lt→ltb b pos more in
      let near : ltb pos l.line_end ≡ false = ltb-false pos l.line_end l.to_pos in
      rw (more', l.found, near)

  header_loop_end : (fuel b : ℕ) (r : Response) → pos ≤ b → header_loop fuel s pos b r ≡ (r, none)
  unfolding header_loop
  header_loop_end zero b r k = refl
  header_loop_end (suc fuel) b r k = rw (ltb-false b pos k)

-- The errors of a header line.
abbrev pub LineError : String → Type 0
LineError m = (m ≡ "malformed header") ⊎ (m ≡ "invalid content-length")

-- A header line gives one of its two errors or changes the fields it may change.
abbrev pub LineResult : Response → Parsed Response → Type 0
LineResult r (bad m) = LineError m
LineResult r (good r') =
    (r'.message_complete ≡ r.message_complete) × (r'.status_code ≡ r.status_code)

with_length-LineResult : (r : Response) (n : Option ℕ) → LineResult r (with_length r n)
unfolding with_length
with_length-LineResult r none = inr refl
with_length-LineResult r (some n) = (refl, refl)

header_field-LineResult :
    (r : Response) (key value : Bytes) → LineResult r (header_field r key value)
unfolding header_field
header_field-LineResult r key value = elim (Bool-cases (same_text key (codes "content-length"))) [
  | inl sized ↦ rw sized (with_length-LineResult r (whole_size value))
  | inr not_size ↦ elim (Bool-cases (same_text key (codes "connection"))) [
    | inr other ↦ rw (not_size, other) (refl, refl)
    | inl kept ↦ elim (Bool-cases (same_text value (codes "close"))) [
      | inl close ↦ rw (not_size, kept, close) (refl, refl)
      | inr stay ↦ elim (Bool-cases (same_text value (codes "keep-alive"))) [
        | inl alive ↦ rw (not_size, kept, stay, alive) (refl, refl)
        | inr neither ↦ rw (not_size, kept, stay, neither) (refl, refl)
      ]
    ]
  ]
]

parse_header_line-LineResult :
    (r : Response) (line : Bytes) → LineResult r (parse_header_line r line)
unfolding parse_header_line header_split
parse_header_line-LineResult r line = elim (Option-cases (find (codes ":") line)) [
  | inl missing ↦ rw missing (inl refl)
  | inr (colon, found) ↦ rw found (header_field-LineResult r _ _)
]

-- How the loop may end: with fields, or with an error of a line.
abbrev pub LoopResult : Response → LoopEnd → Type 0
LoopResult r (r', none) =
    (r'.message_complete ≡ r.message_complete) × (r'.status_code ≡ r.status_code)
LoopResult r (r', some m) = LineError m

loop_trans :
    (r r' : Response) (e : LoopEnd)
    → r'.message_complete ≡ r.message_complete
    → r'.status_code ≡ r.status_code
    → LoopResult r' e
    → LoopResult r e
loop_trans r r' (x, none) k m (a, b) = (a ∙ k, b ∙ m)
loop_trans r r' (x, some message) k m h = h

loop_on-LoopResult :
    (f : ℕ → Response → LoopEnd) (r : Response) (e : ℕ) (x : Parsed Response)
    → LineResult r x
    → ((r' : Response) → LoopResult r' (f (e + 2) r'))
    → LoopResult r (loop_on f r e x)
unfolding loop_on
loop_on-LoopResult f r e (bad m) k h = k
loop_on-LoopResult f r e (good r') k h = loop_trans r r' (f (e + 2) r') k.0 k.1 (h r')

-- When the header block ends with an empty line at `pos`, the loop from any line at or before
-- it, on any number of rounds, ends with `malformed header` or `invalid content-length`, or
-- without an error and with the status code and the completion flag as they were; `invalid
-- header line` is never given.
pub header_loop-LoopResult :
    (s : Bytes) (pos : ℕ)
    → find crlf_crlf s ≡ some pos
    → (fuel b : ℕ) (r : Response) → LoopResult r (header_loop fuel s pos b r)
header_loop-LoopResult s pos h zero b r = unfold header_loop in (refl, refl)
header_loop-LoopResult s pos h (suc fuel) b r = elim (Bool-cases (ltb b pos)) [
  | inr done ↦ rw (header_loop_end s pos h (suc fuel) b r (ltb→le b pos done)) (refl, refl)
  | inl go ↦
      let go' = ltb→lt b pos go in
      let l = find-LineAt s pos b h (omega (arith, go')) in
      rw (header_loop_round s pos h fuel b r go' l) (
        loop_on-LoopResult _ r l.line_end _ (parse_header_line-LineResult r _)
          (λ r'. header_loop-LoopResult s pos h fuel (l.line_end + 2) r'))
]

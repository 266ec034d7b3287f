-- ===== src/Http/Chunks.antt =====
-- src/protocol/http.cpp: lemmas on input that comes later, up to the header lines.
use Prim.Native.String.{String}
use mathlib.Core.Logic.{◌⊎◌}
use titan_bench.Base.{
  ℕ, zero, suc, ◌+◌, ◌-◌, ◌≤◌, ◌≡◌, refl, Bool, true, false, ◌++◌, some, arith, length, take, drop,
  take-append, drop-append, ltb, inl, inr, Bool-cases, Option-cases, length-drop, ltb→lt, ltb-false,
  Bytes, crlf, crlf_crlf, find, find_from, find-le, find-append, find-drop, find-crlf_le,
}
use titan_bench.Http.Message.{Response}
use titan_bench.Http.Parser.{
  State, k_status_line, k_headers, k_body, k_done, k_error, Parser, Parsed, good, bad, header_loop,
  loop_on, LoopEnd,
}
use titan_bench.Http.Feed.{dispatch, extend}

-- The line that a round of the header loop reads ends at or before the empty line.
pub record LineAt (s : Bytes) (pos b : ℕ) : Type 0 where
  pub line_end : ℕ
  pub from_b : b ≤ line_end
  pub to_pos : line_end ≤ pos
  pub found : find_from crlf s b ≡ some line_end
  pub inside : line_end ≤ length s

pub find-LineAt : (s : Bytes) (pos b : ℕ) → find crlf_crlf s ≡ some pos → b ≤ pos → LineAt s pos b
find-LineAt s pos b h k =
    let (r, first, below) = find-crlf_le (drop b s) (pos - b) (find-drop crlf_crlf s b pos h k) in
    record {
      line_end = b + r;
      from_b = omega arith;
      to_pos = omega arith;
      found = rw first;
      inside = omega (arith, find-le crlf_crlf s pos h);
    }

find_from-append :
    (s t : Bytes) (b e : ℕ)
    → b ≤ length s
    → find_from crlf s b ≡ some e
    → find_from crlf (s ++ t) b ≡ some e
find_from-append s t b e h found = elim (Option-cases (find crlf (drop b s))) [
  | inl missing ↦ cc (missing, found)
  | inr (r, first) ↦
      rw (drop-append b s t h, find-append crlf (drop b s) t r first) (rw first at found)
]

line-append :
    (s t : Bytes) (b e : ℕ)
    → b ≤ e
    → e ≤ length s
    → take (e - b) (drop b (s ++ t)) ≡ take (e - b) (drop b s)
line-append s t b e h k =
    rw (drop-append b s t (omega arith))
      (take-append (e - b) (drop b s) t (omega (arith, length-drop b s)))

-- The rounds that follow may be replaced by equal ones.
loop_on_ext :
    (f g : ℕ → Response → LoopEnd) (r : Response) (e : ℕ) (x : Parsed Response)
    → ((b : ℕ) (r' : Response) → f b r' ≡ g b r')
    → loop_on f r e x ≡ loop_on g r e x
unfolding loop_on
loop_on_ext f g r e (good r') h = h (e + 2) r'
loop_on_ext f g r e (bad m) h = refl

-- The header loop reads nothing behind the empty line.
pub header_loop-append :
    (s t : Bytes) (pos : ℕ)
    → find crlf_crlf s ≡ some pos
    → (fuel b : ℕ) (r : Response) → header_loop fuel (s ++ t) pos b r ≡ header_loop fuel s pos b r
unfolding header_loop
header_loop-append s t pos h zero b r = refl
header_loop-append s t pos h (suc fuel) b r = elim (Bool-cases (ltb b pos)) [
  | inl more ↦
      let l = find-LineAt s pos b h (omega (arith, ltb→lt b pos more)) in
      let e = l.line_end in
      let near : ltb pos e ≡ false = ltb-false pos e l.to_pos in
      rw
        (
          more,
          find_from-append s t b e (omega (arith, l.from_b, l.inside)) l.found,
          l.found,
          near,
          line-append s t b e l.from_b l.inside,
        )
        (loop_on_ext _ _ r e _ (header_loop-append s t pos h fuel))
  | inr done ↦ rw done
]

-- What the caller sees of a parser, and what a call returned.
abbrev pub Seen : Type 0
Seen = State × Response × String × Bytes × Bool

abbrev pub seen : Parser × Bool → Seen
seen (p, b) = (p.state, p.response, p.error_message, p.body, b)

-- The states in which input is read.
pub data Reads : State → Type 0 where
  status : Reads k_status_line
  headers : Reads k_headers
  body : Reads k_body

-- What a call leaves behind: it is over, and more input changes nothing that is seen, or it
-- waits, and more input is handled as if it had come at once.
pub data Steady (b : Bytes) (one both : Parser × Bool) : Type 0 where
  over :
      (one.0.state ≡ k_done) × (one.1 ≡ true) ⊎ (one.0.state ≡ k_error) × (one.1 ≡ false)
      → seen both ≡ seen one
      → Steady b one both
  waits :
      (s : State)
      → Reads s
      → one.0.state ≡ s
      → one.1 ≡ true
      → both ≡ dispatch s (extend one.0 b)
      → Steady b one both

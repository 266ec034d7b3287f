-- ===== src/Http/Parser.antt =====
-- src/protocol/http.cpp: `ResponseParser`. `Feed` loops over a switch on the state; every `break`
-- re-enters the switch in the state that was tested just before, so the loop is a call of that
-- case here. A null pointer is the empty input: both are accepted and change nothing.
use Prim.Native.String.{String}
use titan_bench.Base.{
  ℕ, zero, suc, ◌+◌, ◌-◌, Bool, true, false, not, ◌||◌, [], Option, none, some, length, take, drop,
  ltb, if◌then◌else◌, ℤ, Bytes, codes, crlf, same_text, starts_with, find, find_from,
}
use titan_bench.Http.Message.{Response, no_response, to_lower_ascii, trim_ascii}
use titan_bench.Http.Number.{whole_int, whole_size}

pub data State : Type 0 where
  k_status_line k_headers k_body k_done k_error : State

pub record Parser : Type 0 where
  pub state : State
  pub response : Response
  pub error_message : String
  pub pending : Bytes
  pub body : Bytes

-- `Reset`, which the constructor calls.
abbrev pub reset : Parser
reset = record {
  state = k_status_line;
  response = no_response;
  error_message = "";
  pending = [];
  body = [];
}

-- `SetError` and the `return false` behind it.
abbrev pub fails : Parser → String → Parser × Bool
fails p message = (record p { error_message = message; state = k_error }, false)

-- What a line gives: a value, or the message of the error.
pub data Parsed (A : Type 0) : Type 0 where
  good : A → Parsed A
  bad : String → Parsed A

read_code : Option ℤ → Parsed ℤ
read_code none = bad "invalid status code"
read_code (some code) = good code

code_after : Bytes → Option ℕ → Parsed ℤ
unfolding read_code
code_after line none = bad "invalid status line format"
code_after line (some first_space) =
    if ltb (length line) (first_space + 4)
    then bad "invalid status line format"
    else read_code (whole_int (take 3 (drop (first_space + 1) line)))

unfoldable pub status_of_line : Bytes → Parsed ℤ
unfolding code_after
status_of_line line =
    if ltb (length line) 12 || not (starts_with (codes "HTTP/") line)
    then bad "invalid status line"
    else code_after line (find (codes " ") line)

unfoldable pub take_status : Parser → ℕ → Parsed ℤ → Parser × Bool
take_status p pos (bad message) = fails p message
take_status p pos (good code) = (
  record p {
    response = record p.response { status_code = code };
    pending = drop (pos + 2) p.pending;
    state = k_headers;
  },
  true,
)

unfoldable pub status_at : Parser → Option ℕ → Parser × Bool
unfolding take_status
status_at p none = (p, true)
status_at p (some pos) = take_status p pos (status_of_line (take pos p.pending))

unfoldable pub parse_status_line : Parser → Parser × Bool
unfolding status_at
parse_status_line p = status_at p (find crlf p.pending)

unfoldable pub with_length : Response → Option ℕ → Parsed Response
with_length r none = bad "invalid content-length"
with_length r (some n) = good (record r { has_content_length = true; content_length = n })

unfoldable pub header_field : Response → Bytes → Bytes → Parsed Response
unfolding with_length
header_field r key value =
    if same_text key (codes "content-length")
    then with_length r (whole_size value)
    else if same_text key (codes "connection")
    then good (
        if same_text value (codes "close")
        then record r { keep_alive = false }
        else if same_text value (codes "keep-alive")
        then record r { keep_alive = true }
        else r)
    else good r

unfoldable pub header_split : Response → Bytes → Option ℕ → Parsed Response
unfolding header_field
header_split r line none = bad "malformed header"
header_split r line (some colon) =
    header_field r (to_lower_ascii (trim_ascii (take colon line)))
      (to_lower_ascii (trim_ascii (drop (colon + 1) line)))

-- The body of the loop over the header lines, from the search for the colon on.
unfoldable pub parse_header_line : Response → Bytes → Parsed Response
unfolding header_split
parse_header_line r line = header_split r line (find (codes ":") line)

-- How the loop ended: with the fields read so far, and the message of an error.
abbrev pub LoopEnd : Type 0
LoopEnd = Response × Option String

unfoldable pub loop_on : (ℕ → Response → LoopEnd) → Response → ℕ → Parsed Response → LoopEnd
loop_on next r line_end (bad message) = (r, some message)
loop_on next r line_end (good r') = next (line_end + 2) r'

unfoldable pub loop_line : (ℕ → Response → LoopEnd) → Bytes → ℕ → ℕ → Response → Option ℕ → LoopEnd
unfolding loop_on
loop_line next pending pos line_begin r none = (r, some "invalid header line")
loop_line next pending pos line_begin r (some line_end) =
    if ltb pos line_end
    then (r, some "invalid header line")
    else loop_on next r line_end
        (parse_header_line r (take (line_end - line_begin) (drop line_begin pending)))

-- `while (line_begin < pos)`: each round moves `line_begin` on, so `pos` rounds are enough.
unfoldable pub header_loop : ℕ → Bytes → ℕ → ℕ → Response → LoopEnd
unfolding loop_line
header_loop zero pending pos line_begin r = (r, none)
header_loop (suc fuel) pending pos line_begin r =
    let round =
      loop_line (λ b r'. header_loop fuel pending pos b r') pending pos line_begin r
        (find_from crlf pending line_begin) in
    if ltb line_begin pos then round else (r, none)

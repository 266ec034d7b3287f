-- ===== src/Http/Feed.antt =====
-- src/protocol/http.cpp: `ParseBody`, `ParseHeaders`, `Feed` and `MarkEof`.
use titan_bench.Base.{
  ℕ, ◌+◌, ◌-◌, min, Bool, true, false, [], ◌∷◌, ◌++◌, Option, none, some, length, take, drop, ltb,
  ◌==◌, if◌then◌else◌, Bytes, crlf_crlf, find,
}
use titan_bench.Http.Parser.{
  State, k_status_line, k_headers, k_body, k_done, k_error, Parser, fails, parse_status_line,
  header_loop, LoopEnd,
}

-- Move what the body still needs out of the buffer.
unfoldable pub fill_body : ℕ → Parser → Parser
fill_body need p =
    let n = min (need - length p.body) (length p.pending) in
    if ltb (length p.body) need
    then record p { body = p.body ++ take n p.pending; pending = drop n p.pending }
    else p

unfoldable pub check_body : ℕ → Parser → Parser × Bool
check_body need p =
    if length p.body == need
    then (
      record p { response = record p.response { message_complete = true }; state = k_done },
      true,
    )
    else if ltb need (length p.body)
    then fails p "body larger than content-length"
    else (p, true)

unfoldable pub parse_body : Parser → Parser × Bool
unfolding fill_body check_body
parse_body p =
    if p.response.has_content_length
    then check_body p.response.content_length (fill_body p.response.content_length p)
    else (record p { body = p.body ++ p.pending; pending = [] }, true)

unfoldable pub body_after : Parser → ℕ → LoopEnd → Parser × Bool
body_after p pos (r, some message) = fails (record p { response = r }) message
body_after p pos (r, none) = parse_body (record p {
  response = record r { header_done = true };
  pending = drop (pos + 4) p.pending;
  state = k_body;
})

unfoldable pub headers_at : Parser → Option ℕ → Parser × Bool
unfolding body_after
headers_at p none = (p, true)
headers_at p (some pos) = body_after p pos (header_loop pos p.pending pos 0 p.response)

unfoldable pub parse_headers : Parser → Parser × Bool
unfolding headers_at
parse_headers p = headers_at p (find crlf_crlf p.pending)

-- `state_ != kError`, the result of a `Feed` that stops between two states.
abbrev pub not_error : State → Bool
not_error k_error = false
not_error _ = true

-- Past `ParseHeaders`: on to the body, or out.
unfoldable pub from_headers : State → Parser × Bool → Parser × Bool
from_headers k_body (p, true) = parse_body p
from_headers s (p, true) = (p, not_error s)
from_headers s (p, false) = (p, false)

unfoldable pub feed_headers : Parser → Parser × Bool
unfolding from_headers
feed_headers p = let r = parse_headers p in from_headers r.0.state r

-- Past `ParseStatusLine`: on to the headers, or out.
unfoldable pub from_status : State → Parser × Bool → Parser × Bool
from_status k_headers (p, true) = feed_headers p
from_status s (p, true) = (p, not_error s)
from_status s (p, false) = (p, false)

unfoldable pub feed_status : Parser → Parser × Bool
unfolding from_status
feed_status p = let r = parse_status_line p in from_status r.0.state r

-- The case of the switch that the state selects.
unfoldable pub dispatch : State → Parser → Parser × Bool
dispatch k_status_line p = feed_status p
dispatch k_headers p = feed_headers p
dispatch k_body p = parse_body p
dispatch k_done p = (p, true)
dispatch k_error p = (p, false)

-- Append to the buffer.
abbrev pub extend : Parser → Bytes → Parser
extend p input = record p { pending = p.pending ++ input }

unfoldable pub feed_in : State → Parser → Bytes → Parser × Bool
feed_in k_error p input = (p, false)
feed_in k_done p input = (p, true)
feed_in s p [] = (p, true)
feed_in s p (c ∷ cs) = dispatch s (extend p (c ∷ cs))

unfoldable pub feed : Parser → Bytes → Parser × Bool
unfolding feed_in
feed p input = feed_in p.state p input

unfoldable pub eof_in : State → Bool → Parser → Parser
eof_in k_body false p = record p {
  body = p.body ++ p.pending;
  pending = [];
  response = record p.response {
    content_length = length (p.body ++ p.pending);
    message_complete = true;
  };
  state = k_done;
}
eof_in _ _ p = p

unfoldable pub mark_eof : Parser → Parser
unfolding eof_in
mark_eof p = eof_in p.state p.response.has_content_length p

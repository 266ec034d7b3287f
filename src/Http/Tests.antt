-- ===== src/Http/Tests.antt =====
-- Runs of src/protocol/http.cpp on small inputs, and its theorems at concrete inputs.
use titan_bench.Base.{
  ◌≡◌, refl, [], ◌∷◌, true, false, Bytes, codes, starts_with, find, same_text, pos, take, drop,
  crlf_crlf, some, is_space, skip_space, is_digit, read_number, read_digits,
}
use titan_bench.Http.Message.{no_response, to_lower_ascii, trim_ascii, build_get_request}
use titan_bench.Http.Number.{whole_int, whole_size}
use titan_bench.Http.Parser.{
  k_headers, k_done, reset, parse_status_line, parse_header_line, header_loop, status_of_line,
}
use titan_bench.Http.Feed.{
  parse_body, parse_headers, feed_headers, feed_status, from_status, from_headers, dispatch, feed,
  mark_eof,
}
use titan_bench.Http.Chunks.{seen}
use titan_bench.Http.Pieces.{feed_all, joined, feed_all_lem}
use titan_bench.Http.Lines.{LoopResult, header_loop-LoopResult}
use titan_bench.Http.Sound.{Sound, feed-Sound, response_body-Sound}

abbrev reply : Bytes
reply = codes "HTTP/1.1 404 Not Found\r\nContent-Length:  2 \r\nConnection: Close\r\n\r\nhi"

feed-reply : (feed reset reply).0 ≡ record {
  state = k_done;
  response = record {
    status_code = pos 404;
    content_length = 2;
    has_content_length = true;
    header_done = true;
    message_complete = true;
    keep_alive = false;
  };
  error_message = "";
  pending = [];
  body = codes "hi";
}
unfolding feed dispatch feed_status from_status feed_headers from_headers parse_status_line
    parse_headers parse_body status_of_line header_loop parse_header_line find starts_with same_text
    trim_ascii skip_space is_space to_lower_ascii whole_int whole_size read_number read_digits
    is_digit
feed-reply = refl

request_run :
    build_get_request (record {
      host = codes "h";
      path = codes "get";
      headers = record { key = codes "Accept"; value = codes "x" } ∷ [];
      keep_alive = true;
    })
    ≡ codes "GET /get HTTP/1.1\r\nHost: h\r\nAccept: x\r\nConnection: keep-alive\r\n\r\n"
unfolding build_get_request to_lower_ascii same_text
request_run = refl

feed_all_lem_example :
    seen (feed_all reset (take 20 reply ∷ take 40 (drop 20 reply) ∷ drop 60 reply ∷ []))
    ≡ seen (feed reset (joined (take 20 reply ∷ take 40 (drop 20 reply) ∷ drop 60 reply ∷ [])))
feed_all_lem_example =
    feed_all_lem reset (take 20 reply ∷ take 40 (drop 20 reply) ∷ drop 60 reply ∷ [])

abbrev block : Bytes
block = codes "A: b\r\nC: d\r\n\r\n"

block_end : find crlf_crlf block ≡ some 10
unfolding find starts_with
block_end = refl

header_loop-LoopResult_example : LoopResult no_response (header_loop 10 block 10 0 no_response)
header_loop-LoopResult_example = header_loop-LoopResult block 10 block_end 10 0 no_response

response_body-Sound_example :
    Sound (feed_all reset (take 30 reply ∷ drop 30 reply ∷ [])).0
    × Sound (mark_eof (feed_all reset (take 30 reply ∷ drop 30 reply ∷ [])).0)
response_body-Sound_example = response_body-Sound (take 30 reply ∷ drop 30 reply ∷ [])

feed-Sound_example : Sound (feed reset reply).0
feed-Sound_example = feed-Sound reset reply (refl, refl)

-- A reply without a header field waits in the headers for ever: the empty line has already lost
-- its first half to the status line.
no_fields_run : (feed reset (codes "HTTP/1.1 204 No Content\r\n\r\n")).0.state ≡ k_headers
unfolding feed dispatch feed_status from_status feed_headers from_headers parse_status_line
    parse_headers parse_body status_of_line header_loop parse_header_line find starts_with same_text
    trim_ascii skip_space is_space to_lower_ascii whole_int whole_size read_number read_digits
    is_digit
no_fields_run = refl

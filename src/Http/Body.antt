-- ===== src/Http/Body.antt =====
-- src/protocol/http.cpp: what `ParseBody` does, case by case.
use titan_bench.Base.{
  drop_all, ◌+◌, ◌-◌, ◌≤◌, ◌<◌, ◌≡◌, true, false, [], ◌++◌, arith, length, take, drop,
  length-append, length-take, take_all, append-nil,
}
use titan_bench.Http.Parser.{Parser, k_done, fails}
use titan_bench.Http.Feed.{parse_body}

module _ (p : Parser) (sized : p.response.has_content_length ≡ true) where
  -- The body is longer than was announced.
  pub parse_body_over :
      p.response.content_length < length p.body
      → parse_body p ≡ fails p "body larger than content-length"
  unfolding parse_body
  parse_body_over h = ground arith

  -- All of it has come, perhaps with more behind it.
  pub parse_body_full :
      length p.body ≤ p.response.content_length
      → p.response.content_length ≤ length p.body + length p.pending
      → parse_body p ≡ (
        record p {
          body = p.body ++ take (p.response.content_length - length p.body) p.pending;
          pending = drop (p.response.content_length - length p.body) p.pending;
          response = record p.response { message_complete = true };
          state = k_done;
        },
        true,
      )
  unfolding parse_body
  parse_body_full h k = ground (
    arith,
    append-nil p.body,
    length-append p.body (take (p.response.content_length - length p.body) p.pending),
    length-take (p.response.content_length - length p.body) p.pending,
  )

  -- Some of it is still to come.
  pub parse_body_short :
      length p.body + length p.pending < p.response.content_length
      → parse_body p ≡ (record p { body = p.body ++ p.pending; pending = [] }, true)
  unfolding parse_body
  parse_body_short h = ground (
    arith,
    length-append p.body p.pending,
    take_all (length p.pending) p.pending,
    drop_all (length p.pending) p.pending,
  )

-- Without a length the body takes all that comes.
pub parse_body_open :
    (p : Parser)
    → p.response.has_content_length ≡ false
    → parse_body p ≡ (record p { body = p.body ++ p.pending; pending = [] }, true)
unfolding parse_body
parse_body_open p open_end = ground arith

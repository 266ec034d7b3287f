-- ===== src/Http/Steady.antt =====
-- src/protocol/http.cpp: lemmas on input that comes later, for each case of `Feed`.
use titan_bench.Base.{
  take_past, drop_past, ℕ, ℤ, ◌+◌, ◌-◌, ◌≤◌, ◌<◌, ◌≡◌, refl, sym, subst, Bool, true, [], ◌++◌, none,
  some, arith, length, take, drop, length-append, take-append, drop-append, append-nil,
  append_assoc, ltb, inl, inr, Bool-cases, Option-cases, ltb→lt, ltb→le, Bytes, crlf, crlf_crlf,
  find, find-le, find-append,
}
use titan_bench.Http.Parser.{
  State, k_status_line, k_headers, k_body, k_done, k_error, Parser, Parsed, good, bad,
  parse_status_line, LoopEnd, status_at, take_status,
}
use titan_bench.Http.Feed.{
  parse_body, parse_headers, headers_at, body_after, from_headers, feed_headers, from_status,
  feed_status, dispatch, extend,
}
use titan_bench.Http.Body.{parse_body_over, parse_body_full, parse_body_short, parse_body_open}
use titan_bench.Http.Chunks.{Reads, status, headers, body, Steady, over, waits, header_loop-append}

module _ (p : Parser) (b : Bytes) (h : p.state ≡ k_body) where
  full_case :
      p.response.has_content_length ≡ true
      → length p.body ≤ p.response.content_length
      → p.response.content_length ≤ length p.body + length p.pending
      → Steady b (parse_body p) (parse_body (extend p b))
  full_case sized low high =
      rw
        (
          parse_body_full p sized low high,
          parse_body_full (extend p b) sized low (omega (arith, length-append p.pending b)),
          take-append (p.response.content_length - length p.body) p.pending b (omega arith),
        )
        (over (inl (refl, refl)) refl)

  -- The body is still short: what comes next goes behind it.
  abbrev later : Parser
  later = record p { body = p.body ++ p.pending; pending = b }

  later_same :
      p.response.has_content_length ≡ true
      → length p.body ≤ p.response.content_length
      → length p.body + length p.pending < p.response.content_length
      → parse_body (extend p b) ≡ parse_body later
  later_same sized low high =
      elim (Bool-cases
        (ltb (length p.body + (length p.pending + length b)) p.response.content_length)) [
          | inl still ↦ rw (
            parse_body_short (extend p b) sized
                (omega (arith, length-append p.pending b, ltb→lt _ _ still)),
            parse_body_short later sized
                (omega (arith, length-append p.body p.pending, ltb→lt _ _ still)),
            append_assoc p.body p.pending b,
          )
          | inr all ↦
              let high' = ltb→le _ _ all in
              let joined = length-append p.body p.pending in
              let need = p.response.content_length in
              let rest : need - length p.body - length p.pending
                  ≡ need - length (p.body ++ p.pending) =
                omega (arith, joined) in
              rw (
                parse_body_full (extend p b) sized low
                    (omega (arith, length-append p.pending b, high')),
                parse_body_full later sized (omega (arith, joined)) (omega (arith, joined, high')),
                take_past (need - length p.body) p.pending b (omega arith),
                drop_past (need - length p.body) p.pending b (omega arith),
                rest,
                append_assoc p.body p.pending (take (need - length (p.body ++ p.pending)) b),
              )
        ]

  short_case :
      p.response.has_content_length ≡ true
      → length p.body ≤ p.response.content_length
      → length p.body + length p.pending < p.response.content_length
      → Steady b (parse_body p) (parse_body (extend p b))
  short_case sized low high =
      rw (parse_body_short p sized high)
        (waits k_body body h refl (unfold dispatch in later_same sized low high))

  sized-Steady :
      p.response.has_content_length ≡ true → Steady b (parse_body p) (parse_body (extend p b))
  sized-Steady sized = elim (Bool-cases (ltb p.response.content_length (length p.body))) [
    | inl big ↦
        let big' = ltb→lt _ _ big in
        rw (parse_body_over p sized big', parse_body_over (extend p b) sized big')
          (over (inr (refl, refl)) refl)
    | inr small ↦
        elim (Bool-cases (ltb (length p.body + length p.pending) p.response.content_length)) [
          | inr all ↦ full_case sized (ltb→le _ _ small) (ltb→le _ _ all)
          | inl some_left ↦ short_case sized (ltb→le _ _ small) (ltb→lt _ _ some_left)
        ]
  ]

  pub parse_body-Steady : Steady b (parse_body p) (parse_body (extend p b))
  parse_body-Steady = elim (Bool-cases p.response.has_content_length) [
    | inr open_end ↦ rw (parse_body_open p open_end) (
        waits k_body body h refl (
          unfold dispatch in
          rw (
            parse_body_open (extend p b) open_end,
            parse_body_open later open_end,
            append_assoc p.body p.pending b,
          )))
    | inl sized ↦ sized-Steady sized
  ]

waited : Parser → Parser
waited p = record p { body = p.body ++ p.pending; pending = [] }

settled :
    (p : Parser)
    → parse_body p ≡ (waited p, true)
    → p.state ≡ k_body
    → parse_body (waited p) ≡ (waited p, true)
    → from_headers (parse_body p).0.state (parse_body p) ≡ parse_body p
unfolding from_headers waited
settled p e h twice =
    subst (λ r. from_headers r.0.state r ≡ r) (sym e)
      (subst (λ s. from_headers s (waited p, true) ≡ (waited p, true)) (sym h) twice)

-- A second `ParseBody` finds nothing left to do.
pub again :
    (p : Parser)
    → p.state ≡ k_body
    → from_headers (parse_body p).0.state (parse_body p) ≡ parse_body p
unfolding from_headers waited
again p h = elim (Bool-cases p.response.has_content_length) [
  | inr open_end ↦
      settled p (parse_body_open p open_end) h
        (rw (parse_body_open (waited p) open_end, append-nil (p.body ++ p.pending)))
  | inl sized ↦ elim (Bool-cases (ltb p.response.content_length (length p.body))) [
    | inl big ↦ rw (parse_body_over p sized (ltb→lt _ _ big))
    | inr low ↦
        elim (Bool-cases (ltb (length p.body + length p.pending) p.response.content_length)) [
          | inr all ↦ rw (parse_body_full p sized (ltb→le _ _ low) (ltb→le _ _ all))
          | inl short ↦ settled p (parse_body_short p sized (ltb→lt _ _ short)) h (
              rw (
                parse_body_short (waited p) sized
                    (omega (arith, length-append p.body p.pending, ltb→lt _ _ short)),
                append-nil (p.body ++ p.pending),
              ))
        ]
  ]
]

waits_same :
    (p : Parser) (b : Bytes) (s : State) (one both : Parser × Bool)
    → Reads s
    → p.state ≡ s
    → one ≡ (p, true)
    → both ≡ dispatch s (extend p b)
    → Steady b one both
waits_same p b s one both reads h e f =
    subst (λ o. Steady b o both) (sym e) (waits s reads h refl f)

abbrev onward : Parser × Bool → Parser × Bool
onward r = from_headers r.0.state r

abbrev past_status : Parser × Bool → Parser × Bool
past_status r = from_status r.0.state r

body_after-Steady :
    (p : Parser) (b : Bytes) (pos : ℕ) (e : LoopEnd)
    → pos + 4 ≤ length p.pending
    → Steady b (onward (body_after p pos e)) (onward (body_after (extend p b) pos e))
unfolding body_after
body_after-Steady p b pos (r, some message) room =
    unfold from_headers in over (inr (refl, refl)) refl
body_after-Steady p b pos (r, none) room =
    let q : Parser = record p {
      response = record r { header_done = true };
      pending = drop (pos + 4) p.pending;
      state = k_body;
    } in
    rw (again q refl, drop-append (pos + 4) p.pending b room, again (extend q b) refl)
      (parse_body-Steady q b refl)

headers_at-none : (p : Parser) → p.state ≡ k_headers → onward (headers_at p none) ≡ (p, true)
unfolding headers_at from_headers
headers_at-none p h = rw h

feed_headers-Steady :
    (p : Parser) (b : Bytes)
    → p.state ≡ k_headers
    → Steady b (feed_headers p) (feed_headers (extend p b))
unfolding parse_headers feed_headers
feed_headers-Steady p b h = elim (Option-cases (find crlf_crlf p.pending)) [
  | inl missing ↦
      waits_same p b k_headers _ _ headers h (rw missing (headers_at-none p h))
        (unfold dispatch in refl)
  | inr (pos, found) ↦
      rw (found, find-append crlf_crlf p.pending b pos found)
        (unfold headers_at in
          rw (header_loop-append p.pending b pos found pos 0 p.response)
            (body_after-Steady p b pos _ (omega (arith, find-le crlf_crlf p.pending pos found))))
]

take_status-Steady :
    (p : Parser) (b : Bytes) (pos : ℕ) (line : Parsed ℤ)
    → pos + 2 ≤ length p.pending
    → Steady b
        (past_status (take_status p pos line))
        (past_status (take_status (extend p b) pos line))
unfolding take_status from_status
take_status-Steady p b pos (bad message) room = over (inr (refl, refl)) refl
take_status-Steady p b pos (good code) room = rw (drop-append (pos + 2) p.pending b room) (
    feed_headers-Steady
      (record p {
        response = record p.response { status_code = code };
        pending = drop (pos + 2) p.pending;
        state = k_headers;
      })
      b refl)

status_at-none : (p : Parser) → p.state ≡ k_status_line → past_status (status_at p none) ≡ (p, true)
unfolding status_at from_status
status_at-none p h = rw h

feed_status-Steady :
    (p : Parser) (b : Bytes)
    → p.state ≡ k_status_line
    → Steady b (feed_status p) (feed_status (extend p b))
unfolding parse_status_line feed_status
feed_status-Steady p b h = elim (Option-cases (find crlf p.pending)) [
  | inl missing ↦
      waits_same p b k_status_line _ _ status h (rw missing (status_at-none p h))
        (unfold dispatch in refl)
  | inr (pos, found) ↦
      let inside = find-le crlf p.pending pos found in
      rw (found, find-append crlf p.pending b pos found)
        (unfold status_at in
          rw (take-append pos p.pending b (omega (arith, inside)))
            (take_status-Steady p b pos _ (omega (arith, inside))))
]

pub dispatch-Steady :
    (p : Parser) (b : Bytes) (s : State)
    → Reads s
    → p.state ≡ s
    → Steady b (dispatch s p) (dispatch s (extend p b))
unfolding dispatch
dispatch-Steady p b k_status_line status h = feed_status-Steady p b h
dispatch-Steady p b k_headers headers h = feed_headers-Steady p b h
dispatch-Steady p b k_body body h = parse_body-Steady p b h
dispatch-Steady p b k_done reads h = elim reads [ ]
dispatch-Steady p b k_error reads h = elim reads [ ]

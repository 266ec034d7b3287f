-- ===== src/Http/Sound.antt =====
-- src/protocol/http.cpp: the body and the completion flag in each state of the parser.
use mathlib.Core.Logic.{◌⊎◌}
use titan_bench.Base.{
  ℕ, ℤ, ◌+◌, ◌-◌, ◌≤◌, ◌<◌, ◌≡◌, refl, subst, ◌∙◌, Bool, true, false, List, [], ◌∷◌, none, some,
  arith, length, take, drop, length-append, length-take, ltb, inl, inr, Bool-cases, Option-cases,
  ltb→lt, ltb→le, Bytes, crlf, crlf_crlf, find,
}
use titan_bench.Http.Parser.{
  State, k_status_line, k_headers, k_body, k_done, k_error, Parser, Parsed, good, bad, reset,
  LoopEnd, parse_status_line, status_at, take_status,
}
use titan_bench.Http.Feed.{
  parse_body, parse_headers, headers_at, body_after, from_headers, feed_headers, from_status,
  feed_status, dispatch, extend, feed, feed_in, mark_eof, eof_in,
}
use titan_bench.Http.Body.{parse_body_full, parse_body_short, parse_body_open}
use titan_bench.Http.Steady.{again}
use titan_bench.Http.Lines.{LoopResult, header_loop-LoopResult}
use titan_bench.Http.Pieces.{feed_all}

-- In each state: how much of the body is there, and whether the message is complete.
abbrev pub SoundIn : State → Parser → Type 0
SoundIn k_status_line p = (p.response.message_complete ≡ false) × (p.body ≡ [])
SoundIn k_headers p = (p.response.message_complete ≡ false) × (p.body ≡ [])
SoundIn k_body p =
    (p.response.message_complete ≡ false)
    × ((p.response.has_content_length ≡ false) ⊎ (length p.body < p.response.content_length))
SoundIn k_done p =
    (p.response.message_complete ≡ true) × (length p.body ≡ p.response.content_length)
SoundIn k_error p = p.body ≡ []

abbrev pub Sound : Parser → Type 0
Sound p = SoundIn p.state p

-- What the body has room for while it is read.
abbrev Room : Parser → Type 0
Room p = (p.response.has_content_length ≡ false) ⊎ (length p.body ≤ p.response.content_length)

body_left :
    (p : Parser)
    → p.state ≡ k_body
    → p.response.message_complete ≡ false
    → p.response.has_content_length ≡ true
    → length p.body ≤ p.response.content_length
    → Sound (parse_body p).0
body_left p h m sized low =
    elim (Bool-cases (ltb (length p.body + length p.pending) p.response.content_length)) [
      | inr all ↦
          let all' = ltb→le _ _ all in
          rw (parse_body_full p sized low all') (
            refl,
            omega (
              arith,
              length-append p.body (take (p.response.content_length - length p.body) p.pending),
              length-take (p.response.content_length - length p.body) p.pending,
            ),
          )
      | inl short ↦
          rw (parse_body_short p sized (ltb→lt _ _ short))
            (rw h (m, inr (omega (arith, length-append p.body p.pending, ltb→lt _ _ short))))
    ]

parse_body-Sound :
    (p : Parser)
    → p.state ≡ k_body
    → p.response.message_complete ≡ false
    → Room p
    → Sound (parse_body p).0
parse_body-Sound p h m (inl open_end) = rw (parse_body_open p open_end) (rw h (m, inl open_end))
parse_body-Sound p h m (inr low) = elim (Bool-cases p.response.has_content_length) [
  | inl sized ↦ body_left p h m sized low
  | inr open_end ↦ rw (parse_body_open p open_end) (rw h (m, inl open_end))
]

abbrev onward : Parser × Bool → Parser × Bool
onward r = from_headers r.0.state r

body_after-Sound :
    (p : Parser) (pos : ℕ) (e : LoopEnd)
    → p.body ≡ []
    → p.response.message_complete ≡ false
    → LoopResult p.response e
    → Sound (onward (body_after p pos e)).0
unfolding body_after
body_after-Sound p pos (r, some message) empty m ok = unfold from_headers in empty
body_after-Sound p pos (r, none) empty m ok =
    let q : Parser = record p {
      response = record r { header_done = true };
      pending = drop (pos + 4) p.pending;
      state = k_body;
    } in
    rw (again q refl) (parse_body-Sound q refl (ok.0 ∙ m) (inr (rw empty (omega arith))))

feed_headers-Sound :
    (p : Parser)
    → p.state ≡ k_headers
    → p.response.message_complete ≡ false
    → p.body ≡ []
    → Sound (feed_headers p).0
unfolding feed_headers parse_headers headers_at
feed_headers-Sound p h m empty = elim (Option-cases (find crlf_crlf p.pending)) [
  | inl missing ↦ rw missing (unfold from_headers in rw h (m, empty))
  | inr (pos, found) ↦ rw found (
      body_after-Sound p pos _ empty m
        (header_loop-LoopResult p.pending pos found pos 0 p.response))
]

abbrev past_status : Parser × Bool → Parser × Bool
past_status r = from_status r.0.state r

take_status-Sound :
    (p : Parser) (pos : ℕ) (line : Parsed ℤ)
    → p.response.message_complete ≡ false
    → p.body ≡ []
    → Sound (past_status (take_status p pos line)).0
unfolding take_status from_status
take_status-Sound p pos (bad message) m empty = empty
take_status-Sound p pos (good code) m empty = feed_headers-Sound _ refl m empty

feed_status-Sound :
    (p : Parser)
    → p.state ≡ k_status_line
    → p.response.message_complete ≡ false
    → p.body ≡ []
    → Sound (feed_status p).0
unfolding feed_status parse_status_line status_at
feed_status-Sound p h m empty = elim (Option-cases (find crlf p.pending)) [
  | inl missing ↦ rw missing (unfold from_status in rw h (m, empty))
  | inr (pos, found) ↦ rw found (take_status-Sound p pos _ m empty)
]

Room-lt :
    (p : Parser)
    → (p.response.has_content_length ≡ false) ⊎ (length p.body < p.response.content_length)
    → Room p
Room-lt p (inl open_end) = inl open_end
Room-lt p (inr small) = inr (omega arith)

feed_in-Sound :
    (p : Parser) (s : State) (a : Bytes) → p.state ≡ s → Sound p → Sound (feed_in s p a).0
unfolding feed_in dispatch
feed_in-Sound p k_done a h sound = sound
feed_in-Sound p k_error a h sound = sound
feed_in-Sound p k_status_line [] h sound = sound
feed_in-Sound p k_headers [] h sound = sound
feed_in-Sound p k_body [] h sound = sound
feed_in-Sound p k_status_line (c ∷ cs) h sound =
    let (m, empty) = subst (λ s. SoundIn s p) h sound in
    feed_status-Sound (extend p (c ∷ cs)) h m empty
feed_in-Sound p k_headers (c ∷ cs) h sound =
    let (m, empty) = subst (λ s. SoundIn s p) h sound in
    feed_headers-Sound (extend p (c ∷ cs)) h m empty
feed_in-Sound p k_body (c ∷ cs) h sound =
    let (m, room) = subst (λ s. SoundIn s p) h sound in
    parse_body-Sound (extend p (c ∷ cs)) h m (Room-lt p room)

-- In every state the parser keeps its promise on the body and the completion flag when it is fed
-- any input: no body before the headers end, less than the announced length while it waits for
-- more, exactly that length when the message is complete.
pub feed-Sound : (p : Parser) (a : Bytes) → Sound p → Sound (feed p a).0
unfolding feed
feed-Sound p a sound = feed_in-Sound p p.state a refl sound

feed_all-Sound : (p : Parser) (pieces : List Bytes) → Sound p → Sound (feed_all p pieces).0
unfolding feed_all
feed_all-Sound p [] sound = feed-Sound p [] sound
feed_all-Sound p (a ∷ rest) sound = feed_all-Sound (feed p a).0 rest (feed-Sound p a sound)

eof_in-Sound :
    (p : Parser) (s : State) (sized : Bool) → p.state ≡ s → Sound p → Sound (eof_in s sized p)
unfolding eof_in
eof_in-Sound p k_body false h sound = (refl, refl)
eof_in-Sound p k_body true h sound = sound
eof_in-Sound p k_status_line sized h sound = sound
eof_in-Sound p k_headers sized h sound = sound
eof_in-Sound p k_done sized h sound = sound
eof_in-Sound p k_error sized h sound = sound

-- From a parser just reset, fed any pieces and then told of the end of the connection or not:
-- there is no body before the headers end and none after an error; while the body is read the
-- message is not complete, and with an announced length the body is shorter than it; and when
-- the parser is done the message is complete and the body has exactly the announced or counted
-- length.
pub response_body-Sound :
    (pieces : List Bytes)
    → Sound (feed_all reset pieces).0 × Sound (mark_eof (feed_all reset pieces).0)
unfolding mark_eof
response_body-Sound pieces =
    let sound = feed_all-Sound reset pieces (refl, refl) in (sound, eof_in-Sound _ _ _ refl sound)

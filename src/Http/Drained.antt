-- ===== src/Http/Drained.antt =====
-- src/protocol/http.cpp: a body without a length leaves nothing in the buffer, and the result of
-- `Feed` tells whether the parser has failed.
use mathlib.Core.Logic.{◌⊎◌}
use titan_bench.Base.{
  ℕ, ℤ, ◌≡◌, refl, sym, ◌∙◌, ap, Bool, true, false, [], ◌∷◌, Option, none, some, length, inl, inr,
  if_holds, ltb, ◌==◌, Bytes, crlf, crlf_crlf, find,
}
use titan_bench.Http.Parser.{
  State, k_status_line, k_headers, k_body, k_done, k_error, Parser, Parsed, good, bad, LoopEnd,
  parse_status_line, status_at, take_status,
}
use titan_bench.Http.Feed.{
  fill_body, check_body, parse_body, parse_headers, headers_at, body_after, from_headers,
  feed_headers, from_status, feed_status, dispatch, extend, feed, feed_in, not_error,
}
use titan_bench.Http.Chunks.{Reads, status, headers, body, Steady, over, waits}
use titan_bench.Http.Steady.{dispatch-Steady}

abbrev pub DrainedIn : State → Parser → Type 0
DrainedIn k_body p = (p.response.has_content_length ≡ true) ⊎ (p.pending ≡ [])
DrainedIn _ p = Unit

abbrev pub Drained : Parser → Type 0
Drained p = DrainedIn p.state p

sized-Drained : (s : State) (p : Parser) → p.response.has_content_length ≡ true → DrainedIn s p
sized-Drained k_body p h = inl h
sized-Drained k_status_line p h = tt
sized-Drained k_headers p h = tt
sized-Drained k_done p h = tt
sized-Drained k_error p h = tt

check_body-Drained :
    (need : ℕ) (p : Parser) → p.response.has_content_length ≡ true → Drained (check_body need p).0
unfolding check_body
check_body-Drained need p h =
    if_holds (λ (r : Parser × Bool). Drained r.0) (length p.body == need) _ _ (λ _. tt)
      (λ _.
        if_holds (λ (r : Parser × Bool). Drained r.0) (ltb need (length p.body)) _ _ (λ _. tt)
          (λ _. sized-Drained p.state p h))

emptied : (s : State) (q : Parser) → q.pending ≡ [] → DrainedIn s q
emptied k_body q h = inr h
emptied k_status_line q h = tt
emptied k_headers q h = tt
emptied k_done q h = tt
emptied k_error q h = tt

fill_body_sized :
    (need : ℕ) (p : Parser)
    → p.response.has_content_length ≡ true
    → (fill_body need p).response.has_content_length ≡ true
unfolding fill_body
fill_body_sized need p h =
    if_holds (λ (q : Parser). q.response.has_content_length ≡ true) (ltb (length p.body) need) _ _
      (λ _. h) (λ _. h)

parse_body-Drained : (p : Parser) → Drained (parse_body p).0
unfolding parse_body
parse_body-Drained p =
    if_holds (λ (r : Parser × Bool). Drained r.0) p.response.has_content_length _ _
      (λ sized.
        check_body-Drained p.response.content_length (fill_body p.response.content_length p)
          (fill_body_sized p.response.content_length p sized))
      (λ _. emptied p.state _ refl)

from_headers-Drained :
    (s : State) (r : Parser × Bool) → r.0.state ≡ s → Drained r.0 → Drained (from_headers s r).0
unfolding from_headers
from_headers-Drained k_body (p, true) e h = parse_body-Drained p
from_headers-Drained k_status_line (p, true) e h = h
from_headers-Drained k_headers (p, true) e h = h
from_headers-Drained k_done (p, true) e h = h
from_headers-Drained k_error (p, true) e h = h
from_headers-Drained k_body (p, false) e h = h
from_headers-Drained k_status_line (p, false) e h = h
from_headers-Drained k_headers (p, false) e h = h
from_headers-Drained k_done (p, false) e h = h
from_headers-Drained k_error (p, false) e h = h

body_after-Drained : (p : Parser) (pos : ℕ) (e : LoopEnd) → Drained (body_after p pos e).0
unfolding body_after
body_after-Drained p pos (r, some message) = tt
body_after-Drained p pos (r, none) = parse_body-Drained _

headers_at-Drained :
    (p : Parser) → p.state ≡ k_headers → (o : Option ℕ) → Drained (headers_at p o).0
unfolding headers_at
headers_at-Drained p h none = rw h tt
headers_at-Drained p h (some pos) = body_after-Drained p pos _

feed_headers-Drained : (p : Parser) → p.state ≡ k_headers → Drained (feed_headers p).0
unfolding feed_headers parse_headers headers_at
feed_headers-Drained p h =
    from_headers-Drained _ _ refl (headers_at-Drained p h (find crlf_crlf p.pending))

from_status-Drained :
    (s : State) (r : Parser × Bool) → r.0.state ≡ s → Drained r.0 → Drained (from_status s r).0
unfolding from_status
from_status-Drained k_headers (p, true) e h = feed_headers-Drained p e
from_status-Drained k_status_line (p, true) e h = h
from_status-Drained k_body (p, true) e h = h
from_status-Drained k_done (p, true) e h = h
from_status-Drained k_error (p, true) e h = h
from_status-Drained k_headers (p, false) e h = h
from_status-Drained k_status_line (p, false) e h = h
from_status-Drained k_body (p, false) e h = h
from_status-Drained k_done (p, false) e h = h
from_status-Drained k_error (p, false) e h = h

take_status-Drained : (p : Parser) (pos : ℕ) (line : Parsed ℤ) → Drained (take_status p pos line).0
unfolding take_status
take_status-Drained p pos (bad message) = tt
take_status-Drained p pos (good code) = tt

status_at-Drained :
    (p : Parser) → p.state ≡ k_status_line → (o : Option ℕ) → Drained (status_at p o).0
unfolding status_at
status_at-Drained p h none = rw h tt
status_at-Drained p h (some pos) = take_status-Drained p pos _

feed_status-Drained : (p : Parser) → p.state ≡ k_status_line → Drained (feed_status p).0
unfolding feed_status parse_status_line status_at
feed_status-Drained p h = from_status-Drained _ _ refl (status_at-Drained p h (find crlf p.pending))

feed_in-Drained :
    (p : Parser) (s : State) (a : Bytes) → p.state ≡ s → Drained p → Drained (feed_in s p a).0
unfolding feed_in dispatch
feed_in-Drained p k_done a e h = h
feed_in-Drained p k_error a e h = h
feed_in-Drained p k_status_line [] e h = h
feed_in-Drained p k_headers [] e h = h
feed_in-Drained p k_body [] e h = h
feed_in-Drained p k_status_line (c ∷ cs) e h = feed_status-Drained (extend p (c ∷ cs)) e
feed_in-Drained p k_headers (c ∷ cs) e h = feed_headers-Drained (extend p (c ∷ cs)) e
feed_in-Drained p k_body (c ∷ cs) e h = parse_body-Drained (extend p (c ∷ cs))

pub feed-Drained : (p : Parser) (a : Bytes) → Drained p → Drained (feed p a).0
unfolding feed
feed-Drained p a h = feed_in-Drained p p.state a refl h

-- The result of a call is whether the parser is free of errors.
abbrev pub Honest : Parser × Bool → Type 0
Honest r = r.1 ≡ not_error r.0.state

Reads-not_error : (s : State) → Reads s → not_error s ≡ true
Reads-not_error k_status_line status = refl
Reads-not_error k_headers headers = refl
Reads-not_error k_body body = refl
Reads-not_error k_done r = elim r [ ]
Reads-not_error k_error r = elim r [ ]

Steady-Honest : (b : Bytes) (one both : Parser × Bool) → Steady b one both → Honest one
Steady-Honest b one both (over (inl (s, t)) e) = rw (s, t)
Steady-Honest b one both (over (inr (s, t)) e) = rw (s, t)
Steady-Honest b one both (waits s r h t e) = t ∙ (sym (Reads-not_error s r) ∙ ap not_error (sym h))

dispatch-Honest : (p : Parser) (s : State) → Reads s → p.state ≡ s → Honest (dispatch s p)
dispatch-Honest p s r h = Steady-Honest [] _ _ (dispatch-Steady p [] s r h)

feed_in-Honest : (p : Parser) (s : State) (a : Bytes) → p.state ≡ s → Honest (feed_in s p a)
unfolding feed_in
feed_in-Honest p k_done a e = rw e
feed_in-Honest p k_error a e = rw e
feed_in-Honest p k_status_line [] e = rw e
feed_in-Honest p k_headers [] e = rw e
feed_in-Honest p k_body [] e = rw e
feed_in-Honest p k_status_line (c ∷ cs) e = dispatch-Honest _ k_status_line status e
feed_in-Honest p k_headers (c ∷ cs) e = dispatch-Honest _ k_headers headers e
feed_in-Honest p k_body (c ∷ cs) e = dispatch-Honest _ k_body body e

pub feed-Honest : (p : Parser) (a : Bytes) → Honest (feed p a)
unfolding feed
feed-Honest p a = feed_in-Honest p p.state a refl

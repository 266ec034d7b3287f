-- ===== src/Http/Pieces.antt =====
-- src/protocol/http.cpp: `Feed` on input that comes in pieces.
use titan_bench.Base.{
  ℕ, ◌≡◌, refl, sym, ap, subst, ◌∙◌, Bool, true, false, List, [], ◌∷◌, ◌++◌, append-nil,
  append_assoc, inl, inr, Bytes,
}
use titan_bench.Http.Parser.{State, k_status_line, k_headers, k_body, k_done, k_error, Parser}
use titan_bench.Http.Feed.{dispatch, extend, feed, feed_in}
use titan_bench.Http.Chunks.{Reads, status, headers, body, Steady, over, waits, seen}
use titan_bench.Http.Steady.{dispatch-Steady}

-- Feed the pieces one after another, as the reads from the socket do.
unfoldable pub feed_all : Parser → List Bytes → Parser × Bool
unfolding feed
feed_all p [] = feed p []
feed_all p (a ∷ rest) = feed_all (feed p a).0 rest

abbrev pub joined : List Bytes → Bytes
joined [] = []
joined (a ∷ rest) = a ++ joined rest

Reads-feed :
    (p : Parser) (s : State)
    → Reads s
    → p.state ≡ s
    → (c : ℕ) (cs : Bytes) → feed p (c ∷ cs) ≡ dispatch s (extend p (c ∷ cs))
unfolding feed feed_in
Reads-feed p k_status_line status h c cs = rw h
Reads-feed p k_headers headers h c cs = rw h
Reads-feed p k_body body h c cs = rw h
Reads-feed p k_done r h c cs = elim r [ ]
Reads-feed p k_error r h c cs = elim r [ ]

nothing : (p : Parser) (s : State) → Reads s → p.state ≡ s → feed p [] ≡ (p, true)
unfolding feed feed_in
nothing p k_status_line status h = rw h
nothing p k_headers headers h = rw h
nothing p k_body body h = rw h
nothing p k_done r h = elim r [ ]
nothing p k_error r h = elim r [ ]

-- A message that is complete takes no more, and a failed parser stays failed.
pub feed_done : (p : Parser) → p.state ≡ k_done → (a : Bytes) → feed p a ≡ (p, true)
unfolding feed feed_in
feed_done p h a = rw h

pub feed_error : (p : Parser) → p.state ≡ k_error → (a : Bytes) → feed p a ≡ (p, false)
unfolding feed feed_in
feed_error p h a = rw h

Steady-seen :
    (b : Bytes) (one both : Parser × Bool)
    → Steady b one both
    → ((b ≡ []) → both ≡ one)
    → seen (feed one.0 b) ≡ seen both
Steady-seen b one both (over (inl (d, t)) e) empty =
    rw (feed_done one.0 d b)
      (ap (λ x. (one.0.state, one.0.response, one.0.error_message, one.0.body, x)) (sym t) ∙ sym e)
Steady-seen b one both (over (inr (d, t)) e) empty =
    rw (feed_error one.0 d b)
      (ap (λ x. (one.0.state, one.0.response, one.0.error_message, one.0.body, x)) (sym t) ∙ sym e)
Steady-seen [] one both (waits s r h t e) empty =
    rw (nothing one.0 s r h, empty refl)
      (ap (λ x. (one.0.state, one.0.response, one.0.error_message, one.0.body, x)) (sym t))
Steady-seen (c ∷ cs) one both (waits s r h t e) empty = rw (Reads-feed one.0 s r h c cs, e)

feed-Reads :
    (p : Parser) (s : State)
    → Reads s
    → p.state ≡ s
    → (a b : Bytes) → seen (feed (feed p a).0 b) ≡ seen (feed p (a ++ b))
feed-Reads p s r h [] b = rw (nothing p s r h)
feed-Reads p s r h (c ∷ cs) b = rw (Reads-feed p s r h c (cs ++ b)) (
    rw (Reads-feed p s r h c cs) (
      Steady-seen b _ _
        (subst (λ t. Steady b (dispatch s (extend p (c ∷ cs))) (dispatch s t))
          (ap (λ l. record p { pending = l }) (append_assoc p.pending (c ∷ cs) b))
          (dispatch-Steady (extend p (c ∷ cs)) b s r h))
        (λ none_left. ap (λ l. dispatch s (extend p (c ∷ l))) (rw none_left (append-nil cs)))))

two_from :
    (p : Parser) (s : State)
    → p.state ≡ s
    → (a b : Bytes) → seen (feed (feed p a).0 b) ≡ seen (feed p (a ++ b))
two_from p k_status_line h a b = feed-Reads p k_status_line status h a b
two_from p k_headers h a b = feed-Reads p k_headers headers h a b
two_from p k_body h a b = feed-Reads p k_body body h a b
two_from p k_done h a b = rw (feed_done p h a, feed_done p h b, feed_done p h (a ++ b))
two_from p k_error h a b = rw (feed_error p h a, feed_error p h b, feed_error p h (a ++ b))

pub feed-feed : (p : Parser) (a b : Bytes) → seen (feed (feed p a).0 b) ≡ seen (feed p (a ++ b))
feed-feed p a b = two_from p p.state refl a b

-- Feeding any list of pieces, from any state of the parser, shows the caller the same state,
-- response, message, body and result as feeding all of them joined in one call.
pub feed_all_lem :
    (p : Parser) (pieces : List Bytes) → seen (feed_all p pieces) ≡ seen (feed p (joined pieces))
unfolding feed_all
feed_all_lem p [] = refl
feed_all_lem p (a ∷ rest) = feed_all_lem (feed p a).0 rest ∙ feed-feed p a (joined rest)

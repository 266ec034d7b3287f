-- ===== src/Tls/Exchange.antt =====
-- src/net/ssl.cpp: `PerformHttpGet` against the parser fed the whole reply at once.
use titan_bench.Base.{
  ℕ, ◌+◌, ◌≡◌, refl, sym, ap, subst, ◌∙◌, Bool, true, false, not, ◌||◌, List, [], ◌∷◌, ◌++◌,
  append-nil, Option, none, some, length, inl, inr, if_holds, if◌then◌else◌, codes, Bytes,
}
use titan_bench.Http.Message.{
  Request, Response, ResultStatus, k_parse_error, k_incomplete, build_get_request,
}
use titan_bench.Http.Parser.{
  State, k_status_line, k_headers, k_body, k_done, k_error, Parser, reset,
}
use titan_bench.Http.Feed.{feed, mark_eof, eof_in, feed_in, not_error}
use titan_bench.Http.Chunks.{Seen, seen}
use titan_bench.Http.Pieces.{joined, feed-feed, feed_done, feed_error}
use titan_bench.Http.Sound.{Sound, SoundIn, feed-Sound}
use titan_bench.Http.Drained.{Drained, DrainedIn, feed-Drained, feed-Honest}
use titan_bench.Tls.Wait.{Return, returns, going_on}
use titan_bench.Tls.Client.{Client}
use titan_bench.Tls.Transfer.{moved, send, ReadAnswer, received, recv, has_object}
use titan_bench.Tls.Get.{
  Result, begun, buffer_size, GetAnswer, ReadsEnd, left, io_failed, bad_reply, reading, on_recv,
  fed, read_loop, Got, got_reply, after_reads, after_send, perform_http_get,
}

-- What a reply comes to, for the caller.
pub data Reply : Type 0 where
  answered : Response → Bytes → Reply
  malformed : Bytes → Reply
  unfinished : Reply

abbrev pub ended_reply : Parser → Reply
ended_reply q = if q.response.message_complete then answered q.response q.body else unfinished

abbrev pub reply_of : Parser × Bool → Reply
reply_of (p, false) = malformed (codes p.error_message)
reply_of (p, true) = ended_reply (mark_eof p)

-- The reply that a parser reads in all the bytes of a connection, given in one call.
unfoldable pub reply_in : Bytes → Reply
unfolding feed mark_eof
reply_in bytes = reply_of (feed reset bytes)

-- What a transaction hands its caller.
abbrev pub reply_status : ResultStatus → Bytes → Option Reply
reply_status k_parse_error message = some (malformed message)
reply_status k_incomplete message = some unfinished
reply_status _ message = none

abbrev pub reply_handed : Got → Option (Response × Bytes) → Option Reply
reply_handed g (some (r, body)) = some (answered r body)
reply_handed g none = reply_status g.result.status g.result.error

unfoldable pub reply_got : Return Got → Option Reply
reply_got going_on = none
reply_got (returns g) = reply_handed g g.response

-- The calls of `Recv` hand over the pieces, one in each call, and then the end of the connection.
pub data Delivers (c : Client) : List (List ReadAnswer) → List Bytes → Type 0 where
  then_end :
      (a : List ReadAnswer) (more : List (List ReadAnswer))
      → recv c buffer_size a ≡ returns (received [])
      → Delivers c (a ∷ more) []
  piece :
      (a : List ReadAnswer) (more : List (List ReadAnswer)) (b : ℕ) (bs : Bytes)
      (pieces : List Bytes)
      → recv c buffer_size a ≡ returns (received (b ∷ bs))
      → Delivers c more pieces
      → Delivers c (a ∷ more) ((b ∷ bs) ∷ pieces)

-- The reply, from what is seen of a parser.
abbrev eof_reply : State → Response → Bytes → Reply
eof_reply k_body r body =
    if r.has_content_length
    then (if r.message_complete then answered r body else unfinished)
    else answered (record r { content_length = length body; message_complete = true }) body
eof_reply _ r body = if r.message_complete then answered r body else unfinished

abbrev reply_seen : Seen → Reply
reply_seen (s, r, message, body, false) = malformed (codes message)
reply_seen (s, r, message, body, true) = eof_reply s r body

eof_in-seen :
    (p : Parser) (s : State)
    → DrainedIn s p
    → ended_reply (eof_in s p.response.has_content_length p) ≡ eof_reply s p.response p.body
unfolding eof_in
eof_in-seen p k_status_line d = refl
eof_in-seen p k_headers d = refl
eof_in-seen p k_done d = refl
eof_in-seen p k_error d = refl
eof_in-seen p k_body (inl sized) = rw sized refl
eof_in-seen p k_body (inr drained) = at p.response.has_content_length refl
  where
    at :
        (b : Bool)
        → p.response.has_content_length ≡ b
        → ended_reply (eof_in k_body b p) ≡ eof_reply k_body p.response p.body
    at true e = rw e
    at false e = rw (e, drained, append-nil p.body)

reply_of-seen : (r : Parser × Bool) → Drained r.0 → reply_of r ≡ reply_seen (seen r)
unfolding mark_eof
reply_of-seen (p, false) d = refl
reply_of-seen (p, true) d = eof_in-seen p p.state d

same_reply :
    (p q : Parser × Bool) → Drained p.0 → Drained q.0 → seen p ≡ seen q → reply_of p ≡ reply_of q
same_reply p q d e h = reply_of-seen p d ∙ (ap reply_seen h ∙ sym (reply_of-seen q e))

-- A parser on which the loop goes on: without an error.
record Clean (p : Parser) : Type 0 where
  sound : Sound p
  drained : Drained p
  no_error : not_error p.state ≡ true

-- What the loop hands over.
abbrev reply_read : ReadsEnd → Option Reply
reply_read (left p n) = some (ended_reply p)
reply_read (bad_reply p n) = some (malformed (codes p.error_message))
reply_read (io_failed f n) = none
reply_read (reading n) = none

complete-done :
    (p : Parser) (s : State)
    → SoundIn s p
    → not_error s ≡ true
    → p.response.message_complete ≡ true
    → s ≡ k_done
complete-done p k_status_line sound n e = absurd cc
complete-done p k_headers sound n e = absurd cc
complete-done p k_body sound n e = absurd cc
complete-done p k_done sound n e = refl
complete-done p k_error sound n e = absurd cc

feed_in_nothing : (p : Parser) (s : State) → not_error s ≡ true → feed_in s p [] ≡ (p, true)
unfolding feed_in
feed_in_nothing p k_status_line h = refl
feed_in_nothing p k_headers h = refl
feed_in_nothing p k_body h = refl
feed_in_nothing p k_done h = refl
feed_in_nothing p k_error h = absurd cc

feed_nothing : (p : Parser) → not_error p.state ≡ true → feed p [] ≡ (p, true)
unfolding feed
feed_nothing p h = feed_in_nothing p p.state h

-- A complete message is the reply, whatever more comes.
complete_reply :
    (p : Parser) (bytes : Bytes)
    → Clean p
    → p.response.message_complete ≡ true
    → some (ended_reply p) ≡ some (reply_of (feed p bytes))
unfolding mark_eof eof_in
complete_reply p bytes k e =
    let d = complete-done p p.state k.sound k.no_error e in rw (feed_done p d bytes, d) refl

failed_state : (s : State) → not_error s ≡ false → s ≡ k_error
failed_state k_error h = refl
failed_state k_status_line h = absurd cc
failed_state k_headers h = absurd cc
failed_state k_body h = absurd cc
failed_state k_done h = absurd cc

-- Feeding what is left to a parser that took the first piece.
reply_rest :
    (p q : Parser) (ok : Bool) (a b : Bytes)
    → Drained p
    → feed p a ≡ (q, ok)
    → reply_of (feed q b) ≡ reply_of (feed p (a ++ b))
reply_rest p q ok a b d e =
    same_reply (feed q b) (feed p (a ++ b))
      (feed-Drained q b (subst (λ (r : Parser × Bool). Drained r.0) e (feed-Drained p a d)))
      (feed-Drained p (a ++ b) d)
      (subst (λ (r : Parser × Bool). seen (feed r.0 b) ≡ seen (feed p (a ++ b))) e
        (feed-feed p a b))

fed-Clean : (p q : Parser) (a : Bytes) → Clean p → feed p a ≡ (q, true) → Clean q
fed-Clean p q a k e = record {
  sound = subst (λ (r : Parser × Bool). Sound r.0) e (feed-Sound p a k.sound);
  drained = subst (λ (r : Parser × Bool). Drained r.0) e (feed-Drained p a k.drained);
  no_error = sym (subst (λ (r : Parser × Bool). r.1 ≡ not_error r.0.state) e (feed-Honest p a));
}

fed_reply :
    (next : Parser → ℕ → ReadsEnd) (p : Parser) (m : ℕ) (a b : Bytes) (r : Parser × Bool)
    → Clean p
    → feed p a ≡ r
    → ((q : Parser) → Clean q → reply_read (next q m) ≡ some (reply_of (feed q b)))
    → reply_read (fed next m r) ≡ some (reply_of (feed p (a ++ b)))
unfolding fed
fed_reply next p m a b (q, true) k e ih =
    ih q (fed-Clean p q a k e) ∙ ap some (reply_rest p q true a b k.drained e)
fed_reply next p m a b (q, false) k e ih =
    let err =
      failed_state q.state
        (sym (subst (λ (r : Parser × Bool). r.1 ≡ not_error r.0.state) e (feed-Honest p a))) in
    ap some (ap reply_of (sym (feed_error q err b)) ∙ reply_rest p q false a b k.drained e)

read_loop-reply :
    (c : Client) (reads : List (List ReadAnswer)) (pieces : List Bytes) (p : Parser) (n : ℕ)
    → Delivers c reads pieces
    → Clean p
    → reply_read (read_loop c reads p n) ≡ some (reply_of (feed p (joined pieces)))
unfolding read_loop on_recv
read_loop-reply c _ _ p n (then_end a more e) k =
    if_holds (λ x. reply_read x ≡ some (reply_of (feed p []))) p.response.message_complete _ _
      (λ all. complete_reply p [] k all) (λ _. rw (e, feed_nothing p k.no_error) refl)
read_loop-reply c _ _ p n (piece a more b bs pieces e d) k =
    let whole = (b ∷ bs) ++ joined pieces in
    if_holds (λ x. reply_read x ≡ some (reply_of (feed p whole))) p.response.message_complete _ _
      (λ all. complete_reply p whole k all)
      (λ _. rw e (
        fed_reply (λ q m. read_loop c more q m) p (n + length (b ∷ bs)) (b ∷ bs) (joined pieces) _ k
          refl (λ q kq. read_loop-reply c more pieces q (n + length (b ∷ bs)) d kq)))

after_reads-reply :
    (c : Client) (req : Request) (r : Result) (e : ReadsEnd)
    → reply_got (after_reads c req r e) ≡ reply_read e
unfolding after_reads reply_got got_reply
after_reads-reply c req r (reading n) = refl
after_reads-reply c req r (io_failed f n) = refl
after_reads-reply c req r (bad_reply p n) = refl
after_reads-reply c req r (left p n) =
    if_holds (λ (g : Got). reply_got (returns g) ≡ some (ended_reply p)) p.response.message_complete
      _ _ (λ all. rw all refl) (λ part. rw part refl)

unready :
    (c : Client)
    → c.connected ≡ true
    → has_object c ≡ true
    → (not c.connected || not (has_object c)) ≡ true
    → ⊥
unready c up object down = cc

-- On a connected client that sends its request, when the calls of `Recv` hand over any pieces and
-- then the end of the connection, the caller gets the response and body, the parse error or the
-- incomplete result that a parser comes to when it is fed all the bytes at once and then told of
-- the end: where the pieces are cut and how often a read has to wait make no difference.
pub perform_http_get-reply_in :
    (c : Client) (req : Request) (a : GetAnswer) (pieces : List Bytes) (n : ℕ)
    → c.connected ≡ true
    → has_object c ≡ true
    → (send c (build_get_request req) a.writes).result ≡ returns (moved n)
    → Delivers c a.reads pieces
    → reply_got (perform_http_get c req a) ≡ some (reply_in (joined pieces))
unfolding perform_http_get after_send reply_in
perform_http_get-reply_in c req a pieces n up object sent d =
    if_holds (λ g. reply_got g ≡ some (reply_in (joined pieces)))
      (not c.connected || not (has_object c)) _ _ (λ down. absurd (unready c up object down))
      (λ _. rw sent (
        after_reads-reply c req (begun a (build_get_request req)) (read_loop c a.reads reset 0)
        ∙ read_loop-reply c a.reads pieces reset 0 d
            (record { sound = (refl, refl); drained = tt; no_error = refl })))

-- ===== src/Net/Flush.antt =====
-- src/net/network.cpp: the loop of `FlushWrite`. `send` is the system's: the model takes what its
-- `i`-th call answers for the number of bytes offered.
use titan_bench.Base.{
  drop_all, ℕ, suc, zero, ◌+◌, ◌-◌, ◌≤◌, ◌≡◌, refl, ap, sym, ◌∙◌, false, List, [], ◌∷◌, ◌++◌,
  append_assoc, length, take, drop, sum_of, arith, if◌then◌else◌, ◌==◌, Bytes, if_holds,
  take-append-drop,
}

-- The bytes that were taken, `EAGAIN`, or another error.
pub data SendResult : Type 0 where
  sent : ℕ → SendResult
  again broken : SendResult

pub record OutboundChunk : Type 0 where
  pub bytes : Bytes
  pub sent_offset : ℕ

-- How the loop ends: all is sent, the socket takes no more, the connection is broken, or the fuel
-- of the model is used up.
pub data FlushEnd : Type 0 where
  flushed blocked failed exhausted : FlushEnd

-- `wire` is what `send` took, in order; `ops` counts the calls that took something.
pub record Flushed : Type 0 where
  pub pending : List OutboundChunk
  pub wire : Bytes
  pub ops : ℕ
  pub status : FlushEnd

abbrev stops : FlushEnd → List OutboundChunk → Flushed
stops e pending = record { pending = pending; wire = []; ops = 0; status = e }

-- What was taken goes in front of what the rest of the loop sends.
abbrev took : Bytes → Flushed → Flushed
took bs r = record r { wire = bs ++ r.wire; ops = r.ops + 1 }

unfoldable pub on_send :
    (List OutboundChunk → Flushed) → OutboundChunk → List OutboundChunk → SendResult → Flushed
on_send next c cs again = stops blocked (c ∷ cs)
on_send next c cs broken = stops failed (c ∷ cs)
on_send next c cs (sent zero) = stops failed (c ∷ cs)
on_send next c cs (sent (suc n)) =
    took (take (suc n) (drop c.sent_offset c.bytes))
      (next (record c { sent_offset = c.sent_offset + suc n } ∷ cs))

unfoldable pub flush : (ℕ → ℕ → SendResult) → ℕ → ℕ → List OutboundChunk → Flushed
unfolding on_send
flush os fuel i [] = stops flushed []
flush os zero i (c ∷ cs) = stops exhausted (c ∷ cs)
flush os (suc fuel) i (c ∷ cs) =
    let remaining = length c.bytes - c.sent_offset in
    let popped = flush os fuel i cs in
    let more = on_send (λ l. flush os fuel (i + 1) l) c cs (os i remaining) in
    if remaining == 0 then popped else more

-- What is still to be sent.
abbrev pub left_of : OutboundChunk → Bytes
left_of c = drop c.sent_offset c.bytes

abbrev pub unsent : List OutboundChunk → Bytes
unsent [] = []
unsent (c ∷ cs) = left_of c ++ unsent cs

abbrev nil : Bytes
nil = []

drop-nil : (n : ℕ) → drop n nil ≡ nil
drop-nil zero = refl
drop-nil (suc n) = refl

suc_add : (a b : ℕ) → suc (a + b) ≡ suc a + b
suc_add a b = omega arith

drop-drop : (a b : ℕ) (xs : Bytes) → drop b (drop a xs) ≡ drop (a + b) xs
drop-drop zero b xs = ap (λ k. drop k xs) (omega arith)
drop-drop (suc a) zero [] = sym (drop-nil (suc a + 0))
drop-drop (suc a) (suc b) [] = sym (drop-nil (suc a + suc b))
drop-drop (suc a) b (x ∷ xs) = drop-drop a b xs ∙ ap (λ k. drop k (x ∷ xs)) (suc_add a b)

-- The bytes of the wire and the bytes still pending are the bytes that were pending.
abbrev Whole : List OutboundChunk → Flushed → Type 0
Whole pending r = r.wire ++ unsent r.pending ≡ unsent pending

on_send-Whole :
    (next : List OutboundChunk → Flushed) (c : OutboundChunk) (cs : List OutboundChunk)
    (x : SendResult)
    → ((l : List OutboundChunk) → Whole l (next l))
    → Whole (c ∷ cs) (on_send next c cs x)
unfolding on_send
on_send-Whole next c cs again h = refl
on_send-Whole next c cs broken h = refl
on_send-Whole next c cs (sent zero) h = refl
on_send-Whole next c cs (sent (suc n)) h =
    append_assoc (take (suc n) (left_of c)) _ _
    ∙ (ap (λ l. take (suc n) (left_of c) ++ l)
          (h (record c { sent_offset = c.sent_offset + suc n } ∷ cs))
        ∙ (sym (
              append_assoc (take (suc n) (left_of c)) (drop (c.sent_offset + suc n) c.bytes)
                (unsent cs))
            ∙ ap (λ l. l ++ unsent cs)
                (ap (λ l. take (suc n) (left_of c) ++ l)
                    (sym (drop-drop c.sent_offset (suc n) c.bytes))
                  ∙ take-append-drop (suc n) (left_of c))))

-- However `send` answers and on any fuel, what `FlushWrite` hands to the socket and then what
-- it leaves pending are, in order, the bytes that were pending: none is lost, sent twice or
-- reordered.
pub flush-Whole :
    (os : ℕ → ℕ → SendResult) (fuel i : ℕ) (pending : List OutboundChunk)
    → (flush os fuel i pending).wire ++ unsent (flush os fuel i pending).pending ≡ unsent pending
unfolding flush
flush-Whole os fuel i [] = refl
flush-Whole os zero i (c ∷ cs) = refl
flush-Whole os (suc fuel) i (c ∷ cs) =
    if_holds (Whole (c ∷ cs)) (length c.bytes - c.sent_offset == 0) _ _
      (λ none_left.
        flush-Whole os fuel i cs
        ∙ ap (λ l. l ++ unsent cs) (sym (drop_all c.sent_offset c.bytes (ground arith))))
      (λ some_left.
        on_send-Whole (λ l. flush os fuel (i + 1) l) c cs _ (λ l. flush-Whole os fuel (i + 1) l))

-- The rounds that the loop may need: one for each byte and one for each chunk.
abbrev pub rounds_for : List OutboundChunk → ℕ
rounds_for pending = sum_of (λ c. length c.bytes - c.sent_offset + 1) pending

-- The loop came to its end.
pub data Ended : Flushed → Type 0 where
  all_sent : (r : Flushed) → r.status ≡ flushed → r.pending ≡ [] → Ended r
  waits : (r : Flushed) → r.status ≡ blocked → Ended r
  breaks : (r : Flushed) → r.status ≡ failed → Ended r

took-Ended : (bs : Bytes) (r : Flushed) → Ended r → Ended (took bs r)
took-Ended bs r (all_sent _ e f) = all_sent _ e f
took-Ended bs r (waits _ e) = waits _ e
took-Ended bs r (breaks _ e) = breaks _ e

on_send-Ended :
    (next : List OutboundChunk → Flushed) (c : OutboundChunk) (cs : List OutboundChunk)
    (x : SendResult) (fuel : ℕ)
    → rounds_for (c ∷ cs) ≤ suc fuel
    → (length c.bytes - c.sent_offset == 0) ≡ false
    → ((l : List OutboundChunk) → rounds_for l ≤ fuel → Ended (next l))
    → Ended (on_send next c cs x)
unfolding on_send
on_send-Ended next c cs again fuel h k f = waits _ refl
on_send-Ended next c cs broken fuel h k f = breaks _ refl
on_send-Ended next c cs (sent zero) fuel h k f = breaks _ refl
on_send-Ended next c cs (sent (suc n)) fuel h k f = took-Ended _ _ (f _ (ground arith))

-- With a round of fuel for each pending byte and chunk, the loop of `FlushWrite` comes to its end: all
-- is sent and nothing is pending, or the socket takes no more, or the connection is broken.
pub flush-Ended :
    (os : ℕ → ℕ → SendResult) (fuel i : ℕ) (pending : List OutboundChunk)
    → rounds_for pending ≤ fuel
    → Ended (flush os fuel i pending)
unfolding flush
flush-Ended os fuel i [] h = all_sent _ refl refl
flush-Ended os zero i (c ∷ cs) h = absurd (omega arith)
flush-Ended os (suc fuel) i (c ∷ cs) h =
    if_holds Ended (length c.bytes - c.sent_offset == 0) _ _
      (λ _. flush-Ended os fuel i cs (omega arith))
      (λ some_left.
        on_send-Ended _ c cs _ fuel h some_left (λ l k. flush-Ended os fuel (i + 1) l k))

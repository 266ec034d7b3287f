-- ===== src/Tls/Sent.antt =====
-- src/net/ssl.cpp: what `Send` puts on the wire, and that it comes to an end.
use titan_bench.Base.{
  ℕ, suc, ◌+◌, ◌≤◌, ◌<◌, ◌≡◌, refl, sym, ap, ◌∙◌, not, ◌||◌, List, [], ◌∷◌, ◌++◌, Option, none,
  some, length, take, drop, min, if_holds, append_assoc, is_empty, arith, length-drop,
  take-append-drop, subst, Bytes,
}
use titan_bench.Tls.Wait.{Failure, returns, going_on}
use titan_bench.Tls.Client.{Client}
use titan_bench.Tls.Transfer.{
  WriteAnswer, wrote, not_written, moved, move_failed, Sent, waited, on_write, send_loop,
  has_object, send,
}

-- How many of the calls took bytes.
abbrev pub writes : List WriteAnswer → ℕ
writes [] = 0
writes (wrote n ∷ answers) = suc (writes answers)
writes (not_written err polls ∷ answers) = writes answers

-- The bytes taken from the data are a part in front of it, all of it after a success, whose result
-- counts them on top of `offset`; and only as long as fewer calls took bytes than there are is
-- the loop under way.
pub data SentOf (offset takes : ℕ) (bytes : Bytes) : Sent → Type 0 where
  all_sent :
      (n : ℕ)
      → n ≡ offset + length bytes
      → SentOf offset takes bytes (record { wire = bytes; result = returns (moved n) })
  cut_short :
      (wire rest : Bytes) (f : Failure)
      → wire ++ rest ≡ bytes
      → SentOf offset takes bytes (record { wire = wire; result = returns (move_failed f) })
  under_way :
      (wire rest : Bytes)
      → wire ++ rest ≡ bytes
      → takes < length bytes
      → SentOf offset takes bytes (record { wire = wire; result = going_on })

prepend :
    (offset takes taken : ℕ) (bytes : Bytes) (s : Sent)
    → taken ≤ length bytes
    → 1 ≤ taken
    → SentOf (offset + taken) takes (drop taken bytes) s
    → SentOf offset (suc takes) bytes (record s { wire = take taken bytes ++ s.wire })
prepend offset takes taken bytes s h k (all_sent n e) =
    subst (λ l. SentOf offset (suc takes) bytes (record { wire = l; result = returns (moved n) }))
      (sym (take-append-drop taken bytes)) (all_sent n (omega (arith, e, length-drop taken bytes)))
prepend offset takes taken bytes s h k (cut_short wire rest f e) =
    cut_short (take taken bytes ++ wire) rest f (
      append_assoc (take taken bytes) wire rest
      ∙ (ap (◌++◌ (take taken bytes)) e ∙ take-append-drop taken bytes))
prepend offset takes taken bytes s h k (under_way wire rest e few) =
    under_way (take taken bytes ++ wire) rest
      (append_assoc (take taken bytes) wire rest
        ∙ (ap (◌++◌ (take taken bytes)) e ∙ take-append-drop taken bytes))
      (omega (arith, few, length-drop taken bytes))

waited-SentOf :
    (offset takes : ℕ) (bytes : Bytes) (s : Sent) (o : Option Failure)
    → SentOf offset takes bytes s
    → SentOf offset takes bytes (waited s o)
unfolding waited
waited-SentOf offset takes bytes s none h = h
waited-SentOf offset takes bytes s (some f) h = cut_short [] bytes f refl

send_loop-SentOf :
    (fd : Option ℕ) (answers : List WriteAnswer) (offset : ℕ) (bytes : Bytes)
    → SentOf offset (writes answers) bytes (send_loop fd answers offset bytes)
unfolding send_loop on_write
send_loop-SentOf fd answers offset [] = all_sent offset (omega arith)
send_loop-SentOf fd [] offset (b ∷ bs) = under_way [] (b ∷ bs) refl (omega arith)
send_loop-SentOf fd (wrote n ∷ answers) offset (b ∷ bs) =
    let taken = min (suc n) (length (b ∷ bs)) in
    prepend offset (writes answers) taken (b ∷ bs) _ (omega arith) (omega arith)
      (send_loop-SentOf fd answers (offset + taken) (drop taken (b ∷ bs)))
send_loop-SentOf fd (not_written err polls ∷ answers) offset (b ∷ bs) =
    waited-SentOf offset (writes answers) (b ∷ bs) _ _ (send_loop-SentOf fd answers offset (b ∷ bs))

-- Whatever wolfSSL and the waits answer, `Send` puts the bytes on the wire in order and none
-- twice: what was taken is a part in front of the data, and when the call succeeds it is all of
-- the data and the result is its length. The call has returned once wolfSSL has taken bytes as
-- often as there are bytes, however many times it asked to wait in between.
pub send-SentOf :
    (c : Client) (bytes : Bytes) (answers : List WriteAnswer)
    → SentOf 0 (writes answers) bytes (send c bytes answers)
unfolding send
send-SentOf c bytes answers =
    if_holds (SentOf 0 (writes answers) bytes)
      (not c.connected || (not (has_object c) || is_empty bytes)) _ _
      (λ _. cut_short [] bytes _ refl) (λ _. send_loop-SentOf c.fd answers 0 bytes)

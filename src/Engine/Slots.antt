-- ===== src/Engine/Slots.antt =====
-- src/core/engine.cpp: one round of an HTTPS slot and the books.
pub mod Turns
use mathlib.Core.Logic.{◌⊎◌}
use titan_bench.Base.{
  ℕ, zero, suc, ◌+◌, ◌≤◌, ◌≡◌, refl, sym, subst, Bool, true, false, ◌||◌, List, [], ◌∷◌, Option,
  none, some, get_elem?, set, All, ltb, arith, if_holds, inr,
}
use titan_bench.Stats.Sample.{RequestSample}
use titan_bench.Cli.Options.{Config}
use titan_bench.Http.Message.{Response}
use titan_bench.Tls.Wait.{Failure, Return, returns, going_on}
use titan_bench.Tls.Client.{close, Client, new_client, InitAnswer}
use titan_bench.Tls.Get.{Result, Got, perform_http_get}
use titan_bench.Tls.Owned.{Owned, close-Idle, init-Owned, connect-Owned, new_client-Owned}
use titan_bench.Tls.Calls.{left_client, perform_http_get-Owned}
use titan_bench.Engine.Worker.{
  Work, fresh_work, succeed, fail, request_limit, max_retry_per_session,
}
use titan_bench.Engine.Account.{
  Balanced, same_counts, succeed-Balanced, fail-Balanced, Within, acquire_le,
}
use titan_bench.Engine.Https.{
  leave, slot_options, slot_request, Phase, looping, returned, inside, Slot, SlotRound,
  started_slot, slot_start, unconnected, response_left, is_ok, get_sample, after_failure, finish,
  after_get, request_turn, connected_turn, after_connect, slot_round, slot_turn, start_slots,
  turn_of, slot_turns,
}

-- The counters of a worker agree with its samples and the limit.
pub record Booked (config : Config) (w : Work) : Type 0 where
  pub balanced : Balanced w
  pub within : Within config w

-- A client of a slot that has returned holds nothing.
abbrev pub Rest : Phase → Client → Type 0
Rest returned c = (c.fd ≡ none) × (c.ssl ≡ none)
Rest _ c = Unit

-- At most three retries, nothing that the client holds is lost, and all of it is given back when
-- the slot has returned.
pub record Tidy (s : Slot) : Type 0 where
  pub retries : s.retry ≤ max_retry_per_session
  pub owned : Owned s.client
  pub rest : Rest s.phase s.client

at_work : (p : Phase) (c : Client) → p ≡ looping → Rest p c
at_work p c e = subst (λ q. Rest q c) (sym e) tt

pub leave-Tidy : (s : Slot) → s.retry ≤ max_retry_per_session → Owned s.client → Tidy (leave s)
unfolding leave
leave-Tidy s h o =
    let i = close-Idle s.client o in
    record { retries = h; owned = i.owned; rest = (i.no_fd, i.no_object) }

-- A slot with the shared counters.
pub record GoodTurn (config : Config) (r : Slot × Work) : Type 0 where
  pub tidy : Tidy r.0
  pub booked : Booked config r.1

-- A change of the counters that Booked does not speak of.
pub recount :
    (config : Config) (v w : Work)
    → Booked config v
    → w.completed ≡ v.completed
    → w.succeeded ≡ v.succeeded
    → w.failed ≡ v.failed
    → w.samples ≡ v.samples
    → w.started ≡ v.started
    → Booked config w
recount config v w b c s f x n = record {
  balanced = same_counts v w b.balanced c s f x;
  within =
      subst (λ x. (config.has_requests ≡ false) ⊎ (x ≤ request_limit config.requests)) (sym n)
        b.within;
}

fail-Booked :
    (config : Config) (x : RequestSample) (w : Work)
    → x.success ≡ false
    → Booked config w
    → Booked config (fail x w)
unfolding fail
fail-Booked config x w h b = record { balanced = fail-Balanced x w h b.balanced; within = b.within }

succeed-Booked :
    (config : Config) (x : RequestSample) (w : Work)
    → x.success ≡ true
    → Booked config w
    → Booked config (succeed x w)
unfolding succeed
succeed-Booked config x w h b = record {
  balanced = succeed-Balanced x w h b.balanced;
  within = b.within;
}

one_more : (n : ℕ) → ltb n max_retry_per_session ≡ true → n + 1 ≤ max_retry_per_session
one_more n h = ground arith

unconnected-GoodTurn :
    (config : Config) (a : SlotRound) (s : Slot) (w : Work)
    → Tidy s
    → s.phase ≡ looping
    → Booked config w
    → GoodTurn config (unconnected a s w)
unfolding unconnected
unconnected-GoodTurn config a s w t e b =
    if_holds (GoodTurn config) (ltb s.retry max_retry_per_session) _ _
      (λ more. record {
        tidy = record {
          retries = one_more s.retry more;
          owned = t.owned;
          rest = at_work s.phase s.client e;
        };
        booked = recount config w _ b refl refl refl refl refl;
      })
      (λ _. record {
        tidy = leave-Tidy s t.retries t.owned;
        booked = recount config _ _ (fail-Booked config _ w refl b) refl refl refl refl refl;
      })

after_failure-GoodTurn :
    (config : Config) (s : Slot) (w : Work)
    → Tidy s
    → s.phase ≡ looping
    → Booked config w
    → GoodTurn config (after_failure s w)
unfolding after_failure
after_failure-GoodTurn config s w t e b =
    if_holds (GoodTurn config) (ltb s.retry max_retry_per_session) _ _
      (λ more. record {
        tidy = record {
          retries = one_more s.retry more;
          owned = (close-Idle s.client t.owned).owned;
          rest = at_work s.phase (close s.client) e;
        };
        booked = recount config w _ b refl refl refl refl refl;
      })
      (λ _. record { tidy = t; booked = b })

finish-GoodTurn :
    (config : Config) (a : SlotRound) (s : Slot) (w : Work) (result : Result) (r : Response)
    → Tidy s
    → s.phase ≡ looping
    → Booked config w
    → GoodTurn config (finish a s w result r)
unfolding finish get_sample
finish-GoodTurn config a s w result r t e b =
    let counted = recount config w _ b refl refl refl refl refl in
    if_holds (GoodTurn config) (is_ok result.status r) _ _
      (λ ok. record {
        tidy = record { retries = omega arith; owned = t.owned; rest = at_work s.phase s.client e };
        booked = succeed-Booked config _ _ ok counted;
      })
      (λ bad. after_failure-GoodTurn config s _ t e (fail-Booked config _ _ bad counted))

after_get-GoodTurn :
    (config : Config) (a : SlotRound) (s : Slot) (w : Work) (g : Return Got)
    → Tidy s
    → s.phase ≡ looping
    → Owned (left_client s.client g)
    → Booked config w
    → GoodTurn config (after_get a s w g)
unfolding after_get
after_get-GoodTurn config a s w going_on t e o b = record {
  tidy = record { retries = t.retries; owned = t.owned; rest = tt };
  booked = b;
}
after_get-GoodTurn config a s w (returns g) t e o b =
    finish-GoodTurn config a _ w g.result (response_left g.response)
      (record { retries = t.retries; owned = o; rest = at_work s.phase g.client e }) e b

request_turn-GoodTurn :
    (config : Config) (a : SlotRound) (s : Slot) (w : Work) (q : Bool × ℕ)
    → Tidy s
    → s.phase ≡ looping
    → Booked config w
    → (config.has_requests ≡ false) ⊎ (q.1 ≤ request_limit config.requests)
    → GoodTurn config (request_turn config a s w q)
unfolding request_turn
request_turn-GoodTurn config a s w (false, started) t e b h = record {
  tidy = leave-Tidy s t.retries t.owned;
  booked = b;
}
request_turn-GoodTurn config a s w (true, started) t e b h =
    let w' : Work = record w { started = started } in
    after_get-GoodTurn config a s w' (perform_http_get s.client (slot_request config) a.get) t e
      (perform_http_get-Owned s.client (slot_request config) a.get t.owned)
      (record { balanced = same_counts w w' b.balanced refl refl refl refl; within = h })

connected_turn-GoodTurn :
    (config : Config) (a : SlotRound) (s : Slot) (w : Work)
    → Tidy s
    → s.phase ≡ looping
    → Booked config w
    → GoodTurn config (connected_turn config a s w)
unfolding connected_turn
connected_turn-GoodTurn config a s w t e b =
    request_turn-GoodTurn config a s w _ t e b
      (acquire_le config.has_requests (request_limit config.requests) w.started b.within)

after_connect-GoodTurn :
    (config : Config) (a : SlotRound) (s : Slot) (w : Work) (r : Client × Return (Option Failure))
    → Tidy s
    → s.phase ≡ looping
    → Owned r.0
    → Booked config w
    → GoodTurn config (after_connect config a s w r)
unfolding after_connect
after_connect-GoodTurn config a s w (c, going_on) t e o b = record {
  tidy = record { retries = t.retries; owned = o; rest = tt };
  booked = b;
}
after_connect-GoodTurn config a s w (c, returns (some f)) t e o b =
    unconnected-GoodTurn config a _ w
      (record { retries = t.retries; owned = o; rest = at_work s.phase c e }) e b
after_connect-GoodTurn config a s w (c, returns none) t e o b =
    connected_turn-GoodTurn config a _ w
      (record { retries = t.retries; owned = o; rest = at_work s.phase c e }) e b

pub slot_turn-GoodTurn :
    (config : Config) (a : SlotRound) (p : Phase) (s : Slot) (w : Work)
    → Tidy s
    → s.phase ≡ p
    → Booked config w
    → GoodTurn config (slot_turn config a p s w)
unfolding slot_turn slot_round
slot_turn-GoodTurn config a returned s w t e b = record { tidy = t; booked = b }
slot_turn-GoodTurn config a inside s w t e b = record { tidy = t; booked = b }
slot_turn-GoodTurn config a looping s w t e b =
    if_holds (GoodTurn config) (w.stop || a.stop_seen) _ _
      (λ _. record { tidy = leave-Tidy s t.retries t.owned; booked = b })
      (λ _.
        if_holds (GoodTurn config) s.client.connected _ _
          (λ _. connected_turn-GoodTurn config a s w t e b)
          (λ _.
            after_connect-GoodTurn config a s w _ t e
              (connect-Owned (slot_options config) a.connect s.client t.owned) b))

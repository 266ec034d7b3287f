-- ===== src/Engine/Serve.antt =====
-- src/core/engine.cpp: the books of an event-driven worker through events and whole rounds.
use titan_bench.Base.{
  ℕ, ◌≤◌, ◌≡◌, refl, Bool, true, false, not, ◌&&◌, ◌||◌, List, [], ◌∷◌, Option, none, some, All,
  ltb, if◌then◌else◌, arith, if_holds, inr,
}
use titan_bench.Stats.Sample.{RequestSample}
use titan_bench.Cli.Options.{Protocol, k_http, k_https, k_tcp, k_udp, Config}
use titan_bench.Http.Parser.{Parser}
use titan_bench.Http.Feed.{feed}
use titan_bench.Engine.Worker.{
  Session, Work, succeed, fail, Sessions, max_retry_per_session, fresh_work,
}
use titan_bench.Engine.Events.{
  RecvEvent, EventAnswer, Loop, fail_in_flight, retried_session, reconnected, retry,
  response_sample, store, complete, parse_failed, after_feed, on_data, on_session, on_event,
  on_events, Round, polled, round, rounds, worker_loop,
}
use titan_bench.Engine.Account.{
  same_counts, Balanced, succeed-Balanced, fail-Balanced, Within, Kept, put-Kept, erase-Kept,
  FoundKept, find-FoundKept, create_connection-Kept, Sound, send_round-Sound, create_all-Sound,
}

abbrev pub SoundLoop : Config → Loop → Type 0
SoundLoop config l = Sound config l.sessions l.work

fail_in_flight-Balanced :
    (size : ℕ) (ev : RecvEvent) (a : EventAnswer) (old : Session) (flying : Bool) (w : Work)
    → Balanced w
    → Balanced (fail_in_flight size ev a old flying w)
unfolding fail_in_flight
fail_in_flight-Balanced size ev a old false w b = b
fail_in_flight-Balanced size ev a old true w b = fail-Balanced _ w refl b

fail_in_flight-Within :
    (config : Config) (size : ℕ) (ev : RecvEvent) (a : EventAnswer) (old : Session) (flying : Bool)
    (w : Work)
    → Within config w
    → Within config (fail_in_flight size ev a old flying w)
unfolding fail_in_flight fail
fail_in_flight-Within config size ev a old false w i = i
fail_in_flight-Within config size ev a old true w i = i

reconnected-Sound :
    (config : Config) (r : Sessions × Bool) (w : Work)
    → All Kept r.0
    → Balanced w
    → Within config w
    → SoundLoop config (reconnected r w)
unfolding reconnected
reconnected-Sound config (xs, true) w k b i = record { balanced = b; within = i; kept = k }
reconnected-Sound config (xs, false) w k b i = record {
  balanced = same_counts w _ b refl refl refl refl;
  within = i;
  kept = k;
}

retries_le :
    (a : EventAnswer) (old : Session) (go : Bool)
    → (ltb old.retries max_retry_per_session && go) ≡ true
    → (retried_session a old).retries ≤ max_retry_per_session
unfolding retried_session
retries_le a old go h = ground arith

retry-Sound :
    (config : Config) (a : EventAnswer) (old : Session) (xs : Sessions) (w : Work)
    → Sound config xs w
    → SoundLoop config (retry a old xs w)
unfolding retry
retry-Sound config a old xs w i =
    if_holds (SoundLoop config)
      (ltb old.retries max_retry_per_session && not (w.stop || a.stop_seen)) _ _
      (λ more.
        reconnected-Sound config _ _
          (create_connection-Kept a.created (retried_session a old) xs (retries_le a old _ more)
            i.kept)
          (same_counts w _ i.balanced refl refl refl refl) i.within)
      (λ _. i)

store-Sound :
    (config : Config) (s : Session) (xs : Sessions) (w : Work)
    → s.retries ≤ max_retry_per_session
    → Sound config xs w
    → SoundLoop config (store s xs w)
store-Sound config s xs w h i = record {
  balanced = i.balanced;
  within = i.within;
  kept = put-Kept s.conn_id s xs (refl, h) i.kept;
}

finish-Sound :
    (config : Config) (xs : Sessions) (w : Work) (ok : Bool) (x : RequestSample)
    → x.success ≡ ok
    → Sound config xs w
    → Sound config xs (if ok then succeed x w else fail x w)
unfolding succeed fail
finish-Sound config xs w true x h i = record {
  balanced = succeed-Balanced x w h i.balanced;
  within = i.within;
  kept = i.kept;
}
finish-Sound config xs w false x h i = record {
  balanced = fail-Balanced x w h i.balanced;
  within = i.within;
  kept = i.kept;
}

complete-Sound :
    (config : Config) (size : ℕ) (ev : RecvEvent) (a : EventAnswer) (old : Session) (p : Parser)
    (xs : Sessions) (w : Work)
    → Sound config xs w
    → SoundLoop config (complete size ev a old p xs w)
unfolding complete response_sample
complete-Sound config size ev a old p xs w i =
    store-Sound config _ xs _ (omega arith) (finish-Sound config xs w _ _ refl i)

parse_failed-Sound :
    (config : Config) (size : ℕ) (ev : RecvEvent) (a : EventAnswer) (old : Session) (p : Parser)
    (xs : Sessions) (w : Work)
    → old.retries ≤ max_retry_per_session
    → Sound config xs w
    → SoundLoop config (parse_failed size ev a old p xs w)
unfolding parse_failed fail
parse_failed-Sound config size ev a old p xs w h i =
    store-Sound config _ xs _ h
      (record { balanced = fail-Balanced _ w refl i.balanced; within = i.within; kept = i.kept })

after_feed-Sound :
    (config : Config) (size : ℕ) (ev : RecvEvent) (a : EventAnswer) (old : Session) (xs : Sessions)
    (w : Work) (r : Parser × Bool)
    → old.retries ≤ max_retry_per_session
    → Sound config xs w
    → SoundLoop config (after_feed size ev a old xs w r)
unfolding after_feed
after_feed-Sound config size ev a old xs w (p, false) h i =
    parse_failed-Sound config size ev a old p xs w h i
after_feed-Sound config size ev a old xs w (p, true) h i =
    if_holds (SoundLoop config) p.response.message_complete _ _
      (λ _. complete-Sound config size ev a old p xs w i) (λ _. store-Sound config _ xs w h i)

on_data-Sound :
    (config : Config) (p : Protocol) (size : ℕ) (ev : RecvEvent) (a : EventAnswer) (old : Session)
    (xs : Sessions) (w : Work)
    → old.retries ≤ max_retry_per_session
    → Sound config xs w
    → SoundLoop config (on_data p size ev a old xs w)
unfolding on_data
on_data-Sound config k_http size ev a old xs w h i =
    after_feed-Sound config size ev a old xs w (feed old.parser ev.received) h i
on_data-Sound config k_https size ev a old xs w h i = store-Sound config old xs w h i
on_data-Sound config k_tcp size ev a old xs w h i = store-Sound config old xs w h i
on_data-Sound config k_udp size ev a old xs w h i = store-Sound config old xs w h i

on_session-Sound :
    (config : Config) (size : ℕ) (ev : RecvEvent) (a : EventAnswer) (found : Option Session)
    (l : Loop)
    → FoundKept found
    → SoundLoop config l
    → SoundLoop config (on_session config size ev a found l)
unfolding on_session
on_session-Sound config size ev a none l h i = i
on_session-Sound config size ev a (some old) l h i =
    let k = erase-Kept ev.conn_id l.sessions i.kept in
    if_holds (SoundLoop config) ev.is_error _ _
      (λ _. retry-Sound config a old _ _ (record {
        balanced = fail_in_flight-Balanced size ev a old old.in_flight l.work i.balanced;
        within = fail_in_flight-Within config size ev a old old.in_flight l.work i.within;
        kept = k;
      }))
      (λ _. on_data-Sound config config.protocol size ev a old _ _ h (record {
        balanced = same_counts l.work _ i.balanced refl refl refl refl;
        within = i.within;
        kept = k;
      }))

on_events-Sound :
    (config : Config) (size : ℕ) (evs : List (RecvEvent × EventAnswer)) (l : Loop)
    → SoundLoop config l
    → SoundLoop config (on_events config size evs l)
unfolding on_events on_event
on_events-Sound config size [] l i = i
on_events-Sound config size ((ev, a) ∷ rest) l i =
    if_holds (SoundLoop config) l.broken _ _ (λ _. i)
      (λ _.
        on_events-Sound config size rest _
          (on_session-Sound config size ev a _ l (find-FoundKept ev.conn_id l.sessions i.kept) i))

polled-Sound :
    (config : Config) (size : ℕ) (r : Round) (failed : Bool) (q : Sessions × Work)
    → Sound config q.0 q.1
    → SoundLoop config (polled config size r failed q)
unfolding polled
polled-Sound config size r true (xs, w) i = record {
  balanced = same_counts w _ i.balanced refl refl refl refl;
  within = i.within;
  kept = i.kept;
}
polled-Sound config size r false (xs, w) i = on_events-Sound config size r.events _ i

pub round-SoundLoop :
    (config : Config) (size : ℕ) (r : Round) (l : Loop)
    → SoundLoop config l
    → SoundLoop config (round config size r l)
unfolding round
round-SoundLoop config size r l i =
    polled-Sound config size r r.poll_error _
      (send_round-Sound config size r.now r.sends l.sessions l.work i)

rounds_keep :
    (config : Config) (size : ℕ) (rs : List Round) (l : Loop)
    → SoundLoop config l
    → SoundLoop config (rounds config size rs l)
unfolding rounds
rounds_keep config size [] l i = i
rounds_keep config size (r ∷ rs) l i =
    if_holds (SoundLoop config) (l.work.stop || r.stop_seen) _ _ (λ _. i)
      (λ _. rounds_keep config size rs (round config size r l) (round-SoundLoop config size r l i))

-- However the sends, polls and connections turn out, after any number of rounds of a worker
-- that starts from zero and serves alone: the completed, succeeded and failed requests are the
-- numbers of samples recorded, of those with success and of those without, modulo 2^64; no
-- more requests are started than were asked for, when a number was given; and each session is
-- stored under its connection with at most three retries.
pub worker_loop-Sound :
    (config : Config) (size now : ℕ) (answers : List (Option ℕ)) (rs : List Round)
    → SoundLoop config (worker_loop config size now answers rs)
unfolding worker_loop
worker_loop-Sound config size now answers rs = rounds_keep config size rs _ (
    create_all-Sound config now answers [] fresh_work (record {
      balanced = record { completed = refl; succeeded = refl; failed = refl };
      within = inr (omega arith);
      kept = tt;
    }))

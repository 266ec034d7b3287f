-- ===== src/Engine/Events.antt =====
-- src/core/engine.cpp: `WorkerLoopEventDriven`, its events and errors, and its loop.
use titan_bench.Base.{
  ℕ, ◌+◌, ◌*◌, ◌%◌, Bool, true, false, not, ◌&&◌, ◌||◌, List, [], ◌∷◌, Option, none, some, length,
  ltb, ◌==◌, if◌then◌else◌, ℤ, pos, at_least, at_most, u32, add64, sub64, Bytes,
}
use titan_bench.Stats.Sample.{RequestSample, k_none, k_parse_error, k_http4xx, k_http5xx}
use titan_bench.Cli.Options.{Protocol, k_http, Config}
use titan_bench.Http.Parser.{Parser, reset}
use titan_bench.Http.Feed.{feed}
use titan_bench.Net.Errors.{ErrorCode}
use titan_bench.Engine.Worker.{
  to_error_class, max_retry_per_session, retry_backoff_ms, Session, Work, succeed, fail, SendAnswer,
  Sessions, find_session, erase_session, put_session, create_connection, send_round, create_all,
  fresh_work,
}

pub record RecvEvent : Type 0 where
  pub conn_id : ℕ
  pub received : Bytes
  pub is_error : Bool
  pub error : ErrorCode

-- The clock at the sample and at the retry, the stop flag as it is read, and the new connection.
pub record EventAnswer : Type 0 where
  pub now_ns : ℕ
  pub clock_ns : ℕ
  pub stop_seen : Bool
  pub created : Option ℕ

-- The sessions and counters, and whether the loop over the events was left by its `break`.
pub record Loop : Type 0 where
  pub sessions : Sessions
  pub work : Work
  pub broken : Bool

abbrev pub since : Session → ℕ → ℕ
since s now_ns = if s.request_begin_ns == 0 then 0 else sub64 now_ns s.request_begin_ns

-- An error fails the request that is under way.
unfoldable pub fail_in_flight : ℕ → RecvEvent → EventAnswer → Session → Bool → Work → Work
unfolding fail to_error_class
fail_in_flight size ev a old false w = w
fail_in_flight size ev a old true w =
    fail
      (record {
        timestamp_ns = a.now_ns;
        latency_ns = since old a.now_ns;
        bytes_sent = size % u32;
        bytes_received = 0;
        http_status = pos 0;
        success = false;
        error = to_error_class ev.error;
      })
      w

-- The session that is connected again: one more retry, and the time before which it sends nothing.
unfoldable pub retried_session : EventAnswer → Session → Session
unfolding retry_backoff_ms
retried_session a old = record old {
  retries = old.retries + 1;
  retry_at = a.clock_ns + retry_backoff_ms (old.retries + 1) * 1000000;
}

unfoldable pub reconnected : Sessions × Bool → Work → Loop
reconnected (sessions, true) w = record { sessions = sessions; work = w; broken = false }
reconnected (sessions, false) w = record {
  sessions = sessions;
  work = record w { stop = true };
  broken = true;
}

unfoldable pub retry : EventAnswer → Session → Sessions → Work → Loop
unfolding reconnected create_connection retried_session
retry a old sessions w =
    if ltb old.retries max_retry_per_session && not (w.stop || a.stop_seen)
    then reconnected (create_connection a.created (retried_session a old) sessions)
        (record w { retried = add64 w.retried 1 })
    else record { sessions = sessions; work = w; broken = false }

unfoldable pub status_ok : ℤ → Bool
status_ok code = at_least 1 code && at_most 399 code

unfoldable pub response_sample : ℕ → RecvEvent → EventAnswer → Session → ℤ → RequestSample
unfolding status_ok
response_sample size ev a s code = record {
  timestamp_ns = a.now_ns;
  latency_ns = since s a.now_ns;
  bytes_sent = size % u32;
  bytes_received = length ev.received % u32;
  http_status = code;
  success = status_ok code;
  error = if status_ok code then k_none else if at_least 500 code then k_http5xx else k_http4xx;
}

abbrev pub store : Session → Sessions → Work → Loop
store s sessions w = record {
  sessions = put_session s.conn_id s sessions;
  work = w;
  broken = false;
}

-- The response is complete: the session is free again, with a fresh parser.
unfoldable pub complete : ℕ → RecvEvent → EventAnswer → Session → Parser → Sessions → Work → Loop
unfolding response_sample status_ok succeed fail
complete size ev a old p sessions w =
    let x = response_sample size ev a old p.response.status_code in
    store (record old { parser = reset; in_flight = false; retries = 0 }) sessions
      (if status_ok p.response.status_code then succeed x w else fail x w)

unfoldable pub parse_failed :
    ℕ → RecvEvent → EventAnswer → Session → Parser → Sessions → Work → Loop
unfolding fail
parse_failed size ev a old p sessions w =
    store (record old { parser = p; in_flight = false }) sessions
      (fail
        (record {
          timestamp_ns = a.now_ns;
          latency_ns = since old a.now_ns;
          bytes_sent = size % u32;
          bytes_received = length ev.received % u32;
          http_status = pos 0;
          success = false;
          error = k_parse_error;
        })
        w)

unfoldable pub after_feed :
    ℕ → RecvEvent → EventAnswer → Session → Sessions → Work → Parser × Bool → Loop
unfolding complete parse_failed
after_feed size ev a old sessions w (p, false) = parse_failed size ev a old p sessions w
after_feed size ev a old sessions w (p, true) =
    if p.response.message_complete
    then complete size ev a old p sessions w
    else store (record old { parser = p }) sessions w

unfoldable pub on_data : Protocol → ℕ → RecvEvent → EventAnswer → Session → Sessions → Work → Loop
unfolding after_feed
on_data k_http size ev a old sessions w =
    after_feed size ev a old sessions w (feed old.parser ev.received)
on_data _ size ev a old sessions w = store old sessions w

unfoldable pub on_session : Config → ℕ → RecvEvent → EventAnswer → Option Session → Loop → Loop
unfolding on_data fail_in_flight retry
on_session config size ev a none l = l
on_session config size ev a (some old) l =
    let rest = erase_session ev.conn_id l.sessions in
    if ev.is_error
    then retry a old rest (fail_in_flight size ev a old old.in_flight l.work)
    else on_data config.protocol size ev a old rest
        (record l.work { bytes_received = add64 l.work.bytes_received (length ev.received) })

-- One event of a poll.
unfoldable pub on_event : Config → ℕ → RecvEvent → EventAnswer → Loop → Loop
unfolding on_session
on_event config size ev a l = on_session config size ev a (find_session ev.conn_id l.sessions) l

unfoldable pub on_events : Config → ℕ → List (RecvEvent × EventAnswer) → Loop → Loop
unfolding on_event
on_events config size [] l = l
on_events config size ((ev, a) ∷ rest) l =
    let next = on_events config size rest (on_event config size ev a l) in
    if l.broken then l else next

-- What a round of the loop meets: the stop flag, the clock, the answers of the sends, and the error or the
-- events of the poll.
pub record Round : Type 0 where
  pub stop_seen : Bool
  pub now : ℕ
  pub sends : ℕ → SendAnswer
  pub poll_error : Bool
  pub events : List (RecvEvent × EventAnswer)

unfoldable pub polled : Config → ℕ → Round → Bool → Sessions × Work → Loop
unfolding on_events
polled config size r true (sessions, w) = record {
  sessions = sessions;
  work = record w { stop = true };
  broken = true;
}
polled config size r false (sessions, w) =
    on_events config size r.events (record { sessions = sessions; work = w; broken = false })

unfoldable pub round : Config → ℕ → Round → Loop → Loop
unfolding polled send_round
round config size r l =
    polled config size r r.poll_error (send_round config size r.now r.sends l.sessions l.work)

-- `while (!stop)`, for the rounds that are met.
unfoldable pub rounds : Config → ℕ → List Round → Loop → Loop
unfolding round
rounds config size [] l = l
rounds config size (r ∷ rs) l =
    let next = rounds config size rs (round config size r l) in
    if l.work.stop || r.stop_seen then l else next

opened : Sessions × Work → Loop
opened (sessions, w) = record { sessions = sessions; work = w; broken = false }

-- The worker, up to the closing of its connections.
unfoldable pub worker_loop : Config → ℕ → ℕ → List (Option ℕ) → List Round → Loop
unfolding opened
worker_loop config size now answers rs =
    rounds config size rs (opened (create_all now answers [] fresh_work))

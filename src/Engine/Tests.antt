-- ===== src/Engine/Tests.antt =====
-- Runs of src/core/engine.cpp on small inputs, and its theorems at concrete inputs.
use titan_bench.Base.{
  ℕ, ◌*◌, ◌≤◌, ◌<◌, ◌≡◌, refl, List, [], ◌∷◌, true, false, some, none, arith, pos, sum_of, length,
  get_or, codes, starts_with, find, Bytes,
}
use titan_bench.Cli.Options.{Config, default_config}
use titan_bench.Http.Parser.{parse_status_line, status_of_line, status_at, take_status}
use titan_bench.Http.Feed.{feed, feed_in, dispatch, feed_status, from_status}
use titan_bench.Net.Errors.{system}
use titan_bench.Engine.Quota.{Fair, race, race-Fair, acquire_request_quota}
use titan_bench.Engine.Quota
use titan_bench.Engine.Rate
use titan_bench.Engine.Rate.{rate_interval_ns, rate_interval_ns-bounds, run-Spaced, Spaced, Tokens}
use titan_bench.Engine.Split.{worker_count, worker_concurrency, worker_concurrency-total}
use titan_bench.Engine.Worker.{
  SendAnswer, Work, send_round, send_turn, with_quota, after_send, sent_over, create_all,
  create_connection, fail,
}
use titan_bench.Engine.Events.{
  RecvEvent, EventAnswer, Round, rounds, round, polled, on_events, on_event, on_session, on_data,
  after_feed, parse_failed, worker_loop,
}
use titan_bench.Engine.Serve.{SoundLoop, worker_loop-Sound}

abbrev two_threads : Quota.Race
two_threads = record {
  started = 0;
  threads = Quota.Phase.at_top ∷ Quota.Phase.at_top ∷ [];
  granted = 0;
  denied = 0;
}

abbrev first_wins : List Quota.Turn
first_wins =
    record { thread = 0; spurious = false }
    ∷ record { thread = 1; spurious = false }
    ∷ record { thread = 0; spurious = false }
    ∷ record { thread = 1; spurious = false }
    ∷ record { thread = 1; spurious = false }
    ∷ []

race-Fair_example : Fair 1 (race 1 first_wins two_threads)
race-Fair_example =
    race-Fair 1 first_wins two_threads (omega arith)
      (record { counted = refl; bounded = omega arith; phases = (tt, (tt, tt)) })

abbrev tokens : Tokens
tokens = record {
  next_token_ns = 100;
  threads = Rate.Phase.at_top ∷ Rate.Phase.at_top ∷ [];
  slots = [];
}

abbrev rate_turns : List Rate.Turn
rate_turns =
    record { thread = 0; now = 90; spurious = false }
    ∷ record { thread = 1; now = 120; spurious = false }
    ∷ record { thread = 0; now = 130; spurious = false }
    ∷ record { thread = 1; now = 140; spurious = false }
    ∷ []

run-Spaced_example :
    Spaced 50 (Rate.run 50 rate_turns tokens).next_token_ns (Rate.run 50 rate_turns tokens).slots
run-Spaced_example = run-Spaced 50 rate_turns tokens tt

rate_interval_ns-bounds_example :
    (1 ≤ rate_interval_ns 10) × (rate_interval_ns 10 * (10 * 200) ≤ 1000000000)
rate_interval_ns-bounds_example = rate_interval_ns-bounds 10 (omega arith) (omega arith)

-- The product that overflows an `int` lowers the rate to one request a second.
overflow_run : rate_interval_ns 11000000 ≡ 1000000000
unfolding rate_interval_ns
overflow_run = refl

worker_concurrency-total_example :
    (sum_of (λ x. x) (worker_concurrency 3 10) ≡ 10)
    × (length (worker_concurrency 3 10) ≡ worker_count 3 10)
    × ((j : ℕ) → j < worker_count 3 10 → 1 ≤ get_or (worker_concurrency 3 10) j 0)
worker_concurrency-total_example = worker_concurrency-total 3 10 (omega arith)

abbrev http_config : Config
http_config = record default_config { requests = pos 5; has_requests = true }

abbrev answer : SendAnswer
answer = record { begin_ns = 1000; end_ns = 1100; error = none }

abbrev fine : EventAnswer
fine = record { now_ns = 2000; clock_ns = 2000; stop_seen = false; created = some 9 }

abbrev piece : Bytes → RecvEvent
piece b = record { conn_id = 7; received = b; is_error = false; error = system 0 }

abbrev bad_reply : List Round
bad_reply =
    record {
      stop_seen = false;
      now = 500;
      sends = λ _. answer;
      poll_error = false;
      events =
          (piece (codes "garbage of a server\r\n"), fine) ∷ (piece (codes "and more"), fine) ∷ [];
    }
    ∷ []

abbrev counts : Work → ℕ × ℕ
counts w = (w.started, w.completed)

-- One request whose reply does not parse and comes in two pieces is counted as failed twice: the parser that
-- has failed is kept.
parse_error_run : counts (worker_loop http_config 10 0 (some 7 ∷ []) bad_reply).work ≡ (1, 2)
unfolding worker_loop rounds round polled send_round send_turn with_quota after_send sent_over
    acquire_request_quota create_all create_connection on_events on_event on_session on_data
    after_feed parse_failed fail feed feed_in dispatch feed_status from_status parse_status_line
    status_at take_status status_of_line find starts_with
parse_error_run = refl

worker_loop-Sound_example :
    SoundLoop http_config (worker_loop http_config 10 0 (some 7 ∷ []) bad_reply)
worker_loop-Sound_example = worker_loop-Sound http_config 10 0 (some 7 ∷ []) bad_reply

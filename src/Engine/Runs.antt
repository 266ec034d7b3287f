-- ===== src/Engine/Runs.antt =====
-- Runs of the HTTPS slots and of the main loop of src/core/engine.cpp on small inputs, and theorems
-- at concrete inputs.
use titan_bench.Base.{
  ℕ, ◌+◌, ◌*◌, ◌^◌, ◌≤◌, ◌<◌, ◌≡◌, ◌↔◌, refl, subst, true, false, List, [], ◌∷◌, ◌++◌, some, none,
  pos, codes, crlf, length, u64, arith,
}
use titan_bench.Cli.Options.{Config, default_config, k_https}
use titan_bench.Tls.Wait.{ready}
use titan_bench.Tls.Client.{
  Client, new_client, InitAnswer, ConnectAnswer, in_progress, want_read, other,
}
use titan_bench.Tls.Transfer.{wrote, not_written, got, ended}
use titan_bench.Tls.Get.{GetAnswer}
use titan_bench.Engine.Worker.{Work, fresh_work, max_retry_per_session}
use titan_bench.Engine.Https.{Slot, SlotRound, looping, slot_round, slot_turns, start_slots}
use titan_bench.Stats.Sample.{RequestSample, k_none, k_other}
use titan_bench.Stats.Floats.{Floats}
use titan_bench.Stats.History.{Moment, recorded, drained, given}
use titan_bench.Engine.Final.{Consistent, by_slots, collected, build_progress_report-Consistent}
use titan_bench.Engine.Run.{build_progress_report, Tick, main_loop, end_time, report_at, drain_only}
use titan_bench.Engine.Paced.{is_left, SomeRound, EndsRun, reports, latest, main_loop-left_by}
use titan_bench.Engine.Slots.Turns.{SoundSlots, slot_turns-SoundSlots}

abbrev config : Config
config = record default_config {
  concurrency = pos 2;
  requests = pos 3;
  protocol = k_https;
  host = codes "a";
  port = pos 443;
  has_requests = true;
}

abbrev answer : ConnectAnswer
answer = record {
  init = record { started = true; context = true };
  tcp = record {
    resolved = true;
    socket = some 7;
    flags = true;
    non_blocking = true;
    connect = in_progress;
    polls = ready;
    completed = true;
  };
  object = some 1;
  set_fd = true;
  handshake = record { error = none; elapsed_ms = 4; polls = ready } ∷ [];
}

abbrev good_get : GetAnswer
good_get = record {
  begin_ns = 10;
  end_ns = 25;
  writes = wrote 1000 ∷ [];
  reads =
      (got 72 (codes "TTP/1.1 200 OK" ++ crlf ++ codes "Content-Length: 0" ++ crlf ++ crlf) ∷ [])
      ∷ [];
}

-- The server has ended the connection.
abbrev bad_get : GetAnswer
bad_get = record good_get { writes = not_written (other (pos 6)) ready ∷ [] }

abbrev good_round : SlotRound
good_round = record { stop_seen = false; connect = answer; get = good_get; now_ns = 30 }

abbrev bad_round : SlotRound
bad_round = record good_round { get = bad_get }

abbrev two_slots : List InitAnswer
two_slots =
    record { started = true; context = true } ∷ record { started = true; context = true } ∷ []

slot_turns-SoundSlots_example : SoundSlots config (
    slot_turns config
      ((0, good_round) ∷ (1, bad_round) ∷ (0, bad_round) ∷ [])
      (start_slots two_slots fresh_work))
slot_turns-SoundSlots_example =
    slot_turns-SoundSlots config two_slots ((0, good_round) ∷ (1, bad_round) ∷ (0, bad_round) ∷ [])

-- A slot whose retries are used up, on a connection that the server has ended.
abbrev dead : Slot
dead = record {
  client = record new_client {
    ctx = true;
    ssl = some 1;
    fd = some 7;
    initialized = true;
    connected = true;
    opened = 7 ∷ [];
    made = 1 ∷ [];
  };
  retry = max_retry_per_session;
  phase = looping;
}

-- It fails one more request and stays connected as it was.
dead_again : (slot_round config bad_round dead fresh_work).0 ≡ dead
unfolding slot_round titan_bench.Http.Message.build_get_request
dead_again = refl

good_counts :
    (slot_turns config
      ((0, good_round) ∷ (1, good_round) ∷ [])
      (start_slots two_slots fresh_work)).1.succeeded
    ≡ 2
unfolding slot_turns start_slots titan_bench.Tls.Client.do_handshake
    titan_bench.Http.Message.build_get_request titan_bench.Tls.Transfer.recv
    titan_bench.Http.Feed.feed titan_bench.Http.Feed.dispatch titan_bench.Http.Feed.feed_status
    titan_bench.Http.Parser.parse_status_line titan_bench.Base.find titan_bench.Base.starts_with
    titan_bench.Http.Parser.status_of_line titan_bench.Http.Number.whole_int
    titan_bench.Http.Feed.feed_headers titan_bench.Http.Feed.parse_headers
    titan_bench.Http.Parser.header_loop titan_bench.Http.Parser.parse_header_line
    titan_bench.Base.same_text titan_bench.Http.Message.trim_ascii
    titan_bench.Http.Number.whole_size titan_bench.Http.Feed.parse_body
good_counts = refl

abbrev good_sample : RequestSample
good_sample = record {
  timestamp_ns = 30;
  latency_ns = 15;
  bytes_sent = 64;
  bytes_received = 38;
  http_status = pos 200;
  success = true;
  error = k_none;
}

abbrev bad_sample : RequestSample
bad_sample = record good_sample {
  bytes_received = 0;
  http_status = pos 0;
  success = false;
  error = k_other;
}

abbrev both_turns : List (ℕ × SlotRound)
both_turns = (0, good_round) ∷ (1, bad_round) ∷ []

abbrev both_moments : List Moment
both_moments = recorded 0 good_sample ∷ drained ∷ recorded 1 bad_sample ∷ []

abbrev both_work : Work
both_work = (slot_turns config both_turns (start_slots two_slots fresh_work)).1

both_samples : given [] both_moments ≡ both_work.samples
unfolding slot_turns start_slots titan_bench.Tls.Client.do_handshake
    titan_bench.Http.Message.build_get_request titan_bench.Tls.Transfer.recv
    titan_bench.Http.Feed.feed titan_bench.Http.Feed.dispatch titan_bench.Http.Feed.feed_status
    titan_bench.Http.Parser.parse_status_line titan_bench.Base.find titan_bench.Base.starts_with
    titan_bench.Http.Parser.status_of_line titan_bench.Http.Number.whole_int
    titan_bench.Http.Feed.feed_headers titan_bench.Http.Feed.parse_headers
    titan_bench.Http.Parser.header_loop titan_bench.Http.Parser.parse_header_line
    titan_bench.Base.same_text titan_bench.Http.Message.trim_ascii
    titan_bench.Http.Number.whole_size titan_bench.Http.Feed.parse_body
both_samples = refl

two_samples : length both_work.samples < u64
two_samples = subst (λ (l : List RequestSample). length l < u64) both_samples (omega arith)

abbrev whole_floats : Floats
whole_floats = record {
  Double = ℕ;
  of_u64 = λ n. n;
  to_u64 = λ n. n;
  times = λ p n. n;
  over = λ a b. a;
  billion = 1000000000;
  p50 = 50;
  p95 = 95;
  p99 = 99;
}

build_progress_report-Consistent_example :
    Consistent
      (build_progress_report whole_floats
        (λ n. 5)
        both_work
        (collected (λ n. 5) 2 (2 ^ 3) 16 1 both_moments)
        0
        (record { report_ns = 90; now_ns = 91; later_ns = 92 })).1
build_progress_report-Consistent_example =
    build_progress_report-Consistent whole_floats (λ n. 5) config both_work 2 both_moments 3 16 1 0
      (record { report_ns = 90; now_ns = 91; later_ns = 92 }) (by_slots two_slots both_turns)
      (omega arith) (omega arith, (tt, (omega arith, tt))) both_samples two_samples

abbrev second : ℕ
second = 1000000000

abbrev three_ticks : List Tick
three_ticks =
    record { stop_seen = false; now_ns = 0; completed = 0; progress_ns = 5; after_ns = 6 }
    ∷ record {
      stop_seen = false;
      now_ns = second;
      completed = 1;
      progress_ns = second + 2;
      after_ns = second + 9;
    }
    ∷ record {
      stop_seen = false;
      now_ns = second + 20;
      completed = 3;
      progress_ns = second + 21;
      after_ns = second + 22;
    }
    ∷ []

ticks_end :
    main_loop config true (end_time config 0) three_ticks 0
    ≡ record { acts = drain_only ∷ report_at (second + 2) ∷ []; left_by = some true }
unfolding main_loop
ticks_end = refl

main_loop-left_by_example :
    ((is_left (main_loop config true (end_time config 0) three_ticks 0).left_by ≡ true)
      ↔ SomeRound (EndsRun config (end_time config 0)) three_ticks)
    × (0 + reports (main_loop config true (end_time config 0) three_ticks 0).acts * 1000000000
        ≤ latest 0 three_ticks)
main_loop-left_by_example = main_loop-left_by config true (end_time config 0) 0 three_ticks (
  omega arith,
  (
    omega arith,
    (
      omega arith,
      (omega arith, (omega arith, (omega arith, (omega arith, (omega arith, (omega arith, tt)))))),
    ),
  ),
)

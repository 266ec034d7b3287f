-- ===== src/Lib.antt =====
-- TitanBench: a load generator for HTTP, HTTPS, TCP and UDP.
--
-- The command line fills a configuration. The engine splits its connections over worker threads;
-- each slot of an HTTPS worker drives a TLS client of its own, one transaction after another;
-- each event-driven worker asks for its share of the requests and for a rate token, sends over
-- its network worker, feeds what comes back to a response parser, counts, and records a sample
-- of each request. A collector drains the samples of all workers into the statistics that are
-- reported.
--
-- Parts, and the modules that model them:
--   src/core/stats.h, src/core/stats.cpp: Stats: samples and error classes (Sample), latency
--     buckets (Bucket), the ring between a worker and the collector (Ring; step by step with
--     both threads in Concurrent), `StatsCollector` (Collector), `Snapshot` with the
--     percentiles (Snapshot; the arithmetic on `double` is the interface Floats)
--   src/protocol/http.h, src/protocol/http.cpp: Http: `BuildGetRequest` (Message), the numbers
--     that `from_chars` reads (Number), `ResponseParser` (Parser, Feed)
--   src/core/config.h, src/cli/args.cpp: Cli: the configuration and the readers of single
--     options (Options), `ParseArgs` and `ValidateConfig` (Args), as `main` of
--     src/app/main.cpp calls them
--   src/net/network.h, src/net/network.cpp: Net: error codes (Errors), the command queue
--     (Commands), the loop of `FlushWrite` (Flush), connections (Impl), their handlers
--     (Handlers), `PollOnce` (Poll), the submitting interface (Interface), `Start`, `Stop` and
--     the calls of a worker together (Lifecycle), the stack of commands for reuse (Recycle)
--   src/core/engine.cpp: Engine: `AcquireRequestQuota` (Quota), `WaitRateToken` (Rate), the
--     split of the connections (Split), `BuildPayload` (Payload), `WorkerLoopEventDriven`
--     (Worker, Events; several workers side by side in Crew), `WorkerLoopHttps` (Https),
--     `BuildProgressReport` and `BenchmarkEngine::Run` of src/core/engine.h (Run)
--   src/cli/report.h, src/cli/report.cpp, src/app/main.cpp: App: `CliReportPrinter` and
--     `PrintConfig` (Report), `main` with the watchdog (Program)
--   src/net/ssl.h, src/net/ssl.cpp: Tls: error messages and waits (Wait), `Connect` and
--     `Close` of `SslClient` (Client), `Send` and `Recv` (Transfer), `PerformHttpGet` with
--     `Result` and `TransactionTimer` of src/protocol/http.h (Get)
--
-- Atomic accesses of several threads are single steps, and a schedule says who takes the next
-- one; a weak compare-and-swap may fail without a reason. What the clock, the sockets, epoll,
-- name resolution and getopt_long answer is an argument of the definition that asks. Unsigned
-- words keep their wrap-around; an `int` of the configuration is a signed integer with its
-- bounds.
--
-- Loops: a drain runs on the distance of the two indices; the loop over the header lines on the
-- position of the empty line; `FlushWrite` on one round for each pending byte and chunk;
-- `NormalizePowerOfTwo` on the bits of a word. Each round of these moves its index, byte count
-- or bit on, so the fuel is enough. Other loops are structural; those of the TLS client run on
-- the answers that wolfSSL gives, and a call whose answers run out has not come back.
--
-- Not modelled: CPU binding, which touches no state; the signal handlers, which end the process;
-- the interest of a connection in epoll, whose calls drop their results; wolfSSL, getopt_long
-- and the system's calls, whose answers are arguments.
pub mod Base
pub mod Stats
pub mod Http
pub mod Cli
pub mod Net
pub mod Tls
pub mod Engine
pub mod App

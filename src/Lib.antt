-- ===== src/Lib.antt =====
-- The ingestion pipeline of Sluice: a gateway takes telemetry events by gRPC and passes them through
-- a bounded worker pool to a sink, in production a Kafka topic; a consumer reads the topic in rounds,
-- drops duplicates with the help of Redis, persists the rest in a sink, in production a Timescale
-- table, hands what cannot be persisted to a dead-letter topic, and commits. A report tool makes the
-- README's table of benchmark results.
--
-- Parts and files:
--   Event                 internal/sink/sink.go, DecodeRecord and marshalEvent of
--                         internal/consumer/consumer.go: events and their wire messages
--   Sink, Sink/Memory, Sink/Kafka, Sink/Timescale
--                         internal/sink: the interfaces, and the three sinks with their state
--   Sink/Timescale/Flush, Durable, Settles, Closing, Sink/Kafka/Durable
--                         what a flush does, and the demands on a sink, met
--   Sink/Timescale/Ticker and below
--                         tickerLoop beside the consumer, as a step function on a shared state
--   Retry                 the retry loops of the consumer and of the Timescale sink
--   Dedup                 internal/dedup/redis.go
--   Dlq                   internal/dlq/dlq.go
--   Consumer              handleBatch, persist and sendToDLQ of internal/consumer/consumer.go
--   Consumer/NoLoss, Tally, Keys, Once, Replay, Frame
--                         the fate of a batch's records, the counters, what dedup lets through, a
--                         batch that comes again
--   Consumer/Rounds       the loop of Run, its commits, what a committed round has settled, and
--                         where the records of all rounds stand
--   Consumer/Reporting    reportLoop
--   Pool and below        internal/pool/pool.go: the channel, the workers and Close; Pool/Service
--                         is its specification, Pool/Writes the pool with a sink behind it
--   Gateway and below     internal/gateway/server.go: Push
--   Report and below      internal/report: Load, Headlines, RenderMarkdown and its markers, the
--                         charts as values
--   Loadgen and below     internal/loadgen/loadgen.go: the requests of a goroutine, the counters
--                         and the result of Run; Loadgen/Hdr is internal/hdr/hdr.go
--   Results and below     internal/results/phase0.go, internal/benchmeta/meta.go and the file that
--                         cmd/loadgen/main.go writes, up to its way into a report
--   Losstest and below    cmd/losstest/main.go: the division of the work, the producers
--   Cmd/ConsumerMain, Cmd/GatewayMain, Cmd/ReportMain, Cmd/LoadgenMain
--                         cmd/consumer/main.go, cmd/gateway/main.go, cmd/report/main.go,
--                         cmd/loadgen/main.go: set-up, run, shutdown
--   Pipeline              the gateway on a Kafka sink in front of the consumer
--   Strconv, Base         Go's decimal prints; shared helpers
--   Broker                the Kafka client, a parameter
--   Examples              small systems in the place of the parameters, and runs of the models
--
-- The function of a model carries the name of the Go function in antt's spelling. State is passed
-- explicitly; an error is an Option Error, none for nil. Go's int is the signed number ℤ of
-- Base/Int; uint64 counters wrap at 2^64; strings and byte slices are lists of bytes; a float64 is
-- its bit pattern. Libraries and services are parameters (Proto, Broker, Redis, Database, the
-- readers of Files), records of operations with the laws that the code relies on.
--
-- Concurrency is modelled by sequences of moves: a move of the pool is one send, one step of one
-- worker, or Close; a move of the Timescale sink is one critical section or one call of the
-- database by one of its two goroutines. The theorems hold for all sequences. `Push` runs on a
-- schedule of turns, one for each attempt to pass on an event; a schedule that is too short leaves
-- the call waiting. The producers of the loss test take turns in a list of attempts. The loops of
-- the consumer and of the sinks are structural recursions, and the retry loops recurse on the
-- number of attempts left, so no fuel is needed; decimal prints use one round more than the
-- number, where one for each digit would do.
--
-- Not modelled: the constructors and Close of the clients but for their errors (calls of their
-- libraries), the metrics registry (a library's collectors and an HTTP server), the drawing of
-- charts (a library), cmd/topicinit, cmd/topiccount and cmd/injectmalformed (calls of the Kafka
-- client), signals, generated code. The consumer's program is run without its ticker, whose
-- interleavings Sink/Timescale/Ticker has for the sink alone. Prometheus counters are natural
-- numbers, exact where a float64 is up to 2^53, and the increments of the gateway's error count that
-- its workers lose are a number that is given to the model; the expiry of keys in Redis is outside of
-- a call. sort.Slice is its insertion sort, which Go uses up to 12 elements.
pub mod Base
pub mod Event
pub mod Retry
pub mod Strconv
pub mod Broker
pub mod Sink
pub mod Pool
pub mod Dedup
pub mod Dlq
pub mod Consumer
pub mod Pipeline
pub mod Cmd
pub mod Gateway
pub mod Losstest
pub mod Loadgen
pub mod Report
pub mod Results
pub mod Examples

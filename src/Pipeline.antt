-- ===== src/Pipeline.antt =====
-- From an event that the gateway accepts to its place behind the consumer: internal/pool and
-- internal/sink/kafka.go in cmd/gateway, the topic, and internal/consumer in cmd/consumer.
use mathlib.Core.List.{Perm}
use sluice_gate_telemetery_i.Base.{
  Bytes, Bool, [], ℤ, ◌<◌, ◌≡◌, ◌∙◌, ap, List, ◌++◌, Option, none, some, length, In, All, All-mono,
}
use sluice_gate_telemetery_i.Event.{Event, Error, ok, decode_record}
use sluice_gate_telemetery_i.Broker.{Record}
use sluice_gate_telemetery_i.Dlq.{Letter}
use sluice_gate_telemetery_i.Sink.{Sink}
use sluice_gate_telemetery_i.Sink.Kafka.{kafka_sink}
use sluice_gate_telemetery_i.Sink.Kafka.Durable.{InTopic, kafka_durable}
use sluice_gate_telemetery_i.Pool.{Pool, new, AllExited}
use sluice_gate_telemetery_i.Pool.Writes.{Running, Act, acts}
use sluice_gate_telemetery_i.Pool.Writes.Drained.{Written, drained-Written}
use sluice_gate_telemetery_i.Consumer.{Env, Consumer, handle_batch}
use sluice_gate_telemetery_i.Consumer.NoLoss.{Durable, Reliable}
use sluice_gate_telemetery_i.Consumer.Rounds.{Round, log_fetch_errors, poll, flush_sink, round, run}
use sluice_gate_telemetery_i.Consumer.Rounds.Settled.{Settling, IsFinal}
use sluice_gate_telemetery_i.Consumer.Rounds.Steady.{Steady}
use sluice_gate_telemetery_i.Consumer.Rounds.Standing.{Standing}
use sluice_gate_telemetery_i.Consumer.Rounds.History.{run-Standing}

module _ (v : Env) where
  -- The sink of the gateway's pool.
  abbrev pub gateway_sink : Sink v.broker.State
  gateway_sink = kafka_sink v.proto v.broker v.topic

  -- The records handed out are at least those of the topic.
  abbrev pub FetchesAll : v.broker.State → List Letter → Type 0
  FetchesAll log ls =
      (r : Record)
      → v.broker.Delivered log r
      → r.topic ≡ v.topic
      → (l : Letter) × In l ls × (l.value ≡ r.value)

  module _ (p : Durable v.sink) (q : Settling v.sink p) (h : Reliable v)
      (w : Steady v.sink p q) where
    -- A record of the event was polled, and it stands.
    abbrev pub Arrives : (Bytes → Bool) → List Letter → Consumer v → Event → Type 0
    Arrives before ls c e =
        (l : Letter) × In l ls
        × (decode_record v.proto l.value ≡ ok e)
        × Standing v p before (IsFinal v p q h) ls c l

    -- What a drained gateway has made of its events, and what the consumer then makes of them.
    pub record Delivery (g : Running gateway_sink) (before : Bytes → Bool) (ls : List Letter)
        (c : Consumer v) : Type 0 where
      pub arrived : List Event
      pub lost : List Event
      pub each_once : Perm g.pool.accepted (arrived ++ lost)
      pub settled : All (Arrives before ls c) arrived
      pub reported : length lost ≡ length g.pool.errors

    -- Take a gateway with at least one worker whose pool is drained, on a Kafka sink, and a consumer from
    -- its start that fetches the records of the topic in any rounds, of which the last has a flush that
    -- reports no error, under the conditions of `run-Standing`. Then of the events that the gateway
    -- accepted, all but as many as there were write errors have a record with the event as it was sent
    -- that stands: the event is stored, or dead-lettered, or Redis held its key at the start, or a
    -- record with its key is stored or dead-lettered.
    pub accepted-Delivery :
        (workers queue_size : ℤ) (pool : Pool) (log : v.broker.State)
        (as' : List (Act gateway_sink)) (rs : List Round) (xs : List Error) (ms : List Letter)
        (o : Option Error) (c : Consumer v)
        → new workers queue_size ≡ some pool
        → p.IsReady c.sink
        → c.polled ≡ []
        → let g = acts gateway_sink (record { pool = pool; sink = log }) as' in
          let d = (run v rs c).0 in
          0 < length g.pool.workers
          → AllExited g.pool.workers
          → FetchesAll g.sink (d.polled ++ ms)
          → (flush_sink v (handle_batch v ms (log_fetch_errors v xs (poll v ms d)))).1 ≡ none
          → Delivery g (v.redis.has c.redis) (d.polled ++ ms) (round v xs ms o d)
    accepted-Delivery workers queue_size pool log as' rs xs ms o c made ready fresh some_worker
          returned fetched flushed =
        record {
          arrived = written.kept;
          lost = written.lost;
          each_once = written.each_once;
          settled = All-mono _ arrived written.kept (λ e. arrives e) written.held;
          reported = written.reported;
        }
      where
        g : Running gateway_sink
        g = acts gateway_sink (record { pool = pool; sink = log }) as'

        d : Consumer v
        d = (run v rs c).0

        written :
            Written gateway_sink
              (kafka_durable v.proto v.broker v.topic)
              g.pool.accepted
              g.pool.errors
              g.sink
        written =
            drained-Written gateway_sink (kafka_durable v.proto v.broker v.topic) workers queue_size
              pool log as' made tt some_worker returned

        arrived : Event → Type 0
        arrived = Arrives (v.redis.has c.redis) (d.polled ++ ms) (round v xs ms o d)

        arrives : (e : Event) → InTopic v.proto v.broker v.topic g.sink e → arrived e
        arrives e (a, there, topic, key, decodes) =
            let (l, i, same) = fetched a there topic in
            (
              l,
              i,
              ap (decode_record v.proto) same ∙ decodes,
              run-Standing v p q h w rs xs ms o c l ready fresh flushed i,
            )

-- ===== src/Examples/PipelineRuns.antt =====
-- Runs of the whole pipeline (cmd/gateway, cmd/consumer).
use sluice_gate_telemetery_i.Base.{
  pos, codes, ◌≡◌, refl, List, [], ◌∷◌, map, none, In, In-map, arith, false,
}
use sluice_gate_telemetery_i.Broker.{Record}
use sluice_gate_telemetery_i.Dlq.{Letter}
use sluice_gate_telemetery_i.Pool.{Pool, looping, new, hand, send, close}
use sluice_gate_telemetery_i.Pool.Moves.{step, work, turn, receive}
use sluice_gate_telemetery_i.Pool.Writes.{Running, Act, offers, turns, shuts, acts, act}
use sluice_gate_telemetery_i.Pool.Writes.Drained.{Written, drained-Written}
use sluice_gate_telemetery_i.Sink.Kafka.{kafka_sink}
use sluice_gate_telemetery_i.Sink.Kafka.Durable.{kafka_durable}
use sluice_gate_telemetery_i.Sink.Timescale.{flush}
use sluice_gate_telemetery_i.Sink.Timescale.Durable.{timescale_durable}
use sluice_gate_telemetery_i.Sink.Timescale.Settles.{timescale_settling, timescale_steady}
use sluice_gate_telemetery_i.Consumer.Rounds.{flush_sink, round, run}
use sluice_gate_telemetery_i.Pipeline.{gateway_sink, Delivery, accepted-Delivery}
use sluice_gate_telemetery_i.Examples.Systems.{proto, broker, database, event}
use sluice_gate_telemetery_i.Examples.ConsumerRuns.{env, reliable, consumer, letter, failing}

-- A gateway with two workers and a queue of one.
abbrev pool : Pool
pool = record {
  queue = [];
  cap = 1;
  workers = looping ∷ looping ∷ [];
  closed = false;
  accepted = [];
  started = [];
  finished = [];
  errors = [];
}

-- A worker waits and is handed the first event; the second is queued; `Close`; the workers finish.
abbrev course : List (Act (gateway_sink env))
course =
    turns 0
    ∷ offers (event (codes "k1"))
    ∷ offers (event (codes "k2"))
    ∷ shuts
    ∷ turns 1
    ∷ turns 1
    ∷ turns 0
    ∷ turns 0
    ∷ turns 1
    ∷ []

abbrev gateway : Running (gateway_sink env)
gateway = acts (gateway_sink env) (record { pool = pool; sink = [] }) course

-- What the client hands out for a record.
abbrev polled : Record → Letter
polled r = letter r.value

fetched :
    (rs : List Record) (r : Record)
    → In r rs
    → (l : Letter) × In l (map polled rs) × (l.value ≡ r.value)
fetched rs r i = (polled r, In-map polled r rs i, refl)

accepted-Delivery_example :
    Delivery env
      (timescale_durable database 1)
      (timescale_settling database 1)
      reliable
      (timescale_steady database 1)
      gateway
      (env.redis.has (consumer failing).redis)
      (map polled gateway.sink)
      (round env [] (map polled gateway.sink) none (consumer failing))
unfolding new acts act step send hand receive turn work close flush_sink flush run
accepted-Delivery_example =
    accepted-Delivery env (timescale_durable database 1) (timescale_settling database 1) reliable
      (timescale_steady database 1) (pos 2) (pos 1) pool [] course [] [] (map polled gateway.sink)
      none (consumer failing) refl refl refl (omega arith) tt (λ r d t. fetched gateway.sink r d)
      refl

drained-Written_example :
    Written
      (kafka_sink proto broker (codes "telemetry"))
      (kafka_durable proto broker (codes "telemetry"))
      gateway.pool.accepted
      gateway.pool.errors
      gateway.sink
unfolding new acts act step send hand receive turn work close
drained-Written_example =
    drained-Written (kafka_sink proto broker (codes "telemetry"))
      (kafka_durable proto broker (codes "telemetry")) (pos 2) (pos 1) pool [] course refl tt
      (omega arith) tt

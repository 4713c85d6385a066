-- ===== src/Cmd/GatewayMain.antt =====
-- cmd/gateway/main.go: the wiring of the gateway, and its shutdown. The addresses and the log's wording
-- go to the libraries; what the gRPC server's handlers do (`Push`, to which the flag shed goes) is a
-- list of sends and of steps of the workers.
pub mod Counts
use sluice_gate_telemetery_i.Base.{
  ℕ, ℤ, Bytes, codes, beq, List, [], ◌∷◌, ◌++◌, map, Bool, true, false, ◌&&◌, Option, none, some,
  length, ◌-◌, if◌then◌else◌,
}
use sluice_gate_telemetery_i.Event.{Event, Error, Proto}
use sluice_gate_telemetery_i.Broker.{Broker}
use sluice_gate_telemetery_i.Sink.{Sink}
use sluice_gate_telemetery_i.Sink.Memory.{MemorySink, new_memory_sink, memory_sink}
use sluice_gate_telemetery_i.Sink.Kafka.{kafka_sink}
use sluice_gate_telemetery_i.Pool.{Pool, Worker, looping, parked, exited, writing, new}
use sluice_gate_telemetery_i.Pool.Writes.{Running, Act, offers, turns, shuts, acts}

pub record Flags : Type 0 where
  pub workers : ℤ
  pub queue : ℤ
  pub sink_kind : Bytes
  pub topic : Bytes
  pub shed : Bool

pub record Startup : Type 0 where
  pub kafka : Option Error
  pub listen : Option Error

pub data Kind : Type 0 where
  memory kafka : Kind

-- `log.Fatalf`, or the panic of `pool.New`.
pub data Stop : Type 0 where
  kafka_failed listen_failed : Error → Stop
  unknown_sink : Bytes → Stop
  bad_pool : Stop

pub data SetUp : Type 0 where
  ready : Kind → Pool → SetUp
  stops : Stop → SetUp

-- `pool.New` and `net.Listen`.
abbrev pub set_up_pool : Flags → Startup → Kind → SetUp
set_up_pool f u k = elim (new f.workers f.queue) [
  | none ↦ stops bad_pool
  | some p ↦ elim u.listen [ none ↦ ready k p | some x ↦ stops (listen_failed x) ]
]

unfoldable pub set_up : Flags → Startup → SetUp
set_up f u =
    if beq f.sink_kind (codes "memory")
    then set_up_pool f u memory
    else (if beq f.sink_kind (codes "kafka")
        then (elim u.kafka [ none ↦ set_up_pool f u kafka | some x ↦ stops (kafka_failed x) ])
        else stops (unknown_sink f.sink_kind))

-- While the server runs: a handler's send, or a step of a worker.
pub data Serving : Type 0 where
  pushes : Event → Serving
  writes : ℕ → Serving

abbrev pub all_exited : List Worker → Bool
all_exited [] = true
all_exited (exited ∷ ws) = all_exited ws
all_exited (looping ∷ ws) = false
all_exited (parked ∷ ws) = false
all_exited (writing e ∷ ws) = false

-- The last line of the log; `accepted` for a memory sink.
pub record FinalLine : Type 0 where
  pub accepted : Option ℕ
  pub errors : ℕ

module _ (p : Proto) (b : Broker) where
  abbrev pub SinkState : Kind → Type 0
  SinkState memory = MemorySink
  SinkState kafka = b.State

  abbrev pub sink_of : (f : Flags) (k : Kind) → Sink (SinkState k)
  sink_of f memory = memory_sink
  sink_of f kafka = kafka_sink p b f.topic

  abbrev pub new_sink : (k : Kind) → b.State → SinkState k
  new_sink memory log = new_memory_sink
  new_sink kafka log = log

  abbrev pub served : (f : Flags) (k : Kind) → Serving → Act (sink_of f k)
  served f k (pushes e) = offers e
  served f k (writes i) = turns i

  -- Behind the signal `GracefulStop` waits for the handlers, so nothing is sent any more; then
  -- `p.Close()` closes the channel and waits for the workers.
  unfoldable pub course : (f : Flags) (k : Kind) → List Serving → List ℕ → List (Act (sink_of f k))
  course f k serving draining = map (served f k) serving ++ (shuts ∷ map turns draining)

  abbrev pub accepted_of : (k : Kind) → SinkState k → Option ℕ
  accepted_of memory s = some s.accepted
  accepted_of kafka s = none

  -- `errCount` and `ms.Accepted()`. Workers increment `errCount` with nothing to keep them apart, so of
  -- the increments, one for each call of errFn, the given number is lost.
  abbrev pub final_line : (f : Flags) (k : Kind) → ℕ → Running (sink_of f k) → FinalLine
  final_line f k lost r = record {
    accepted = accepted_of k r.sink;
    errors = length r.pool.errors - lost;
  }

  -- `Close` still waits for a worker where not all have returned.
  pub data Outcome (f : Flags) : Type 0 where
    stopped : Stop → Outcome f
    draining : (k : Kind) → Running (sink_of f k) → Outcome f
    drained : (k : Kind) → Running (sink_of f k) → FinalLine → Outcome f

  unfoldable pub gateway_main :
      (f : Flags) → Startup → b.State → List Serving → List ℕ → ℕ → Outcome f
  unfolding set_up course acts
  gateway_main f u log serving steps lost = elim (set_up f u) [
    | stops x ↦ stopped x
    | ready k q ↦
        let r =
          acts (sink_of f k) (record { pool = q; sink = new_sink k log })
            (course f k serving steps) in
        if all_exited r.pool.workers then drained k r (final_line f k lost r) else draining k r
  ]

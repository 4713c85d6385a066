-- ===== src/Cmd/ConsumerMain.antt =====
-- cmd/consumer/main.go: the wiring of the consumer, its run, and the deferred calls at its end. The
-- addresses, the DSN, the intervals and the log's wording go to the libraries.
pub mod Leaves
use sluice_gate_telemetery_i.Base.{
  ℕ, ℤ, Bytes, codes, beq, ◌≡◌, List, [], ◌∷◌, ◌++◌, Bool, true, false, Option, none, some,
  if◌then◌else◌,
}
use sluice_gate_telemetery_i.Event.{Error, Proto}
use sluice_gate_telemetery_i.Broker.{Broker}
use sluice_gate_telemetery_i.Dedup.{Redis}
use sluice_gate_telemetery_i.Sink.{Sink}
use sluice_gate_telemetery_i.Sink.Memory.{MemorySink, new_memory_sink, memory_sink}
use sluice_gate_telemetery_i.Sink.Timescale.{
  Database, World, new_timescale_sink, timescale_sink, close_sink,
}
use sluice_gate_telemetery_i.Consumer.{Env, Consumer, new}
use sluice_gate_telemetery_i.Consumer.Rounds.{Round, Ended, run}

pub record Flags : Type 0 where
  pub topic : Bytes
  pub sink_kind : Bytes
  pub max_retries : ℤ
  pub batch_size : ℤ
  pub dedup_enabled : Bool
  pub dlq_enabled : Bool
  pub dlq_topic : Bytes

-- What the constructors of the clients come back with.
pub record Startup : Type 0 where
  pub timescale : Option Error
  pub dlq : Option Error
  pub client : Option Error

pub data Kind : Type 0 where
  memory timescale : Kind

-- The calls of `log.Fatalf`.
pub data Fatal : Type 0 where
  timescale_failed dlq_failed consumer_failed : Error → Fatal
  unknown_sink : Bytes → Fatal

pub data SetUp : Type 0 where
  ready : Kind → SetUp
  fatal : Fatal → SetUp

-- `switch *sinkKind`.
unfoldable pub choose_sink : Flags → Startup → SetUp
choose_sink f u =
    if beq f.sink_kind (codes "memory")
    then ready memory
    else (if beq f.sink_kind (codes "timescale")
        then (elim u.timescale [ none ↦ ready timescale | some x ↦ fatal (timescale_failed x) ])
        else fatal (unknown_sink f.sink_kind))

abbrev pub new_client : Startup → Kind → SetUp
new_client u k = elim u.client [ none ↦ ready k | some x ↦ fatal (consumer_failed x) ]

-- From the sink to the consumer.
unfoldable pub set_up : Flags → Startup → SetUp
unfolding choose_sink
set_up f u = elim (choose_sink f u) [
  | fatal x ↦ fatal x
  | ready k ↦
      if f.dlq_enabled
      then (elim u.dlq [ none ↦ new_client u k | some x ↦ fatal (dlq_failed x) ])
      else new_client u k
]

-- What `main` defers.
pub data Deferred : Type 0 where
  stop_signals close_client shut_metrics close_dlq close_dedup close_timescale : Deferred

abbrev pub deferred_if : Bool → Deferred → List Deferred
deferred_if true d = d ∷ []
deferred_if false d = []

abbrev pub deferred_sink : Kind → List Deferred
deferred_sink memory = []
deferred_sink timescale = close_timescale ∷ []

-- The deferred calls in the order in which they are made: the last deferred first.
unfoldable pub deferred : Flags → Kind → List Deferred
deferred f k =
    stop_signals
    ∷ close_client
    ∷ shut_metrics
    ∷ (deferred_if f.dlq_enabled close_dlq
        ++ (deferred_if f.dedup_enabled close_dedup ++ deferred_sink k))

-- The last line of the log; `accepted` for a memory sink.
pub record FinalLine : Type 0 where
  pub accepted : Option ℕ
  pub consumed : ℕ
  pub deduped : ℕ
  pub dlq : ℕ

-- The services that it is connected to.
module _ (p : Proto) (d : Database) (r : Redis) (b : Broker) where
  abbrev pub SinkState : Kind → Type 0
  SinkState memory = MemorySink
  SinkState timescale = World d

  abbrev pub sink_of : (k : Kind) → Sink (SinkState k)
  sink_of memory = memory_sink
  sink_of timescale = timescale_sink d

  abbrev pub env_of : Flags → Kind → Env
  env_of f k = record {
    proto = p;
    SinkState = SinkState k;
    sink = sink_of k;
    redis = r;
    broker = b;
    config = record {
      topic = f.topic;
      dlq_topic = f.dlq_topic;
      max_retries = f.max_retries;
      dedup = f.dedup_enabled;
      dlq = f.dlq_enabled;
      metrics = true;
    };
  }

  -- The services' states when `main` begins.
  pub record Surroundings : Type 0 where
    pub table : d.State
    pub keys : r.State
    pub log : b.State

  unfoldable pub new_sink : Flags → (k : Kind) → d.State → SinkState k
  unfolding new_timescale_sink
  new_sink f memory s = new_memory_sink
  new_sink f timescale s = (new_timescale_sink f.batch_size f.max_retries, s)

  unfoldable pub start : (f : Flags) (k : Kind) → Surroundings → Consumer (env_of f k)
  unfolding new new_sink
  start f k s = new (env_of f k) (new_sink f k s.table) s.keys s.log

  -- `defer ts.Close()`.
  unfoldable pub closed_sink : (k : Kind) → SinkState k → SinkState k
  closed_sink memory s = s
  closed_sink timescale s = close_sink d s

  -- Of the deferred calls only that of the sink changes what is modelled.
  unfoldable pub shut_down : (f : Flags) (k : Kind) → Consumer (env_of f k) → Consumer (env_of f k)
  unfolding closed_sink
  shut_down f k c = record c { sink = closed_sink k c.sink }

  abbrev pub accepted_of : (k : Kind) → SinkState k → Option ℕ
  accepted_of memory s = some s.accepted
  accepted_of timescale s = none

  abbrev pub final_line : (f : Flags) (k : Kind) → Consumer (env_of f k) → FinalLine
  final_line f k c = record {
    accepted = accepted_of k c.sink;
    consumed = c.consumed;
    deduped = c.deduped;
    dlq = c.dlq_sent;
  }

  pub data Exit (f : Flags) : Type 0 where
    died : Fatal → Exit f
    exits : (k : Kind) → Consumer (env_of f k) → Ended → FinalLine → List Deferred → Exit f

  unfoldable pub consumer_main : (f : Flags) → Startup → Surroundings → List Round → Exit f
  unfolding set_up start shut_down deferred run
  consumer_main f u s rs = elim (set_up f u) [
    | fatal x ↦ died x
    | ready k ↦
        let ended = run (env_of f k) rs (start f k s) in
        exits k (shut_down f k ended.0) ended.1 (final_line f k ended.0) (deferred f k)
  ]

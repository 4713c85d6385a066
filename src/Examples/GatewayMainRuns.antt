-- ===== src/Examples/GatewayMainRuns.antt =====
-- Runs of the gateway's program (cmd/gateway).
use sluice_gate_telemetery_i.Base.{pos, codes, ◌≡◌, refl, ℕ, List, [], ◌∷◌, none, some, false, true}
use sluice_gate_telemetery_i.Pool.{Pool, looping, new, hand, send, close}
use sluice_gate_telemetery_i.Pool.Moves.{step, work, turn, receive}
use sluice_gate_telemetery_i.Pool.Writes.{Running, acts, act}
use sluice_gate_telemetery_i.Sink.Kafka as Kafka
use sluice_gate_telemetery_i.Examples.LosstestRuns.{flaky}
use sluice_gate_telemetery_i.Sink.Memory.{new_memory_sink, write}
use sluice_gate_telemetery_i.Cmd.GatewayMain.{
  Flags, Startup, set_up, Serving, pushes, writes, drained, course, sink_of, gateway_main,
  FinalLine, memory, kafka,
}
use sluice_gate_telemetery_i.Cmd.GatewayMain.Counts.{Told, gateway_main-Told}
use sluice_gate_telemetery_i.Examples.Systems.{proto, broker, event}

abbrev flags : Flags
flags = record {
  workers = pos 2;
  queue = pos 1;
  sink_kind = codes "memory";
  topic = codes "telemetry";
  shed = false;
}

abbrev startup : Startup
startup = record { kafka = none; listen = none }

-- A worker waits and is handed the first event; the second is queued.
abbrev serving : List Serving
serving = writes 0 ∷ pushes (event (codes "k1")) ∷ pushes (event (codes "k2")) ∷ []

abbrev steps : List ℕ
steps = 1 ∷ 1 ∷ 0 ∷ 0 ∷ 1 ∷ []

abbrev pool : Pool
pool = record {
  queue = [];
  cap = 1;
  workers = looping ∷ looping ∷ [];
  closed = false;
  accepted = [];
  started = [];
  finished = [];
  errors = [];
}

abbrev to_kafka : Flags
to_kafka = record flags { sink_kind = codes "kafka" }

-- The broker refuses the first record.
abbrev last : Running (sink_of proto flaky to_kafka kafka)
last =
    acts (sink_of proto flaky to_kafka kafka) (record { pool = pool; sink = (false, []) })
      (course proto flaky to_kafka kafka serving steps)

-- The increment for it is lost.
abbrev line : FinalLine
line = record { accepted = none; errors = 0 }

gateway_main-Told_example : Told proto flaky to_kafka 1 kafka last line
unfolding new set_up course gateway_main acts act step send hand receive turn work close Kafka.write
gateway_main-Told_example =
    gateway_main-Told proto flaky to_kafka 1 1 startup (false, []) serving steps kafka last line
      refl refl

refused : last.pool.errors ≡ codes "not leader" ∷ []
unfolding course acts act step send hand receive turn work close Kafka.write
refused = refl

-- Without workers `Close` does not wait, and the queued event is lost, though no error is counted.
no_workers :
    gateway_main proto broker
      (record flags { workers = pos 0 })
      startup
      []
      (pushes (event (codes "k1")) ∷ [])
      []
      0
    ≡ drained memory
        (record {
          pool = record {
            queue = event (codes "k1") ∷ [];
            cap = 1;
            workers = [];
            closed = true;
            accepted = event (codes "k1") ∷ [];
            started = [];
            finished = [];
            errors = [];
          };
          sink = record { accepted = 0 };
        })
        (record { accepted = some 0; errors = 0 })
unfolding new new_memory_sink set_up course gateway_main acts act step send hand receive turn work
    close write
no_workers = refl

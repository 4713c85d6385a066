-- ===== src/Examples/CmdRuns.antt =====
-- Runs of the programs (cmd).
use sluice_gate_telemetery_i.Base.{pos, codes, ◌≡◌, refl, [], ◌∷◌, true, none, List}
use sluice_gate_telemetery_i.Consumer.NoLoss.{Reliable}
use sluice_gate_telemetery_i.Consumer.Rounds.{Round, fetched, cancelled}
use sluice_gate_telemetery_i.Cmd.ConsumerMain.{
  Flags, Startup, Surroundings, set_up, choose_sink, consumer_main, died, unknown_sink,
}
use sluice_gate_telemetery_i.Cmd.ConsumerMain.Leaves.{env, Leaves, consumer_main-Leaves}
use sluice_gate_telemetery_i.Examples.Systems.{proto, broker, redis, database}
use sluice_gate_telemetery_i.Examples.ConsumerRuns.{failing, letters}

abbrev flags : Flags
flags = record {
  topic = codes "telemetry";
  sink_kind = codes "timescale";
  max_retries = pos 1;
  batch_size = pos 2;
  dedup_enabled = true;
  dlq_enabled = true;
  dlq_topic = codes "telemetry.dlq";
}

abbrev startup : Startup
startup = record { timescale = none; dlq = none; client = none }

abbrev surroundings : Surroundings proto database redis broker
surroundings = record { table = failing; keys = []; log = [] }

abbrev reliable_here : Reliable (env proto database redis broker flags)
reliable_here = record { dlq_on = refl; dlq_takes = λ r s. refl; retries = 1; not_negative = refl }

abbrev rounds : List Round
rounds = fetched [] letters none ∷ cancelled (codes "context canceled") ∷ []

consumer_main-Leaves_example :
    Leaves proto database redis broker flags 1 reliable_here startup surroundings rounds
unfolding set_up choose_sink
consumer_main-Leaves_example =
    consumer_main-Leaves proto database redis broker flags 1 reliable_here startup surroundings
      rounds refl refl

no_such_sink :
    consumer_main proto database redis broker
      (record flags { sink_kind = codes "postgres" })
      startup
      surroundings
      rounds
    ≡ died (unknown_sink (codes "postgres"))
unfolding consumer_main
no_such_sink = refl

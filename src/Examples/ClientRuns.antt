-- ===== src/Examples/ClientRuns.antt =====
-- Runs of the clients of Kafka and Redis (internal/sink/kafka.go, internal/dlq/dlq.go,
-- internal/dedup/redis.go).
use sluice_gate_telemetery_i.Base.{negsuc, Bytes, codes, ◌≡◌, refl, List, [], ◌∷◌, true, false, In}
use sluice_gate_telemetery_i.Event.{Event, ok, decode_record}
use sluice_gate_telemetery_i.Broker.{Record}
use sluice_gate_telemetery_i.Dlq.{Letter, send, header_value, letter_of, send-recovers}
use sluice_gate_telemetery_i.Dedup.{seen, seen_batch, collect}
use sluice_gate_telemetery_i.Dedup.OneByOne.{seen_all, seen_batch-seen_all}
use sluice_gate_telemetery_i.Sink.Kafka.{write, write-delivers}
use sluice_gate_telemetery_i.Examples.Systems.{proto, broker, redis, holds, event}

abbrev one : Event
one = event (codes "k1")

write-delivers_example :
    (r : Record) × In r (write proto broker (codes "telemetry") one []).0
    × (r.topic ≡ codes "telemetry")
    × (r.key ≡ codes "device-7")
    × (decode_record proto r.value ≡ ok one)
unfolding write
write-delivers_example = write-delivers proto broker (codes "telemetry") one [] refl

-- A letter without partition and offset.
abbrev letter : Letter
letter = record {
  topic = codes "telemetry";
  partition = negsuc 0;
  offset = negsuc 0;
  key = codes "device-7";
  value = codes "bad";
}

send-recovers_example :
    (r : Record) × In r
      (send broker (codes "telemetry.dlq") letter (codes "proto: cannot parse") []).0
    × (r.topic ≡ codes "telemetry.dlq")
    × (header_value r.headers (codes "error") ≡ codes "proto: cannot parse")
    × (letter_of r ≡ letter)
unfolding send
send-recovers_example =
    send-recovers broker (codes "telemetry.dlq") letter (codes "proto: cannot parse") [] refl

abbrev keys : List Bytes
keys = codes "k1" ∷ codes "k2" ∷ codes "k1" ∷ []

seen_batch-seen_all_example :
    (false ∷ true ∷ true ∷ [] ≡ false ∷ true ∷ true ∷ [])
    × ((j : Bytes)
        → holds (seen_batch redis keys (codes "k2" ∷ [])).0 j
          ≡ holds (seen_all redis keys (codes "k2" ∷ [])).0 j)
unfolding seen_batch collect seen seen_all
seen_batch-seen_all_example =
    seen_batch-seen_all redis keys (codes "k2" ∷ []) (false ∷ true ∷ true ∷ [])
      (false ∷ true ∷ true ∷ []) refl refl

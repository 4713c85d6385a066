-- ===== src/Sink/Kafka.antt =====
-- internal/sink/kafka.go: one record per event, keyed by its device.
pub mod Durable
use sluice_gate_telemetery_i.Base.{Bytes, ◌≡◌, refl, [], Option, none, some}
use sluice_gate_telemetery_i.Event.{
  Event, Error, Proto, Result, ok, err, message_of, decode_record, decode_record-marshal,
}
use sluice_gate_telemetery_i.Broker.{Broker, Record}
use sluice_gate_telemetery_i.Sink.{Sink}

unfoldable pub record_of : Bytes → Event → Bytes → Record
record_of topic e val = record { topic = topic; key = e.device_id; value = val; headers = [] }

module _ (p : Proto) (k : Broker) (topic : Bytes) where
  unfoldable pub write : Event → k.State → k.State × Option Error
  write e s = elim (p.marshal (message_of e)) [
    | ok val ↦ k.produce_sync (record_of topic e val) s
    | err x ↦ (s, some x)
  ]

  unfoldable pub flush : k.State → k.State × Option Error
  flush s = k.flush s

  abbrev pub kafka_sink : Sink k.State
  kafka_sink = record { write = write; flusher = some flush; poison_reporter = none }

  write_cases :
      (e : Event) (s : k.State) (r : Result Bytes)
      → p.marshal (message_of e) ≡ r
      → (write e s).1 ≡ none
      → (b : Bytes) × k.Delivered (write e s).0 (record_of topic e b) × (decode_record p b ≡ ok e)
  unfolding write
  write_cases e s (ok b) m h = (
    b,
    rw (m, write) (k.produce_ok (record_of topic e b) s (rw (m, write) at h)),
    decode_record-marshal p e b m,
  )
  write_cases e s (err x) m h = let h' : some x ≡ none = rw (m, write) at h in cc

  -- A write without error has put a record in the topic, keyed by the event's device, that the
  -- consumer decodes to the event.
  pub write-delivers :
      (e : Event) (s : k.State)
      → (write e s).1 ≡ none
      → (r : Record) × k.Delivered (write e s).0 r
        × (r.topic ≡ topic)
        × (r.key ≡ e.device_id)
        × (decode_record p r.value ≡ ok e)
  unfolding record_of
  write-delivers e s h =
      let (b, d, m) = write_cases e s (p.marshal (message_of e)) refl h in
      (record_of topic e b, d, refl, refl, m)

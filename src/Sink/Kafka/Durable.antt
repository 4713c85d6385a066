-- ===== src/Sink/Kafka/Durable.antt =====
-- A Kafka sink (internal/sink/kafka.go) holds what it was given without error: the topic has it.
use sluice_gate_telemetery_i.Base.{Bytes, ◌≡◌, refl, Option, some}
use sluice_gate_telemetery_i.Event.{Event, Error, Proto, Result, ok, err, message_of, decode_record}
use sluice_gate_telemetery_i.Broker.{Broker, Record}
use sluice_gate_telemetery_i.Sink.Kafka.{record_of, write, kafka_sink, write-delivers}
use sluice_gate_telemetery_i.Consumer.NoLoss.{Durable}

module _ (p : Proto) (k : Broker) (topic : Bytes) where
  -- A record of the topic, keyed by the event's device, that decodes to the event.
  abbrev pub InTopic : k.State → Event → Type 0
  InTopic s e =
      (r : Record) × k.Delivered s r
      × (r.topic ≡ topic)
      × (r.key ≡ e.device_id)
      × (decode_record p r.value ≡ ok e)

  pub write_keeps :
      (f : Event) (r : Record) (s : k.State)
      → k.Delivered s r
      → k.Delivered (write p k topic f s).0 r
  unfolding write
  write_keeps f r s h = by_marshal (p.marshal (message_of f))
    where
      by_marshal :
          (o : Result Bytes)
          → k.Delivered
              (let a : k.State × Option Error = elim o [
                | ok val ↦ k.produce_sync (record_of topic f val) s
                | err x ↦ (s, some x)
              ] in
                a.0)
              r
      by_marshal (ok val) = k.produce_keeps (record_of topic f val) r s h
      by_marshal (err x) = h

  abbrev pub kafka_durable : Durable (kafka_sink p k topic)
  kafka_durable = record {
    IsReady = λ s. Unit;
    Holds = InTopic;
    write_ready = λ e s i. tt;
    write_ok = λ e s i h. write-delivers p k topic e s h;
    write_buffered = λ e s i n. absurd (n refl);
    write_keeps = λ f e s i h. (h.0, write_keeps f h.0 s h.1, h.2, h.3, h.4);
  }

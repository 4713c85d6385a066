-- ===== src/Sink.antt =====
-- The sink interfaces of internal/sink/sink.go. A sink over states S is a record of its methods;
-- an optional interface is `some` where the type assertion for it succeeds.
pub mod Memory
pub mod Kafka
pub mod Timescale
use sluice_gate_telemetery_i.Base.{List, Option}
use sluice_gate_telemetery_i.Event.{Event, PoisonedEvent, Error}

pub record Sink (S : Type 0) : Type 0 where
  pub write : Event → S → S × Option Error
  pub flusher : Option (S → S × Option Error)
  pub poison_reporter : Option (S → S × List PoisonedEvent)

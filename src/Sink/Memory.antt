-- ===== src/Sink/Memory.antt =====
-- internal/sink/memory.go: a sink that counts.
use sluice_gate_telemetery_i.Base.{ℕ, Option, none, add_u64}
use sluice_gate_telemetery_i.Event.{Event, Error}
use sluice_gate_telemetery_i.Sink.{Sink}

pub record MemorySink : Type 0 where
  pub accepted : ℕ

unfoldable pub new_memory_sink : MemorySink
new_memory_sink = record { accepted = 0 }

unfoldable pub write : Event → MemorySink → MemorySink × Option Error
write e s = (record { accepted = add_u64 s.accepted 1 }, none)

-- `Accepted` is the field. The sink is neither a Flusher nor a PoisonReporter.
abbrev pub memory_sink : Sink MemorySink
memory_sink = record { write = write; flusher = none; poison_reporter = none }

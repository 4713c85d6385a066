-- ===== src/Sink/Timescale/Closing.antt =====
-- `Close` of internal/sink/timescale.go.
use sluice_gate_telemetery_i.Base.{ℕ, pos, ◌≡◌, inl, inr, []}
use sluice_gate_telemetery_i.Event.{Event}
use sluice_gate_telemetery_i.Sink.Timescale.{Database, TimescaleSink, close_sink}
use sluice_gate_telemetery_i.Sink.Timescale.Flush.{Accounted, flush-accounts, flush-buffer}
use sluice_gate_telemetery_i.Sink.Timescale.Durable.{Held, flush-keeps}

-- When `Close` has come back and `maxRetries` is not negative, every event that the sink held is in the
-- table or among the poisoned ones, and the buffer is empty.
pub close_sink-Accounted :
    (d : Database) (n : ℕ) (s : TimescaleSink) (db : d.State) (e : Event)
    → s.max_retries ≡ pos n
    → Held d (s, db) e
    → Accounted d (close_sink d (s, db)) e × ((close_sink d (s, db)).0.buffer ≡ [])
unfolding close_sink
close_sink-Accounted d n s db e r (inl h) = (flush-accounts d n s db e r h, flush-buffer d s db)
close_sink-Accounted d n s db e r (inr a) = (flush-keeps d s db e a, flush-buffer d s db)

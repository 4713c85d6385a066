-- ===== src/Sink/Timescale/Ticker/Accounts.antt =====
-- No interleaving of the flushing goroutines (internal/sink/timescale.go) loses an event.
use sluice_gate_telemetery_i.Base.{ℕ, pos, ◌≡◌, List, [], ◌∷◌, In}
use sluice_gate_telemetery_i.Event.{Event}
use sluice_gate_telemetery_i.Sink.Timescale.{Database, TimescaleSink}
use sluice_gate_telemetery_i.Sink.Timescale.Ticker.{
  System, Move, put, consumer_begin, consumer_step, ticker_begin, ticker_step, report, commit, step,
  run, start,
}
use sluice_gate_telemetery_i.Sink.Timescale.Ticker.Kept.{
  Whereabouts, Inv, start-Inv, consumer_step-Inv, ticker_step-Inv, put-Inv, begin_consumer-Inv,
  begin_ticker-Inv, report-Inv, commit-Inv,
}

module _ (d : Database) where
  pub step-Inv : (n : ℕ) (s : System d) (m : Move) → Inv d n s → Inv d n (step d s m)
  step-Inv n s (put e) v = unfold step in put-Inv d n s e v
  step-Inv n s consumer_begin v = unfold step in begin_consumer-Inv d n s v
  step-Inv n s consumer_step v = consumer_step-Inv d n s v
  step-Inv n s ticker_begin v = unfold step in begin_ticker-Inv d n s v
  step-Inv n s ticker_step v = ticker_step-Inv d n s v
  step-Inv n s report v = unfold step in report-Inv d n s v
  step-Inv n s commit v = unfold step in commit-Inv d n s v

  pub run-Inv : (n : ℕ) (s : System d) (ms : List Move) → Inv d n s → Inv d n (run d s ms)
  unfolding run
  run-Inv n s [] v = v
  run-Inv n s (m ∷ ms) v = run-Inv n (step d s m) ms (step-Inv n s m v)

  -- However the consumer's flushes, the ticker's and the calls of the database interleave, with
  -- `maxRetries` not negative an event that was written is in the buffer, in the hands of one of the
  -- two goroutines, in the table, or set aside as poisoned (and perhaps handed over since).
  pub run-keeps_events :
      (n : ℕ) (s : TimescaleSink) (db : d.State) (ms : List Move) (e : Event)
      → s.max_retries ≡ pos n
      → In e (run d (start d s db) ms).written
      → Whereabouts d (run d (start d s db) ms) e
  run-keeps_events n s db ms e m h = (run-Inv n (start d s db) ms (start-Inv d n s db m)).found e h

-- ===== src/Examples/SinkRuns.antt =====
-- Runs of the Timescale sink (internal/sink/timescale.go).
use sluice_gate_telemetery_i.Base.{
  pos, negsuc, codes, ◌≡◌, refl, inl, inr, List, [], ◌∷◌, none, some, In, ℕ, replicate,
}
use sluice_gate_telemetery_i.Event.{Event, PoisonedEvent, Error}
use sluice_gate_telemetery_i.Sink.Timescale.{
  Database, TimescaleSink, flush, drain_buffer, copy_batch, insert_one, settle, mark_poisoned,
  row_of, new_timescale_sink,
}
use sluice_gate_telemetery_i.Sink.Timescale.Flush.{
  IsPoisoned, Accounted, flush-accounts, flush_outage, flush_negative_retries,
}
use sluice_gate_telemetery_i.Sink.Timescale.Ticker.{
  Move, put, consumer_begin, consumer_step, ticker_begin, report, commit, idle, start, run, step,
  put_event, begin_consumer, report_poisoned, commit_offsets, begin, advance,
}
use sluice_gate_telemetery_i.Sink.Timescale.Ticker.Progress.{Pending}
use sluice_gate_telemetery_i.Sink.Timescale.Ticker.Kept.{Whereabouts}
use sluice_gate_telemetery_i.Sink.Timescale.Ticker.Accounts.{run-keeps_events}
use sluice_gate_telemetery_i.Sink.Timescale.Ticker.Commit.{
  Settled, commit-Settled, commit_overtakes_ticker,
}
use sluice_gate_telemetery_i.Sink.Timescale.Ticker.Refines.{run-flush}
use sluice_gate_telemetery_i.Examples.Systems.{Table, database, event}

abbrev one : Event
one = event (codes "k1")

abbrev two : Event
two = event (codes "k2")

-- A sink with two events in its buffer.
abbrev sink : TimescaleSink
sink = record { batch_size = pos 500; max_retries = pos 0; buffer = one ∷ two ∷ []; poisoned = [] }

-- The batch fails, and so does the first row.
abbrev bad_row : Table
bad_row = record { rows = []; script = some (codes "batch") ∷ some (codes "bad row") ∷ [] }

abbrev fine : Table
fine = record { rows = []; script = [] }

flush-accounts_example : Accounted database (flush database (sink, bad_row)).0 two
flush-accounts_example = flush-accounts database 0 sink bad_row two refl (inr (inl refl))

abbrev poisoned_one : PoisonedEvent
poisoned_one = record { event = one; cause = codes "bad row" }

never_none : (x : Error) → some x ≡ none → ⊥
never_none x h = cc

abbrev nowhere : Database
nowhere = record {
  State = Unit;
  copy_from = λ rs s. (s, some (codes "down"));
  exec_insert = λ r s. (s, some (codes "down"));
  Stored = λ s r. ⊥;
  copy_ok = λ rs s r h i. never_none (codes "down") h;
  copy_keeps = λ rs s r h. h;
  insert_ok = λ r s h. never_none (codes "down") h;
  insert_keeps = λ q r s h. h;
}

flush_outage_example :
    ((flush nowhere (sink, tt)).1 ≡ none)
    × ((flush nowhere (sink, tt)).0.0.buffer ≡ [])
    × ((e : Event) → In e sink.buffer → IsPoisoned e (flush nowhere (sink, tt)).0.0.poisoned)
flush_outage_example = flush_outage nowhere 0 sink tt refl (λ e db h. h)

abbrev negative : TimescaleSink
negative = record sink { max_retries = negsuc 0 }

flush_negative_retries_example :
    flush database (negative, fine) ≡ ((record negative { buffer = [] }, fine), none)
flush_negative_retries_example = flush_negative_retries database 0 negative fine refl

-- The consumer writes two events, flushes the first with the batch failing, and commits.
abbrev quiet : List Move
quiet =
    put one
    ∷ consumer_begin
    ∷ consumer_step
    ∷ consumer_step
    ∷ consumer_step
    ∷ consumer_step
    ∷ consumer_step
    ∷ report
    ∷ commit
    ∷ put two
    ∷ []

abbrev empty : TimescaleSink
empty = record { batch_size = pos 500; max_retries = pos 0; buffer = []; poisoned = [] }

run-keeps_events_example :
    Whereabouts database (run database (start database empty bad_row) quiet) two
unfolding run step put_event begin_consumer begin advance drain_buffer commit_offsets
    report_poisoned copy_batch insert_one
run-keeps_events_example = run-keeps_events database 0 empty bad_row quiet two refl (inr (inl refl))

commit-Settled_example : Settled database (run database (start database empty bad_row) quiet) one
unfolding run step put_event begin_consumer begin advance drain_buffer commit_offsets
    report_poisoned copy_batch insert_one settle mark_poisoned row_of
commit-Settled_example = commit-Settled database 0 empty bad_row quiet one refl tt (inl refl)

commit_overtakes_ticker_example :
    (let s =
        run database
          (start database empty fine)
          (put one ∷ ticker_begin ∷ consumer_begin ∷ commit ∷ []) in
      (s.committed ≡ one ∷ [])
      × (s.world ≡ (empty, fine))
      × (s.consumer ≡ idle)
      × (s.reported ≡ [])
      × Pending one s.ticker)
unfolding new_timescale_sink
commit_overtakes_ticker_example = commit_overtakes_ticker database (pos 500) (pos 0) fine one

run-flush_example :
    (n : ℕ) × let q =
        run database (start database sink bad_row) (consumer_begin ∷ replicate n consumer_step) in
      (q.world ≡ (flush database (sink, bad_row)).0) × (q.consumer ≡ idle) × (q.ticker ≡ idle)
run-flush_example = run-flush database (start database sink bad_row) refl

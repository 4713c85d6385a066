-- ===== src/Sink/Timescale.antt =====
-- internal/sink/timescale.go: events are buffered, copied to the database in batches, and inserted
-- row by row where the batch fails. The pgx pool is the parameter `Database`.
pub mod Flush
pub mod Durable
pub mod Settles
pub mod Closing
pub mod Ticker
use sluice_gate_telemetery_i.Base.{
  ℕ, ℤ, Bytes, ◌≡◌, refl, In, List, [], ◌∷◌, ◌++◌, map, Option, none, some, attempts, reaches,
  length, if◌then◌else◌,
}
use sluice_gate_telemetery_i.Event.{Event, PoisonedEvent, Error}
use sluice_gate_telemetery_i.Retry.{Loop, finished, gave_up, last_err, retry}
use sluice_gate_telemetery_i.Sink.{Sink}

-- A row of telemetry_events. `event_time` is `time.Unix(0, n).UTC()`, given by its n.
pub record Row : Type 0 where
  pub device_id : Bytes
  pub event_time : ℤ
  pub metric : Bytes
  pub value : ℕ
  pub idempotency_key : Bytes

unfoldable pub row_of : Event → Row
row_of e = record {
  device_id = e.device_id;
  event_time = e.event_time_unix_nanos;
  metric = e.metric;
  value = e.value;
  idempotency_key = e.idempotency_key;
}

-- `Stored s r`: the table holds a row with the idempotency key and the time of r, which its unique
-- index makes the only one. A COPY that succeeds stores its rows, an INSERT … ON CONFLICT DO NOTHING
-- that succeeds stores its row or found its key, and neither removes a row.
pub record Database : Type 1 where
  pub State : Type 0
  pub copy_from : List Row → State → State × Option Error
  pub exec_insert : Row → State → State × Option Error
  pub Stored : State → Row → Type 0
  pub copy_ok :
      (rows : List Row) (s : State) (r : Row)
      → (copy_from rows s).1 ≡ none
      → In r rows
      → Stored (copy_from rows s).0 r
  pub copy_keeps :
      (rows : List Row) (s : State) (r : Row) → Stored s r → Stored (copy_from rows s).0 r
  pub insert_ok : (r : Row) (s : State) → (exec_insert r s).1 ≡ none → Stored (exec_insert r s).0 r
  pub insert_keeps : (q r : Row) (s : State) → Stored s r → Stored (exec_insert q s).0 r

-- The fields that the mutex guards, with the limits. The channels and the ticker are in `Ticker`.
pub record TimescaleSink : Type 0 where
  pub batch_size : ℤ
  pub max_retries : ℤ
  pub buffer : List Event
  pub poisoned : List PoisonedEvent

unfoldable pub new_timescale_sink : ℤ → ℤ → TimescaleSink
new_timescale_sink batch_size max_retries = record {
  batch_size = batch_size;
  max_retries = max_retries;
  buffer = [];
  poisoned = [];
}

unfoldable pub drain_buffer : TimescaleSink → TimescaleSink × List Event
drain_buffer s = (record s { buffer = [] }, s.buffer)

unfoldable pub mark_poisoned : Event → Error → TimescaleSink → TimescaleSink
mark_poisoned e x s = record s { poisoned = s.poisoned ++ record { event = e; cause = x } ∷ [] }

-- The end of a round of the row loop: `if rowErr != nil { s.markPoisoned(e, rowErr) }`.
unfoldable pub settle : Event → TimescaleSink → Option Error → TimescaleSink
unfolding mark_poisoned
settle e s none = s
settle e s (some x) = mark_poisoned e x s

module _ (d : Database) where
  abbrev pub World : Type 0
  World = TimescaleSink × d.State

  unfoldable pub drain_poisoned : World → World × List PoisonedEvent
  drain_poisoned (s, db) = ((record s { poisoned = [] }, db), s.poisoned)

  unfoldable pub copy_batch : List Event → d.State → d.State × Option Error
  copy_batch batch db = d.copy_from (map row_of batch) db

  unfoldable pub insert_one : Event → d.State → d.State × Option Error
  insert_one e db = d.exec_insert (row_of e) db

  -- `for _, e := range batch`
  unfoldable pub insert_rows : List Event → World → World
  insert_rows [] w = w
  insert_rows (e ∷ es) (s, db) =
      let r = retry (attempts s.max_retries) (insert_one e) db none in
      insert_rows es (settle e s (last_err r.1), r.0)

  -- `Flush` behind `drainBuffer`: both tiers of retries on a drained batch.
  unfoldable pub store_batch : List Event → World → World
  store_batch [] w = w
  store_batch (e ∷ es) (s, db) =
      let r = retry (attempts s.max_retries) (copy_batch (e ∷ es)) db none in
      elim r.1 [ finished ↦ (s, r.0) | gave_up x ↦ insert_rows (e ∷ es) (s, r.0) ]

  unfoldable pub flush : World → World × Option Error
  unfolding drain_buffer
  flush (s, db) = let drained = drain_buffer s in (store_batch drained.1 (drained.0, db), none)

  unfoldable pub write : Event → World → World × Option Error
  write e (s, db) =
      let s' : TimescaleSink = record s { buffer = s.buffer ++ e ∷ [] } in
      if reaches (length s'.buffer) s'.batch_size then flush (s', db) else ((s', db), none)

  -- `Close`, once `tickerLoop` has returned.
  unfoldable pub close_sink : World → World
  unfolding flush
  close_sink w = (flush w).0

  abbrev pub timescale_sink : Sink World
  timescale_sink = record {
    write = write;
    flusher = some flush;
    poison_reporter = some drain_poisoned;
  }

-- ===== src/Sink/Timescale/Ticker.antt =====
-- The two goroutines that flush a Timescale sink (internal/sink/timescale.go): the consumer, through
-- `Write` and `Flush`, and `tickerLoop`. A flush is taken apart into its critical sections and its
-- calls of the database, and the two interleave at these.
pub mod Progress
pub mod Kept
pub mod Accounts
pub mod Commit
pub mod Refines
use sluice_gate_telemetery_i.Base.{
  ℕ, zero, suc, ◌≡◌, List, [], ◌∷◌, ◌++◌, Option, none, some, attempts, length, Bool, true, false,
  refl, if◌then◌else◌,
}
use sluice_gate_telemetery_i.Event.{Event, PoisonedEvent, Error}
use sluice_gate_telemetery_i.Sink.Timescale.{
  Database, TimescaleSink, World, settle, insert_one, copy_batch, drain_buffer, drain_poisoned,
  new_timescale_sink,
}

-- Where a goroutine stands in `Flush`: in no flush, with k whole-batch attempts left, or with k
-- attempts left for the first of the rows, whose last error is given.
pub data Flushing : Type 0 where
  idle : Flushing
  copying : ℕ → List Event → Flushing
  inserting : ℕ → Option Error → List Event → Flushing

-- The head of `Flush`: `drainBuffer` and the test on its length.
unfoldable pub begin : TimescaleSink → TimescaleSink × Flushing
unfolding drain_buffer
begin s =
    let drained = drain_buffer s in
    (drained.0, elim drained.1 [ [] ↦ idle | e ∷ es ↦ copying (attempts s.max_retries) (e ∷ es) ])

-- What only a goroutine that is in no flush does.
abbrev pub when_idle {ℓ} : {A : Type ℓ} → Flushing → A → A → A
when_idle idle x y = x
when_idle (copying k es) x y = y
when_idle (inserting k e es) x y = y

pub when_idle-elim {ℓ κ} :
    {A : Type ℓ} (P : A → Type κ) (f : Flushing) (x y : A)
    → (f ≡ idle → P x)
    → P y
    → P (when_idle f x y)
when_idle-elim P idle x y h k = h refl
when_idle-elim P (copying n es) x y h k = k
when_idle-elim P (inserting n e es) x y h k = k

-- `put` is the critical section of `Write`; a flush that `Write` or `Run` starts is `consumer_begin`.
pub data Move : Type 0 where
  put : Event → Move
  consumer_begin consumer_step ticker_begin ticker_step report commit : Move

module _ (d : Database) where
  -- One call of the database, or one critical section, with the loop control around it.
  unfoldable pub advance : World d → Flushing → World d × Flushing
  advance w idle = (w, idle)
  advance (s, db) (copying zero es) = ((s, db), inserting (attempts s.max_retries) none es)
  advance (s, db) (copying (suc k) es) =
      let r = copy_batch d es db in ((s, r.0), elim r.1 [ none ↦ idle | some x ↦ copying k es ])
  advance w (inserting k x []) = (w, idle)
  advance (s, db) (inserting zero x (e ∷ es)) =
      ((settle e s x, db), inserting (attempts s.max_retries) none es)
  advance (s, db) (inserting (suc k) x (e ∷ es)) =
      let r = insert_one d e db in
      (
        (s, r.0),
        elim r.1 [
          | none ↦ inserting (attempts s.max_retries) none es
          | some y ↦ inserting k (some y) (e ∷ es)
        ],
      )

  -- The sink with its two goroutines; what was written, what `DrainPoisoned` handed over, whether
  -- the consumer has flushed since its last write, and the writes that its last commit covers.
  pub record System : Type 0 where
    pub world : World d
    pub consumer : Flushing
    pub ticker : Flushing
    pub written : List Event
    pub reported : List PoisonedEvent
    pub flushed : Bool
    pub committed : List Event

  abbrev pub start : TimescaleSink → d.State → System
  start s db = record {
    world = (s, db);
    consumer = idle;
    ticker = idle;
    written = [];
    reported = [];
    flushed = false;
    committed = [];
  }

  unfoldable pub put_event : Event → System → System
  put_event e s =
      when_idle s.consumer
        (record s {
          world = (record (s.world.0) { buffer = s.world.0.buffer ++ e ∷ [] }, s.world.1);
          written = s.written ++ e ∷ [];
          flushed = false;
        })
        s

  unfoldable pub begin_consumer : System → System
  begin_consumer s =
      when_idle s.consumer
        (record s {
          world = ((begin s.world.0).0, s.world.1);
          consumer = (begin s.world.0).1;
          flushed = true;
        })
        s

  unfoldable pub begin_ticker : System → System
  begin_ticker s =
      when_idle s.ticker
        (record s { world = ((begin s.world.0).0, s.world.1); ticker = (begin s.world.0).1 }) s

  unfoldable pub report_poisoned : System → System
  report_poisoned s =
      when_idle s.consumer
        (record s {
          world = (drain_poisoned d s.world).0;
          reported = s.reported ++ (drain_poisoned d s.world).1;
        })
        s

  -- `CommitUncommittedOffsets`, behind a flush of the same round.
  unfoldable pub commit_offsets : System → System
  commit_offsets s =
      when_idle s.consumer (if s.flushed then record s { committed = s.written } else s) s

  unfoldable pub step : System → Move → System
  unfolding put_event begin_consumer begin_ticker report_poisoned commit_offsets
  step s (put e) = put_event e s
  step s consumer_begin = begin_consumer s
  step s consumer_step =
      let r = advance s.world s.consumer in record s { world = r.0; consumer = r.1 }
  step s ticker_begin = begin_ticker s
  step s ticker_step = let r = advance s.world s.ticker in record s { world = r.0; ticker = r.1 }
  step s report = report_poisoned s
  step s commit = commit_offsets s

  unfoldable pub run : System → List Move → System
  run s [] = s
  run s (m ∷ ms) = run (step s m) ms

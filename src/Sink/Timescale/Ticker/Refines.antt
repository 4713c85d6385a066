-- ===== src/Sink/Timescale/Ticker/Refines.antt =====
-- A flush taken apart into steps is `Flush` (internal/sink/timescale.go), while the other goroutine is still.
use sluice_gate_telemetery_i.Base.{
  ℕ, zero, suc, ◌≡◌, refl, sym, ap, subst, ◌∙◌, List, [], ◌∷◌, true, replicate, Option, none, some,
  attempts,
}
use sluice_gate_telemetery_i.Event.{Event, Error}
use sluice_gate_telemetery_i.Retry.{Loop, finished, gave_up, last_err, retry}
use sluice_gate_telemetery_i.Sink.Timescale.{
  Database, TimescaleSink, World, settle, insert_one, copy_batch, insert_rows, store_batch,
  drain_buffer, flush,
}
use sluice_gate_telemetery_i.Sink.Timescale.Flush.{settle_fields}
use sluice_gate_telemetery_i.Sink.Timescale.Ticker.{
  Flushing, idle, copying, inserting, begin, advance, System, consumer_begin, consumer_step,
  begin_consumer, when_idle, step, run,
}

module _ (d : Database) where
  -- n steps of a goroutine that flushes.
  abbrev pub steps : ℕ → World d × Flushing → World d × Flushing
  steps zero r = r
  steps (suc n) r = steps n (advance d r.0 r.1)

  abbrev pub Reaches : World d × Flushing → World d × Flushing → Type 0
  Reaches r r' = (n : ℕ) × (steps n r ≡ r')

  Reaches-trans : (a b c : World d × Flushing) → Reaches a b → Reaches b c → Reaches a c
  Reaches-trans a b c (n, h) (m, k) = by_steps n a h
    where
      by_steps : (n : ℕ) (a : World d × Flushing) → steps n a ≡ b → Reaches a c
      by_steps zero a h = (m, subst (λ x. steps m x ≡ c) (sym h) k)
      by_steps (suc n) a h = let r = by_steps n (advance d a.0 a.1) h in (suc r.0, r.1)

  Reaches-step : (a c : World d × Flushing) → Reaches (advance d a.0 a.1) c → Reaches a c
  Reaches-step a c (n, h) = (suc n, h)

  abbrev rows_left : TimescaleSink → d.State → List Event → World d × Flushing
  rows_left s db es = ((s, db), inserting (attempts s.max_retries) none es)

  -- Where the attempts for one row lead.
  abbrev row_end : TimescaleSink → Event → List Event → d.State × Loop → World d × Flushing
  row_end s e es r = ((settle e s (last_err r.1), r.0), inserting (attempts s.max_retries) none es)

  row-Reaches :
      (k : ℕ) (x : Option Error) (s : TimescaleSink) (db : d.State) (e : Event) (es : List Event)
      → Reaches ((s, db), inserting k x (e ∷ es)) (row_end s e es (retry k (insert_one d e) db x))
  unfolding advance retry settle
  row-Reaches zero x s db e es = (1, refl)
  row-Reaches (suc k) x s db e es =
      Reaches-step ((s, db), inserting (suc k) x (e ∷ es)) _
        (by_result (insert_one d e db).1 (λ y. row-Reaches k (some y) s db' e es))
    where
      db' : d.State
      db' = (insert_one d e db).0

      by_result :
          (o : Option Error)
          → ((y : Error)
              → Reaches
                  ((s, db'), inserting k (some y) (e ∷ es))
                  (row_end s e es (retry k (insert_one d e) db' (some y))))
          → Reaches
              (
                (s, db'),
                elim o [
                  | none ↦ inserting (attempts s.max_retries) none es
                  | some y ↦ inserting k (some y) (e ∷ es)
                ],
              )
              (row_end s e es (elim o [
                | none ↦ (db', finished)
                | some y ↦ retry k (insert_one d e) db' (some y)
              ]))
      by_result none ih = (0, refl)
      by_result (some y) ih = ih y

  rows-Reaches :
      (es : List Event) (s : TimescaleSink) (db : d.State)
      → Reaches (rows_left s db es) (insert_rows d es (s, db), idle)
  unfolding insert_rows advance
  rows-Reaches [] s db = (1, refl)
  rows-Reaches (e ∷ es) s db =
      Reaches-trans (rows_left s db (e ∷ es)) (row_end s e es r) (insert_rows d es (s', r.0), idle)
        (row-Reaches (attempts s.max_retries) none s db e es)
        (subst
          (λ z.
            Reaches ((s', r.0), inserting (attempts z) none es) (insert_rows d es (s', r.0), idle))
          (settle_fields d e s (last_err r.1)).0 (rows-Reaches es s' r.0))
    where
      r : d.State × Loop
      r = retry (attempts s.max_retries) (insert_one d e) db none

      s' : TimescaleSink
      s' = settle e s (last_err r.1)

  -- Where the attempts for the whole batch lead.
  abbrev batch_end : TimescaleSink → List Event → d.State × Loop → World d × Flushing
  batch_end s es r = elim r.1 [ finished ↦ ((s, r.0), idle) | gave_up x ↦ rows_left s r.0 es ]

  batch-Reaches :
      (k : ℕ) (x : Option Error) (s : TimescaleSink) (db : d.State) (es : List Event)
      → Reaches ((s, db), copying k es) (batch_end s es (retry k (copy_batch d es) db x))
  unfolding advance retry
  batch-Reaches zero x s db es = (1, refl)
  batch-Reaches (suc k) x s db es =
      Reaches-step ((s, db), copying (suc k) es) _
        (by_result (copy_batch d es db).1 (λ y. batch-Reaches k (some y) s db' es))
    where
      db' : d.State
      db' = (copy_batch d es db).0

      by_result :
          (o : Option Error)
          → ((y : Error)
              → Reaches
                  ((s, db'), copying k es)
                  (batch_end s es (retry k (copy_batch d es) db' (some y))))
          → Reaches
              ((s, db'), elim o [ none ↦ idle | some y ↦ copying k es ])
              (batch_end s es (elim o [
                | none ↦ (db', finished)
                | some y ↦ retry k (copy_batch d es) db' (some y)
              ]))
      by_result none ih = (0, refl)
      by_result (some y) ih = ih y

  begin-Reaches :
      (s : TimescaleSink) (db : d.State)
      → Reaches (((begin s).0, db), (begin s).1) ((flush d (s, db)).0, idle)
  unfolding begin drain_buffer flush store_batch
  begin-Reaches s db = by_buffer s.buffer
    where
      t : TimescaleSink
      t = record s { buffer = [] }

      by_loop :
          (e : Event) (es : List Event) (r : d.State × Loop)
          → Reaches
              (batch_end t (e ∷ es) r)
              (elim r.1 [ finished ↦ (t, r.0) | gave_up x ↦ insert_rows d (e ∷ es) (t, r.0) ], idle)
      by_loop e es (db', finished) = (0, refl)
      by_loop e es (db', gave_up x) = rows-Reaches (e ∷ es) t db'

      by_buffer :
          (b : List Event)
          → Reaches
              ((t, db), elim b [ [] ↦ idle | e ∷ es ↦ copying (attempts s.max_retries) (e ∷ es) ])
              (store_batch d b (t, db), idle)
      by_buffer [] = (0, refl)
      by_buffer (e ∷ es) =
          let r = retry (attempts s.max_retries) (copy_batch d (e ∷ es)) db none in
          Reaches-trans _ (batch_end t (e ∷ es) r) _
            (batch-Reaches (attempts s.max_retries) none t db (e ∷ es)) (by_loop e es r)

  -- A consumer's step on the whole system is a step of its flush.
  run-steps :
      (n : ℕ) (s : System d)
      → let q = run d s (replicate n consumer_step) in
        ((q.world, q.consumer) ≡ steps n (s.world, s.consumer)) × (q.ticker ≡ s.ticker)
  unfolding run step
  run-steps zero s = (refl, refl)
  run-steps (suc n) s =
      run-steps n (let r = advance d s.world s.consumer in record s { world = r.0; consumer = r.1 })

  abbrev begun : System d → System d
  begun s = record s {
    world = ((begin s.world.0).0, s.world.1);
    consumer = (begin s.world.0).1;
    flushed = true;
  }

  begin_consumer-idle : (s : System d) → s.consumer ≡ idle → begin_consumer d s ≡ begun s
  unfolding begin_consumer
  begin_consumer-idle s h = ap (λ f. when_idle f (begun s) s) h

  -- While the ticker is still, the consumer's flush ends: begun in no other flush and given enough steps,
  -- it leaves the sink and the database just as `Flush` in one piece does, and the ticker as it was.
  pub run-flush :
      (s : System d)
      → s.consumer ≡ idle
      → (n : ℕ) × let q = run d s (consumer_begin ∷ replicate n consumer_step) in
          (q.world ≡ (flush d s.world).0) × (q.consumer ≡ idle) × (q.ticker ≡ s.ticker)
  unfolding run step
  run-flush s h =
      let reach = begin-Reaches s.world.0 s.world.1 in
      let r = run-steps reach.0 (begun s) in
      let both = r.0 ∙ reach.1 in
      (
        reach.0,
        subst
            (λ t.
              let q = run d t (replicate reach.0 consumer_step) in
              (q.world ≡ (flush d s.world).0) × (q.consumer ≡ idle) × (q.ticker ≡ s.ticker))
            (sym (begin_consumer-idle s h)) (ap (λ z. z.0) both, ap (λ z. z.1) both, r.1),
      )

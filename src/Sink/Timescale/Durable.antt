-- ===== src/Sink/Timescale/Durable.antt =====
-- A Timescale sink (internal/sink/timescale.go) holds what it is given.
use sluice_gate_telemetery_i.Base.{
  ℕ, pos, ◌≡◌, refl, ◌∙◌, ◌⊎◌, inl, inr, List, [], ◌∷◌, ◌++◌, Bool, true, false, none, attempts,
  if◌then◌else◌, In, In-append_left, In-append_right,
}
use sluice_gate_telemetery_i.Event.{Event}
use sluice_gate_telemetery_i.Retry.{Loop, finished, gave_up, retry, retry_keeps}
use sluice_gate_telemetery_i.Sink.Timescale.{
  Database, TimescaleSink, row_of, World, insert_rows, copy_batch, store_batch, drain_buffer, flush,
  write, timescale_sink,
}
use sluice_gate_telemetery_i.Sink.Timescale.Flush.{
  IsStored, Accounted, insert_rows-keeps, settle_fields, flush-accounts,
}
use sluice_gate_telemetery_i.Consumer.NoLoss.{Durable}

module _ (d : Database) where
  copy_keeps :
      (n : ℕ) (es : List Event) (f : Event) (db : d.State)
      → IsStored d f db
      → IsStored d f (retry n (copy_batch d es) db none).0
  unfolding copy_batch
  copy_keeps n es f db h =
      retry_keeps (IsStored d f) (copy_batch d es) (λ s k. d.copy_keeps _ s (row_of f) k) n db none
        h

  store_loop-keeps :
      (es : List Event) (s : TimescaleSink) (db : d.State) (f : Event) (l : Loop)
      → (retry (attempts s.max_retries) (copy_batch d es) db none).1 ≡ l
      → Accounted d (s, db) f
      → Accounted d (store_batch d es (s, db)) f
  unfolding store_batch
  store_loop-keeps [] s db f l e a = a
  store_loop-keeps (x ∷ es) s db f finished e (inl h) =
      rw (e, store_batch) (inl (copy_keeps (attempts s.max_retries) (x ∷ es) f db h))
  store_loop-keeps (x ∷ es) s db f finished e (inr h) = rw (e, store_batch) (inr h)
  store_loop-keeps (x ∷ es) s db f (gave_up o) e (inl h) =
      rw (e, store_batch)
        (insert_rows-keeps d (x ∷ es) _ f
          (inl (copy_keeps (attempts s.max_retries) (x ∷ es) f db h)))
  store_loop-keeps (x ∷ es) s db f (gave_up o) e (inr h) =
      rw (e, store_batch) (insert_rows-keeps d (x ∷ es) _ f (inr h))

  pub flush-keeps :
      (s : TimescaleSink) (db : d.State) (f : Event)
      → Accounted d (s, db) f
      → Accounted d (flush d (s, db)).0 f
  unfolding flush drain_buffer
  flush-keeps s db f a = store_loop-keeps s.buffer (record s { buffer = [] }) db f _ refl a

  insert_rows-limit :
      (es : List Event) (s : TimescaleSink) (db : d.State)
      → (insert_rows d es (s, db)).0.max_retries ≡ s.max_retries
  unfolding insert_rows
  insert_rows-limit [] s db = refl
  insert_rows-limit (e ∷ es) s db = insert_rows-limit es _ _ ∙ (settle_fields d e s _).0

  store_loop-limit :
      (es : List Event) (s : TimescaleSink) (db : d.State) (l : Loop)
      → (retry (attempts s.max_retries) (copy_batch d es) db none).1 ≡ l
      → (store_batch d es (s, db)).0.max_retries ≡ s.max_retries
  unfolding store_batch
  store_loop-limit [] s db l e = refl
  store_loop-limit (x ∷ es) s db finished e = rw (e, store_batch)
  store_loop-limit (x ∷ es) s db (gave_up o) e =
      rw (e, store_batch) (insert_rows-limit (x ∷ es) s _)

  pub flush-limit :
      (s : TimescaleSink) (db : d.State) → (flush d (s, db)).0.0.max_retries ≡ s.max_retries
  unfolding flush drain_buffer
  flush-limit s db = store_loop-limit s.buffer (record s { buffer = [] }) db _ refl

  -- In the buffer, in the table, or set aside as poisoned.
  abbrev pub Held : World d → Event → Type 0
  Held w e = In e w.0.buffer ⊎ Accounted d w e

  module _ (n : ℕ) where
    abbrev pub IsReady : World d → Type 0
    IsReady w = w.0.max_retries ≡ pos n

    -- A sink behind the append of `Write`, flushed or not.
    flushed-Held :
        (b : Bool) (s : TimescaleSink) (db : d.State) (e : Event)
        → IsReady (s, db)
        → Held (s, db) e
        → Held (if b then flush d (s, db) else ((s, db), none)).0 e
    flushed-Held true s db e r (inl h) = inr (flush-accounts d n s db e r h)
    flushed-Held true s db e r (inr a) = inr (flush-keeps s db e a)
    flushed-Held false s db e r h = h

    flushed-IsReady :
        (b : Bool) (s : TimescaleSink) (db : d.State)
        → IsReady (s, db)
        → IsReady (if b then flush d (s, db) else ((s, db), none)).0
    flushed-IsReady true s db r = flush-limit s db ∙ r
    flushed-IsReady false s db r = r

    abbrev pub appended : Event → TimescaleSink → TimescaleSink
    appended e s = record s { buffer = s.buffer ++ e ∷ [] }

    pub write-IsReady : (e : Event) (w : World d) → IsReady w → IsReady (write d e w).0
    unfolding write
    write-IsReady e (s, db) r = flushed-IsReady _ (appended e s) db r

    pub write-Held : (e : Event) (w : World d) → IsReady w → Held (write d e w).0 e
    unfolding write
    write-Held e (s, db) r =
        flushed-Held _ (appended e s) db e r (inl (In-append_right e s.buffer (e ∷ []) (inl refl)))

    pub write-keeps : (f e : Event) (w : World d) → IsReady w → Held w e → Held (write d f w).0 e
    unfolding write
    write-keeps f e (s, db) r (inl h) =
        flushed-Held _ (appended f s) db e r (inl (In-append_left e s.buffer (f ∷ []) h))
    write-keeps f e (s, db) r (inr a) = flushed-Held _ (appended f s) db e r (inr a)

    -- The sink keeps the promise that the consumer builds on.
    abbrev pub timescale_durable : Durable (timescale_sink d)
    timescale_durable = record {
      IsReady = IsReady;
      Holds = Held;
      write_ready = write-IsReady;
      write_ok = λ e w r _. write-Held e w r;
      write_buffered = λ e w r _. write-Held e w r;
      write_keeps = write-keeps;
    }

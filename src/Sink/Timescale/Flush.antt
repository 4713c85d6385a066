-- ===== src/Sink/Timescale/Flush.antt =====
-- What a flush of internal/sink/timescale.go does with the events of its batch.
use sluice_gate_telemetery_i.Base.{
  ℕ, suc, pos, negsuc, ◌≡◌, refl, sym, ap, subst, ◌∙◌, ◌⊎◌, inl, inr, List, [], ◌∷◌, Option, none,
  some, attempts, In, In-append_left, In-append_right, In-map,
}
use sluice_gate_telemetery_i.Event.{Event, PoisonedEvent, Error}
use sluice_gate_telemetery_i.Retry.{
  Loop, finished, gave_up, last_err, retry, retry_finished, retry_keeps, retry_no_err,
}
use sluice_gate_telemetery_i.Sink.Timescale.{
  Database, TimescaleSink, row_of, World, settle, insert_rows, insert_one, copy_batch, store_batch,
  flush, drain_buffer,
}

-- Set aside with the error of its last attempt.
abbrev pub IsPoisoned : Event → List PoisonedEvent → Type 0
IsPoisoned e ps = (x : Error) × In (record { event = e; cause = x }) ps

module _ (d : Database) where
  abbrev pub IsStored : Event → d.State → Type 0
  IsStored e db = d.Stored db (row_of e)

  abbrev pub Accounted : World d → Event → Type 0
  Accounted w e = IsStored e w.1 ⊎ IsPoisoned e w.0.poisoned

  pub insert_keeps :
      (n : ℕ) (e f : Event) (db : d.State)
      → IsStored f db
      → IsStored f (retry n (insert_one d e) db none).0
  unfolding insert_one
  insert_keeps n e f db h =
      retry_keeps (IsStored f) (insert_one d e) (λ s. d.insert_keeps (row_of e) (row_of f) s) n db
        none h

  settle-IsPoisoned :
      (e f : Event) (s : TimescaleSink) (o : Option Error)
      → IsPoisoned f s.poisoned
      → IsPoisoned f (settle e s o).poisoned
  unfolding settle
  settle-IsPoisoned e f s none h = h
  settle-IsPoisoned e f s (some x) h = (h.0, In-append_left _ s.poisoned _ h.1)

  pub insert_rows-keeps :
      (es : List Event) (w : World d) (f : Event) → Accounted w f → Accounted (insert_rows d es w) f
  unfolding insert_rows
  insert_rows-keeps [] w f a = a
  insert_rows-keeps (e ∷ es) (s, db) f (inl h) =
      insert_rows-keeps es _ f (inl (insert_keeps (attempts s.max_retries) e f db h))
  insert_rows-keeps (e ∷ es) (s, db) f (inr h) =
      insert_rows-keeps es _ f (inr (settle-IsPoisoned e f s _ h))

  settle-accounts :
      (n : ℕ) (e : Event) (s : TimescaleSink) (db : d.State)
      → (o : Option Error) → last_err (retry (suc n) (insert_one d e) db none).1 ≡ o
      → Accounted (settle e s o, (retry (suc n) (insert_one d e) db none).0) e
  unfolding settle insert_one
  settle-accounts n e s db none h = inl (
      retry_finished (IsStored e) (insert_one d e) (d.insert_ok (row_of e)) (suc n) db none
        (retry_no_err (insert_one d e) n db h))
  settle-accounts n e s db (some x) h = inr (x, In-append_right _ s.poisoned _ (inl refl))

  pub settle_fields :
      (e : Event) (s : TimescaleSink) (o : Option Error)
      → ((settle e s o).max_retries ≡ s.max_retries) × ((settle e s o).buffer ≡ s.buffer)
  unfolding settle
  settle_fields e s none = (refl, refl)
  settle_fields e s (some x) = (refl, refl)

  insert_rows-accounts :
      (n : ℕ) (es : List Event) (s : TimescaleSink) (db : d.State) (f : Event)
      → s.max_retries ≡ pos n
      → In f es
      → Accounted (insert_rows d es (s, db)) f
  unfolding insert_rows
  insert_rows-accounts n [] s db f m h = elim h [ ]
  insert_rows-accounts n (e ∷ es) s db f m (inl h) =
      insert_rows-keeps es _ f (rw h (subst one_row (sym (ap attempts m)) first))
    where
      one_row : ℕ → Type 0
      one_row k =
          let r = retry k (insert_one d e) db none in Accounted (settle e s (last_err r.1), r.0) e

      first : one_row (suc n)
      first = settle-accounts n e s db _ refl
  insert_rows-accounts n (e ∷ es) s db f m (inr h) =
      insert_rows-accounts n es _ _ f ((settle_fields e s _).0 ∙ m) h

  copied :
      (n : ℕ) (es : List Event) (db : d.State) (f : Event)
      → (retry n (copy_batch d es) db none).1 ≡ finished
      → In f es
      → IsStored f (retry n (copy_batch d es) db none).0
  unfolding copy_batch
  copied n es db f h m =
      retry_finished (IsStored f) (copy_batch d es)
        (λ s k. d.copy_ok _ s (row_of f) k (In-map row_of f es m)) n db none h

  -- The batch e ∷ es after the loop of whole-batch attempts ended in l.
  store_loop-accounts :
      (n : ℕ) (es : List Event) (s : TimescaleSink) (db : d.State) (f : Event)
      → s.max_retries ≡ pos n
      → In f es
      → (l : Loop) → (retry (attempts s.max_retries) (copy_batch d es) db none).1 ≡ l
      → Accounted (store_batch d es (s, db)) f
  unfolding store_batch
  store_loop-accounts n [] s db f m h l e = elim h [ ]
  store_loop-accounts n (x ∷ es) s db f m h finished e =
      rw (e, store_batch) (inl (copied (attempts s.max_retries) (x ∷ es) db f e h))
  store_loop-accounts n (x ∷ es) s db f m h (gave_up o) e =
      rw (e, store_batch) (insert_rows-accounts n (x ∷ es) s _ f m h)

  pub store_batch-accounts :
      (n : ℕ) (es : List Event) (s : TimescaleSink) (db : d.State) (f : Event)
      → s.max_retries ≡ pos n
      → In f es
      → Accounted (store_batch d es (s, db)) f
  store_batch-accounts n es s db f m h = store_loop-accounts n es s db f m h _ refl

  -- With `maxRetries` not negative, a flush leaves no event of the buffer unaccounted for: each is in
  -- the table (under its key and time) or set aside as poisoned, however often the database fails.
  pub flush-accounts :
      (n : ℕ) (s : TimescaleSink) (db : d.State) (e : Event)
      → s.max_retries ≡ pos n
      → In e s.buffer
      → Accounted (flush d (s, db)).0 e
  unfolding flush
  flush-accounts n s db e m h = store_batch-accounts n s.buffer (record s { buffer = [] }) db e m h

  insert_rows-buffer :
      (es : List Event) (s : TimescaleSink) (db : d.State)
      → (insert_rows d es (s, db)).0.buffer ≡ s.buffer
  unfolding insert_rows
  insert_rows-buffer [] s db = refl
  insert_rows-buffer (e ∷ es) s db = insert_rows-buffer es _ _ ∙ (settle_fields e s _).1

  store_loop-buffer :
      (es : List Event) (s : TimescaleSink) (db : d.State) (l : Loop)
      → (retry (attempts s.max_retries) (copy_batch d es) db none).1 ≡ l
      → (store_batch d es (s, db)).0.buffer ≡ s.buffer
  unfolding store_batch
  store_loop-buffer [] s db l e = refl
  store_loop-buffer (x ∷ es) s db finished e = rw (e, store_batch)
  store_loop-buffer (x ∷ es) s db (gave_up o) e =
      rw (e, store_batch) (insert_rows-buffer (x ∷ es) s _)

  pub flush-buffer : (s : TimescaleSink) (db : d.State) → (flush d (s, db)).0.0.buffer ≡ []
  unfolding flush drain_buffer
  flush-buffer s db = store_loop-buffer s.buffer (record s { buffer = [] }) db _ refl

  -- While the database fails every call, a flush reports success all the same, and no event of it
  -- waits in the buffer for the next flush: each one has been set aside as poisoned.
  pub flush_outage :
      (n : ℕ) (s : TimescaleSink) (db : d.State)
      → s.max_retries ≡ pos n
      → ((e : Event) (db' : d.State) → ¬ IsStored e db')
      → ((flush d (s, db)).1 ≡ none)
        × ((flush d (s, db)).0.0.buffer ≡ [])
        × ((e : Event) → In e s.buffer → IsPoisoned e (flush d (s, db)).0.0.poisoned)
  unfolding flush
  flush_outage n s db m down = (refl, flush-buffer s db, set_aside)
    where
      set_aside : (e : Event) → In e s.buffer → IsPoisoned e (flush d (s, db)).0.0.poisoned
      set_aside e h = elim (flush-accounts n s db e m h) [
        | inl stored ↦ absurd (down e _ stored)
        | inr poisoned ↦ poisoned
      ]

  -- The sink s with a negative limit.
  limited : TimescaleSink → ℕ → TimescaleSink
  limited s k = record s { max_retries = negsuc k }

  insert_rows_none :
      (k : ℕ) (es : List Event) (s : TimescaleSink) (db : d.State)
      → insert_rows d es (limited s k, db) ≡ (limited s k, db)
  unfolding insert_rows retry settle limited
  insert_rows_none k [] s db = refl
  insert_rows_none k (e ∷ es) s db = insert_rows_none k es s db

  store_none :
      (k : ℕ) (es : List Event) (s : TimescaleSink) (db : d.State)
      → store_batch d es (limited s k, db) ≡ (limited s k, db)
  unfolding store_batch retry limited
  store_none k [] s db = refl
  store_none k (x ∷ es) s db = insert_rows_none k (x ∷ es) s db

  -- With `maxRetries` below zero no loop makes an attempt: a flush reports success, stores nothing,
  -- sets nothing aside and has lost the buffer.
  pub flush_negative_retries :
      (k : ℕ) (s : TimescaleSink) (db : d.State)
      → s.max_retries ≡ negsuc k
      → flush d (s, db) ≡ ((record s { buffer = [] }, db), none)
  unfolding flush drain_buffer limited
  flush_negative_retries k s db m =
      subst
        (λ r.
          flush d (record s { max_retries = r }, db)
          ≡ ((record s { max_retries = r; buffer = [] }, db), none))
        (sym m) (ap (λ w. (w, none)) (store_none k s.buffer (record s { buffer = [] }) db))

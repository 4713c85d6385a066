-- ===== src/Sink/Timescale/Ticker/Progress.antt =====
-- What one step of a flush (internal/sink/timescale.go) does with the events in its hands.
use sluice_gate_telemetery_i.Base.{
  ℕ, zero, suc, ℤ, pos, ◌≡◌, refl, sym, ap, subst, ◌⊎◌, inl, inr, List, [], ◌∷◌, Option, none, some,
  attempts, Option-cases, In, In-append_left, In-append_right, In-map, arith,
}
use sluice_gate_telemetery_i.Event.{Event, Error}
use sluice_gate_telemetery_i.Sink.Timescale.{
  Database, TimescaleSink, row_of, World, mark_poisoned, settle, insert_one, copy_batch,
  drain_buffer,
}
use sluice_gate_telemetery_i.Sink.Timescale.Flush.{Accounted}
use sluice_gate_telemetery_i.Sink.Timescale.Ticker.{
  Flushing, idle, copying, inserting, begin, advance,
}

-- In the hands of a goroutine that flushes.
abbrev pub Pending : Event → Flushing → Type 0
Pending e idle = ⊥
Pending e (copying k es) = In e es
Pending e (inserting k x es) = In e es

-- A row loop that has no attempt left has seen an error.
abbrev pub IsTried : Flushing → Type 0
IsTried idle = Unit {0}
IsTried (copying k es) = Unit {0}
IsTried (inserting zero none es) = ⊥
IsTried (inserting zero (some x) es) = Unit {0}
IsTried (inserting (suc k) x es) = Unit {0}

pub begin-Pending : (s : TimescaleSink) (e : Event) → In e s.buffer → Pending e (begin s).1
unfolding begin drain_buffer
begin-Pending s e h = by_buffer s.buffer h
  where
    by_buffer :
        (b : List Event)
        → In e b
        → Pending e (elim b [ [] ↦ idle | x ∷ xs ↦ copying (attempts s.max_retries) (x ∷ xs) ])
    by_buffer [] k = k
    by_buffer (x ∷ xs) k = k

pub begin-IsTried : (s : TimescaleSink) → IsTried (begin s).1
unfolding begin drain_buffer
begin-IsTried s = by_buffer s.buffer
  where
    by_buffer :
        (b : List Event)
        → IsTried (elim b [ [] ↦ idle | x ∷ xs ↦ copying (attempts s.max_retries) (x ∷ xs) ])
    by_buffer [] = tt
    by_buffer (x ∷ xs) = tt

fresh-IsTried :
    (n : ℕ) (r : ℤ) (es : List Event) → r ≡ pos n → IsTried (inserting (attempts r) none es)
fresh-IsTried n r es m = subst (λ z. IsTried (inserting (attempts z) none es)) (sym m) tt

failed-IsTried : (k : ℕ) (x : Error) (es : List Event) → IsTried (inserting k (some x) es)
failed-IsTried zero x es = tt
failed-IsTried (suc k) x es = tt

module _ (d : Database) where
  pub advance-Accounted :
      (w : World d) (f : Flushing) (e : Event) → Accounted d w e → Accounted d (advance d w f).0 e
  unfolding advance copy_batch insert_one settle mark_poisoned
  advance-Accounted w idle e a = a
  advance-Accounted (s, db) (copying zero es) e a = a
  advance-Accounted (s, db) (copying (suc k) es) e (inl h) = inl (d.copy_keeps _ db (row_of e) h)
  advance-Accounted (s, db) (copying (suc k) es) e (inr h) = inr h
  advance-Accounted w (inserting k x []) e a = a
  advance-Accounted (s, db) (inserting zero none (y ∷ es)) e a = a
  advance-Accounted (s, db) (inserting zero (some x) (y ∷ es)) e (inl h) = inl h
  advance-Accounted (s, db) (inserting zero (some x) (y ∷ es)) e (inr h) =
      inr (h.0, In-append_left _ s.poisoned _ h.1)
  advance-Accounted (s, db) (inserting (suc k) x (y ∷ es)) e (inl h) =
      inl (d.insert_keeps (row_of y) (row_of e) db h)
  advance-Accounted (s, db) (inserting (suc k) x (y ∷ es)) e (inr h) = inr h

  abbrev pub Progress : World d × Flushing → Event → Type 0
  Progress r e = Pending e r.1 ⊎ Accounted d r.0 e

  pub advance-Pending :
      (w : World d) (f : Flushing) (e : Event)
      → IsTried f
      → Pending e f
      → Progress (advance d w f) e
  unfolding advance copy_batch insert_one settle mark_poisoned
  advance-Pending w idle e t p = elim p [ ]
  advance-Pending (s, db) (copying zero es) e t p = inl p
  advance-Pending (s, db) (copying (suc k) es) e t p = elim (Option-cases (copy_batch d es db).1) [
    | inl done ↦
        rw (done, advance) (inr (inl (d.copy_ok _ db (row_of e) done (In-map row_of e es p))))
    | inr (x, bad) ↦ rw (bad, advance) (inl p)
  ]
  advance-Pending w (inserting k x []) e t p = elim p [ ]
  advance-Pending (s, db) (inserting zero none (y ∷ es)) e t p = elim t [ ]
  advance-Pending (s, db) (inserting zero (some x) (y ∷ es)) e t (inl h) =
      inr (
        inr (x, In-append_right _ s.poisoned _ (inl (ap (λ z. record { event = z; cause = x }) h))))
  advance-Pending (s, db) (inserting zero (some x) (y ∷ es)) e t (inr h) = inl h
  advance-Pending (s, db) (inserting (suc k) x (y ∷ es)) e t p =
      elim (Option-cases (insert_one d y db).1) [
        | inl done ↦ rw (done, advance) (by_place done p)
        | inr (z, bad) ↦ rw (bad, advance) (inl p)
      ]
    where
      by_place :
          (insert_one d y db).1 ≡ none
          → In e (y ∷ es)
          → In e es ⊎ Accounted d (s, (insert_one d y db).0) e
      by_place done (inl h) = inr (inl (rw h (d.insert_ok (row_of y) db done)))
      by_place done (inr h) = inl h

  pub advance-IsTried :
      (n : ℕ) (s : TimescaleSink) (db : d.State) (f : Flushing)
      → s.max_retries ≡ pos n
      → IsTried f
      → IsTried (advance d (s, db) f).1
  unfolding advance
  advance-IsTried n s db idle m t = t
  advance-IsTried n s db (copying zero es) m t = fresh-IsTried n _ es m
  advance-IsTried n s db (copying (suc k) es) m t = ground arith
  advance-IsTried n s db (inserting k x []) m t = tt
  advance-IsTried n s db (inserting zero x (e ∷ es)) m t = fresh-IsTried n _ es m
  advance-IsTried n s db (inserting (suc k) x (e ∷ es)) m t = by_result (insert_one d e db).1
    where
      by_result :
          (o : Option Error)
          → IsTried (elim o [
            | none ↦ inserting (attempts s.max_retries) none es
            | some y ↦ inserting k (some y) (e ∷ es)
          ])
      by_result none = fresh-IsTried n s.max_retries es m
      by_result (some y) = failed-IsTried k y (e ∷ es)

  pub advance_fields :
      (s : TimescaleSink) (db : d.State) (f : Flushing)
      → ((advance d (s, db) f).0.0.max_retries ≡ s.max_retries)
        × ((advance d (s, db) f).0.0.buffer ≡ s.buffer)
  unfolding advance settle mark_poisoned
  advance_fields s db idle = (refl, refl)
  advance_fields s db (copying zero es) = (refl, refl)
  advance_fields s db (copying (suc k) es) = (refl, refl)
  advance_fields s db (inserting k x []) = (refl, refl)
  advance_fields s db (inserting zero none (e ∷ es)) = (refl, refl)
  advance_fields s db (inserting zero (some x) (e ∷ es)) = (refl, refl)
  advance_fields s db (inserting (suc k) x (e ∷ es)) = (refl, refl)

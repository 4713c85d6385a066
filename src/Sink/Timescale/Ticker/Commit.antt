-- ===== src/Sink/Timescale/Ticker/Commit.antt =====
-- What a commit of the consumer covers, with and without the flushes of `tickerLoop`
-- (internal/sink/timescale.go, internal/consumer/consumer.go).
use sluice_gate_telemetery_i.Base.{
  ℕ, ℤ, pos, ◌≡◌, refl, sym, subst, ◌∙◌, ◌⊎◌, inl, inr, List, [], ◌∷◌, ◌++◌, Bool, true, false,
  if◌then◌else◌, In, In-append_left, In-append_right,
}
use sluice_gate_telemetery_i.Event.{Event}
use sluice_gate_telemetery_i.Sink.Timescale.{
  Database, TimescaleSink, drain_buffer, drain_poisoned, new_timescale_sink,
}
use sluice_gate_telemetery_i.Sink.Timescale.Flush.{IsPoisoned, Accounted}
use sluice_gate_telemetery_i.Sink.Timescale.Ticker.{
  Flushing, idle, begin, advance, System, Move, put, consumer_begin, consumer_step, ticker_begin,
  ticker_step, report, commit, put_event, begin_consumer, report_poisoned, commit_offsets, step,
  run, start, when_idle-elim,
}
use sluice_gate_telemetery_i.Sink.Timescale.Ticker.Progress.{
  Pending, advance-Accounted, advance_fields,
}
use sluice_gate_telemetery_i.Sink.Timescale.Ticker.Kept.{
  Whereabouts, buffered, with_consumer, with_ticker, accounted, handed_over, Inv, start-Inv,
}
use sluice_gate_telemetery_i.Sink.Timescale.Ticker.Accounts.{step-Inv}

-- A history in which the ticker does not fire.
abbrev pub NoTicker : List Move → Type 0
NoTicker [] = Unit
NoTicker (put e ∷ ms) = NoTicker ms
NoTicker (consumer_begin ∷ ms) = NoTicker ms
NoTicker (consumer_step ∷ ms) = NoTicker ms
NoTicker (ticker_begin ∷ ms) = ⊥
NoTicker (ticker_step ∷ ms) = NoTicker ms
NoTicker (report ∷ ms) = NoTicker ms
NoTicker (commit ∷ ms) = NoTicker ms

module _ (d : Database) where
  -- In the table, or set aside as poisoned (and perhaps handed over since).
  abbrev pub Settled : System d → Event → Type 0
  Settled s e = Accounted d s.world e ⊎ IsPoisoned e s.reported

  pub record IsSafe (s : System d) : Type 0 where
    pub quiet : s.ticker ≡ idle
    pub drained : s.flushed ≡ true → s.world.0.buffer ≡ []
    pub settled : (e : Event) → In e s.committed → Settled s e

  -- With the ticker quiet, an idle consumer behind a flush has left nothing unsettled.
  flushed-Settled :
      (n : ℕ) (s : System d) (e : Event)
      → Inv d n s
      → IsSafe s
      → s.consumer ≡ idle
      → s.flushed ≡ true
      → In e s.written
      → Settled s e
  flushed-Settled n s e v q i f h = by_place (v.found e h)
    where
      by_place : Whereabouts d s e → Settled s e
      by_place (buffered k) = absurd (subst (In e) (q.drained f) k)
      by_place (with_consumer k) = absurd (subst (Pending e) i k)
      by_place (with_ticker k) = absurd (subst (Pending e) q.quiet k)
      by_place (accounted a) = inl a
      by_place (handed_over k) = inr k

  put-IsSafe : (s : System d) (e : Event) → IsSafe s → IsSafe (put_event d e s)
  unfolding put_event
  put-IsSafe s e q =
      when_idle-elim IsSafe s.consumer _ s
        (λ _. record { quiet = q.quiet; drained = λ f. cc; settled = q.settled }) q

  begin-IsSafe : (s : System d) → IsSafe s → IsSafe (begin_consumer d s)
  unfolding begin_consumer begin drain_buffer
  begin-IsSafe s q =
      when_idle-elim IsSafe s.consumer _ s
        (λ _. record { quiet = q.quiet; drained = λ _. refl; settled = q.settled }) q

  consumer_step-IsSafe : (s : System d) → IsSafe s → IsSafe (step d s consumer_step)
  unfolding step
  consumer_step-IsSafe s q = record {
    quiet = q.quiet;
    drained = λ f. (advance_fields d s.world.0 s.world.1 s.consumer).1 ∙ q.drained f;
    settled = λ e h. moved e (q.settled e h);
  }
    where
      moved : (e : Event) → Settled s e → Settled (step d s consumer_step) e
      moved e (inl a) = inl (advance-Accounted d s.world s.consumer e a)
      moved e (inr h) = inr h

  ticker_step-IsSafe : (s : System d) → IsSafe s → IsSafe (step d s ticker_step)
  unfolding step advance
  ticker_step-IsSafe s q =
      subst (λ f. IsSafe (after f)) (sym q.quiet)
        (record { quiet = refl; drained = q.drained; settled = q.settled })
    where
      after : Flushing → System d
      after f = record s { world = (advance d s.world f).0; ticker = (advance d s.world f).1 }

  report-IsSafe : (s : System d) → IsSafe s → IsSafe (report_poisoned d s)
  unfolding report_poisoned drain_poisoned
  report-IsSafe s q =
      when_idle-elim IsSafe s.consumer _ s
        (λ _. record {
          quiet = q.quiet;
          drained = q.drained;
          settled = λ e h. moved e (q.settled e h);
        })
        q
    where
      after : System d
      after = record s {
        world = (drain_poisoned d s.world).0;
        reported = s.reported ++ (drain_poisoned d s.world).1;
      }

      moved : (e : Event) → Settled s e → Settled after e
      moved e (inl (inl h)) = inl (inl h)
      moved e (inl (inr h)) = inr (h.0, In-append_right _ s.reported _ h.1)
      moved e (inr h) = inr (h.0, In-append_left _ s.reported _ h.1)

  commit-IsSafe : (n : ℕ) (s : System d) → Inv d n s → IsSafe s → IsSafe (commit_offsets d s)
  unfolding commit_offsets
  commit-IsSafe n s v q = when_idle-elim IsSafe s.consumer _ s (λ i. by_flag i s.flushed refl) q
    where
      by_flag :
          s.consumer ≡ idle
          → (b : Bool) → s.flushed ≡ b
          → IsSafe (if b then record s { committed = s.written } else s)
      by_flag i true f = record {
        quiet = q.quiet;
        drained = q.drained;
        settled = λ e h. flushed-Settled n s e v q i f h;
      }
      by_flag i false f = q

  step-IsSafe :
      (n : ℕ) (s : System d) (m : Move) (ms : List Move)
      → NoTicker (m ∷ ms)
      → Inv d n s
      → IsSafe s
      → IsSafe (step d s m) × NoTicker ms
  unfolding step
  step-IsSafe n s (put e) ms t v q = (put-IsSafe s e q, t)
  step-IsSafe n s consumer_begin ms t v q = (begin-IsSafe s q, t)
  step-IsSafe n s consumer_step ms t v q = (consumer_step-IsSafe s q, t)
  step-IsSafe n s ticker_begin ms t v q = elim t [ ]
  step-IsSafe n s ticker_step ms t v q = (ticker_step-IsSafe s q, t)
  step-IsSafe n s report ms t v q = (report-IsSafe s q, t)
  step-IsSafe n s commit ms t v q = (commit-IsSafe n s v q, t)

  run-IsSafe :
      (n : ℕ) (s : System d) (ms : List Move)
      → NoTicker ms
      → Inv d n s
      → IsSafe s
      → IsSafe (run d s ms)
  unfolding run
  run-IsSafe n s [] t v q = q
  run-IsSafe n s (m ∷ ms) t v q =
      let next = step-IsSafe n s m ms t v q in
      run-IsSafe n (step d s m) ms next.1 (step-Inv d n s m v) next.0

  -- While the ticker does not fire, and `maxRetries` is not negative, every event that a commit covers
  -- is in the table or has been set aside as poisoned (and perhaps handed over since).
  pub commit-Settled :
      (n : ℕ) (s : TimescaleSink) (db : d.State) (ms : List Move) (e : Event)
      → s.max_retries ≡ pos n
      → NoTicker ms
      → In e (run d (start d s db) ms).committed
      → Settled (run d (start d s db) ms) e
  commit-Settled n s db ms e m t h =
      (run-IsSafe n (start d s db) ms t (start-Inv d n s db m) initial).settled e h
    where
      initial : IsSafe (start d s db)
      initial = record { quiet = refl; drained = λ f. cc; settled = λ e' k. absurd k }

  -- With the ticker, a commit can cover an event that neither the table nor the poisoned list holds:
  -- the ticker has drained it and has not called the database yet, and the consumer's flush found the
  -- buffer empty. Whatever the limits, the database and the event, four steps lead there.
  pub commit_overtakes_ticker :
      (batch_size max_retries : ℤ) (db : d.State) (e : Event)
      → let new = new_timescale_sink batch_size max_retries in
        let s = run d (start d new db) (put e ∷ ticker_begin ∷ consumer_begin ∷ commit ∷ []) in
        (s.committed ≡ e ∷ [])
        × (s.world ≡ (new, db))
        × (s.consumer ≡ idle)
        × (s.reported ≡ [])
        × Pending e s.ticker
  unfolding run step begin new_timescale_sink
  commit_overtakes_ticker batch_size max_retries db e = (refl, refl, refl, refl, inl refl)

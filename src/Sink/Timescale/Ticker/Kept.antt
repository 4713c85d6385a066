-- ===== src/Sink/Timescale/Ticker/Kept.antt =====
-- No move of the consumer or of tickerLoop (internal/sink/timescale.go) loses an event.
use sluice_gate_telemetery_i.Base.{
  ℕ, pos, ◌≡◌, sym, subst, ◌∙◌, ◌⊎◌, inl, inr, [], ◌∷◌, ◌++◌, In, In-append_left, In-append_right,
  In-split, Bool, true, false, if◌then◌else◌,
}
use sluice_gate_telemetery_i.Event.{Event}
use sluice_gate_telemetery_i.Sink.Timescale.{Database, TimescaleSink, drain_buffer, drain_poisoned}
use sluice_gate_telemetery_i.Sink.Timescale.Flush.{IsPoisoned, Accounted}
use sluice_gate_telemetery_i.Sink.Timescale.Ticker.Progress.{
  Pending, IsTried, begin-Pending, begin-IsTried, advance-Accounted, advance-Pending,
  advance-IsTried, advance_fields,
}
use sluice_gate_telemetery_i.Sink.Timescale.Ticker.{
  idle, begin, System, consumer_step, ticker_step, put_event, begin_consumer, begin_ticker,
  report_poisoned, commit_offsets, step, start, when_idle-elim,
}

module _ (d : Database) where
  -- Where an event that was written can be.
  pub data Whereabouts (s : System d) (e : Event) : Type 0 where
    buffered : In e s.world.0.buffer → Whereabouts s e
    with_consumer : Pending e s.consumer → Whereabouts s e
    with_ticker : Pending e s.ticker → Whereabouts s e
    accounted : Accounted d s.world e → Whereabouts s e
    handed_over : IsPoisoned e s.reported → Whereabouts s e

  pub record Inv (n : ℕ) (s : System d) : Type 0 where
    pub limit : s.world.0.max_retries ≡ pos n
    pub consumer_tried : IsTried s.consumer
    pub ticker_tried : IsTried s.ticker
    pub found : (e : Event) → In e s.written → Whereabouts s e

  pub start-Inv :
      (n : ℕ) (s : TimescaleSink) (db : d.State) → s.max_retries ≡ pos n → Inv n (start d s db)
  start-Inv n s db m = record {
    limit = m;
    consumer_tried = tt;
    ticker_tried = tt;
    found = λ e h. absurd h;
  }

  -- The steps of the two goroutines inside a flush.
  pub consumer_step-Inv : (n : ℕ) (s : System d) → Inv n s → Inv n (step d s consumer_step)
  unfolding step
  consumer_step-Inv n s v = record {
    limit = (advance_fields d s.world.0 s.world.1 s.consumer).0 ∙ v.limit;
    consumer_tried = advance-IsTried d n s.world.0 s.world.1 s.consumer v.limit v.consumer_tried;
    ticker_tried = v.ticker_tried;
    found = λ e h. moved e (v.found e h);
  }
    where
      moved : (e : Event) → Whereabouts s e → Whereabouts (step d s consumer_step) e
      moved e (buffered h) =
          buffered (subst (In e) (sym (advance_fields d s.world.0 s.world.1 s.consumer).1) h)
      moved e (with_consumer h) = elim (advance-Pending d s.world s.consumer e v.consumer_tried h) [
        | inl p ↦ with_consumer p
        | inr a ↦ accounted a
      ]
      moved e (with_ticker h) = with_ticker h
      moved e (accounted a) = accounted (advance-Accounted d s.world s.consumer e a)
      moved e (handed_over h) = handed_over h

  pub ticker_step-Inv : (n : ℕ) (s : System d) → Inv n s → Inv n (step d s ticker_step)
  unfolding step
  ticker_step-Inv n s v = record {
    limit = (advance_fields d s.world.0 s.world.1 s.ticker).0 ∙ v.limit;
    consumer_tried = v.consumer_tried;
    ticker_tried = advance-IsTried d n s.world.0 s.world.1 s.ticker v.limit v.ticker_tried;
    found = λ e h. moved e (v.found e h);
  }
    where
      moved : (e : Event) → Whereabouts s e → Whereabouts (step d s ticker_step) e
      moved e (buffered h) =
          buffered (subst (In e) (sym (advance_fields d s.world.0 s.world.1 s.ticker).1) h)
      moved e (with_consumer h) = with_consumer h
      moved e (with_ticker h) = elim (advance-Pending d s.world s.ticker e v.ticker_tried h) [
        | inl p ↦ with_ticker p
        | inr a ↦ accounted a
      ]
      moved e (accounted a) = accounted (advance-Accounted d s.world s.ticker e a)
      moved e (handed_over h) = handed_over h

  pub put-Inv : (n : ℕ) (s : System d) (e : Event) → Inv n s → Inv n (put_event d e s)
  unfolding put_event
  put-Inv n s e v =
      when_idle-elim (Inv n) s.consumer _ s
        (λ _. record {
          limit = v.limit;
          consumer_tried = v.consumer_tried;
          ticker_tried = v.ticker_tried;
          found = λ f h. added f (In-split f s.written (e ∷ []) h);
        })
        v
    where
      after : System d
      after = record s {
        world = (record (s.world.0) { buffer = s.world.0.buffer ++ e ∷ [] }, s.world.1);
        written = s.written ++ e ∷ [];
        flushed = false;
      }

      kept : (f : Event) → Whereabouts s f → Whereabouts after f
      kept f (buffered h) = buffered (In-append_left f s.world.0.buffer _ h)
      kept f (with_consumer h) = with_consumer h
      kept f (with_ticker h) = with_ticker h
      kept f (accounted a) = accounted a
      kept f (handed_over h) = handed_over h

      added : (f : Event) → In f s.written ⊎ In f (e ∷ []) → Whereabouts after f
      added f (inl old) = kept f (v.found f old)
      added f (inr new) = buffered (In-append_right f s.world.0.buffer _ new)

  pub begin_consumer-Inv : (n : ℕ) (s : System d) → Inv n s → Inv n (begin_consumer d s)
  unfolding begin_consumer begin drain_buffer
  begin_consumer-Inv n s v =
      when_idle-elim (Inv n) s.consumer _ s
        (λ i. record {
          limit = v.limit;
          consumer_tried = begin-IsTried s.world.0;
          ticker_tried = v.ticker_tried;
          found = λ e h. moved i e (v.found e h);
        })
        v
    where
      after : System d
      after = record s {
        world = ((begin s.world.0).0, s.world.1);
        consumer = (begin s.world.0).1;
        flushed = true;
      }

      moved : s.consumer ≡ idle → (e : Event) → Whereabouts s e → Whereabouts after e
      moved i e (buffered h) = with_consumer (begin-Pending s.world.0 e h)
      moved i e (with_consumer h) = absurd (subst (Pending e) i h)
      moved i e (with_ticker h) = with_ticker h
      moved i e (accounted a) = accounted a
      moved i e (handed_over h) = handed_over h

  pub begin_ticker-Inv : (n : ℕ) (s : System d) → Inv n s → Inv n (begin_ticker d s)
  unfolding begin_ticker begin drain_buffer
  begin_ticker-Inv n s v =
      when_idle-elim (Inv n) s.ticker _ s
        (λ i. record {
          limit = v.limit;
          consumer_tried = v.consumer_tried;
          ticker_tried = begin-IsTried s.world.0;
          found = λ e h. moved i e (v.found e h);
        })
        v
    where
      after : System d
      after = record s { world = ((begin s.world.0).0, s.world.1); ticker = (begin s.world.0).1 }

      moved : s.ticker ≡ idle → (e : Event) → Whereabouts s e → Whereabouts after e
      moved i e (buffered h) = with_ticker (begin-Pending s.world.0 e h)
      moved i e (with_consumer h) = with_consumer h
      moved i e (with_ticker h) = absurd (subst (Pending e) i h)
      moved i e (accounted a) = accounted a
      moved i e (handed_over h) = handed_over h

  pub report-Inv : (n : ℕ) (s : System d) → Inv n s → Inv n (report_poisoned d s)
  unfolding report_poisoned drain_poisoned
  report-Inv n s v =
      when_idle-elim (Inv n) s.consumer _ s
        (λ _. record {
          limit = v.limit;
          consumer_tried = v.consumer_tried;
          ticker_tried = v.ticker_tried;
          found = λ e h. moved e (v.found e h);
        })
        v
    where
      after : System d
      after = record s {
        world = (drain_poisoned d s.world).0;
        reported = s.reported ++ (drain_poisoned d s.world).1;
      }

      moved : (e : Event) → Whereabouts s e → Whereabouts after e
      moved e (buffered h) = buffered h
      moved e (with_consumer h) = with_consumer h
      moved e (with_ticker h) = with_ticker h
      moved e (accounted (inl h)) = accounted (inl h)
      moved e (accounted (inr h)) = handed_over (h.0, In-append_right _ s.reported _ h.1)
      moved e (handed_over h) = handed_over (h.0, In-append_left _ s.reported _ h.1)

  pub commit-Inv : (n : ℕ) (s : System d) → Inv n s → Inv n (commit_offsets d s)
  unfolding commit_offsets
  commit-Inv n s v = when_idle-elim (Inv n) s.consumer _ s (λ _. by_flag s.flushed) v
    where
      moved : (e : Event) → Whereabouts s e → Whereabouts (record s { committed = s.written }) e
      moved e (buffered h) = buffered h
      moved e (with_consumer h) = with_consumer h
      moved e (with_ticker h) = with_ticker h
      moved e (accounted a) = accounted a
      moved e (handed_over h) = handed_over h

      by_flag : (b : Bool) → Inv n (if b then record s { committed = s.written } else s)
      by_flag true = record {
        limit = v.limit;
        consumer_tried = v.consumer_tried;
        ticker_tried = v.ticker_tried;
        found = λ e h. moved e (v.found e h);
      }
      by_flag false = v

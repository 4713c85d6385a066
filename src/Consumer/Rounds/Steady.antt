-- ===== src/Consumer/Rounds/Steady.antt =====
-- What a round of internal/consumer/consumer.go, its flush failing or not, leaves standing.
use sluice_gate_telemetery_i.Base.{
  ◌≡◌, refl, sym, subst, ◌⊎◌, inl, inr, List, Option, none, some, Option-cases,
}
use sluice_gate_telemetery_i.Event.{Event, PoisonedEvent, Error}
use sluice_gate_telemetery_i.Sink.{Sink}
use sluice_gate_telemetery_i.Dlq.{Letter, letter_record}
use sluice_gate_telemetery_i.Consumer.{Env, Consumer, say, flush_error, inc_if, handle_batch}
use sluice_gate_telemetery_i.Consumer.NoLoss.{
  Durable, Reliable, IsDead, IsDead-Kept, handle_batch-Kept,
}
use sluice_gate_telemetery_i.Consumer.Rounds.{
  flush_sink, poison_letter, send_poisoned, report_poisoned, commit_offsets, finish,
}
use sluice_gate_telemetery_i.Consumer.Rounds.Settled.{
  Settling, IsReported, IsFinal, finish-IsFinal, send_poisoned-sink,
}
use sluice_gate_telemetery_i.Consumer.Rounds.Delivered.{finish-Delivered, flush_sink-dlq}

-- What is stored is held, and a flush, also one with an error, and the hand-over of the poisoned events
-- take nothing from what is held, and leave the sink ready.
pub record Steady {S : Type 0} (k : Sink S) (p : Durable k) (q : Settling k p) : Type 0 where
  pub stored_held : (e : Event) (s : S) → q.Stored s e → p.Holds s e
  pub flush_holds :
      (f : S → S × Option Error) (e : Event) (s : S)
      → k.flusher ≡ some f
      → p.IsReady s
      → p.Holds s e
      → p.Holds (f s).0 e
  pub flush_ready :
      (f : S → S × Option Error) (s : S) → k.flusher ≡ some f → p.IsReady s → p.IsReady (f s).0
  pub drain_ready :
      (g : S → S × List PoisonedEvent) (s : S)
      → k.poison_reporter ≡ some g
      → p.IsReady s
      → p.IsReady (g s).0

module _ (v : Env) (p : Durable v.sink) (q : Settling v.sink p) (h : Reliable v)
    (w : Steady v.sink p q) where
  -- In the sink's hands, or in the dead-letter topic.
  abbrev pub Lasting : Letter → Event → Consumer v → Type 0
  Lasting l e c = p.Holds c.sink e ⊎ IsDead v p l c ⊎ IsReported v p q h e c

  pub IsFinal-Lasting :
      (l : Letter) (e : Event) (c : Consumer v) → IsFinal v p q h l e c → Lasting l e c
  IsFinal-Lasting l e c (inl stored) = inl (w.stored_held e c.sink stored)
  IsFinal-Lasting l e c (inr dead) = inr dead

  pub handle_batch-Lasting :
      (ls : List Letter) (l : Letter) (e : Event) (c : Consumer v)
      → p.IsReady c.sink
      → Lasting l e c
      → Lasting l e (handle_batch v ls c)
  handle_batch-Lasting ls l e c r (inl held) = inl ((handle_batch-Kept v p h ls c).1 e r held)
  handle_batch-Lasting ls l e c r (inr (inl dead)) =
      inr (inl (IsDead-Kept v p l c (handle_batch v ls c) (handle_batch-Kept v p h ls c) dead))
  handle_batch-Lasting ls l e c r (inr (inr (x, dead))) =
      inr (inr (x, IsDead-Kept v p _ c (handle_batch v ls c) (handle_batch-Kept v p h ls c) dead))

  -- Behind a flush without an error all that lasts is there for good.
  pub finish-Final :
      (o : Option Error) (l : Letter) (e : Event) (c : Consumer v)
      → p.IsReady c.sink
      → (flush_sink v c).1 ≡ none
      → Lasting l e c
      → IsFinal v p q h l e (finish v o c)
  finish-Final o l e c r n (inl held) = finish-IsFinal v p q h o l e c r n (inl held)
  finish-Final o l e c r n (inr (inl dead)) = finish-IsFinal v p q h o l e c r n (inr dead)
  finish-Final o l e c r n (inr (inr (x, (y, dead)))) =
      inr (inr (x, (y, finish-Delivered v p o c _ dead)))

  flush_sink-holds :
      (e : Event) (c : Consumer v)
      → p.IsReady c.sink
      → p.Holds c.sink e
      → p.Holds (flush_sink v c).0.sink e
  unfolding flush_sink
  flush_sink-holds e c r k = by_sink v.sink.flusher refl
    where
      by_sink :
          (o : Option (v.SinkState → v.SinkState × Option Error))
          → v.sink.flusher ≡ o
          → p.Holds
              (let c' : Consumer v × Option Error = elim o [
                | none ↦ (c, none)
                | some f ↦ (
                  record c {
                    sink = (f c.sink).0;
                    metrics = record (c.metrics) { flushes = inc_if v.metrics c.metrics.flushes };
                  },
                  (f c.sink).1,
                )
              ] in
                c'.0.sink)
              e
      by_sink none i = k
      by_sink (some f) i = w.flush_holds f e c.sink i r k

  pub flush_sink-IsReady : (c : Consumer v) → p.IsReady c.sink → p.IsReady (flush_sink v c).0.sink
  unfolding flush_sink
  flush_sink-IsReady c r = by_sink v.sink.flusher refl
    where
      by_sink :
          (o : Option (v.SinkState → v.SinkState × Option Error))
          → v.sink.flusher ≡ o
          → p.IsReady (
              let c' : Consumer v × Option Error = elim o [
                | none ↦ (c, none)
                | some f ↦ (
                  record c {
                    sink = (f c.sink).0;
                    metrics = record (c.metrics) { flushes = inc_if v.metrics c.metrics.flushes };
                  },
                  (f c.sink).1,
                )
              ] in
              c'.0.sink)
      by_sink none i = r
      by_sink (some f) i = w.flush_ready f c.sink i r

  flush_sink-IsDead :
      (l : Letter) (c : Consumer v) → IsDead v p l c → IsDead v p l (flush_sink v c).0
  flush_sink-IsDead l c (y, dead) = (
    y,
    subst (λ s. v.broker.Delivered s (letter_record v.dlq_topic l y)) (sym (flush_sink-dlq v p c))
        dead,
  )

  -- A failed flush withholds the commit and keeps what lasts.
  finish-withheld :
      (o : Option Error) (l : Letter) (e : Event) (c : Consumer v) (x : Error)
      → p.IsReady c.sink
      → (flush_sink v c).1 ≡ some x
      → Lasting l e c
      → Lasting l e (say v (flush_error x) (flush_sink v c).0)
  finish-withheld o l e c x r n (inl held) = inl (flush_sink-holds e c r held)
  finish-withheld o l e c x r n (inr (inl (y, dead))) = inr (inl (flush_sink-IsDead l c (y, dead)))
  finish-withheld o l e c x r n (inr (inr (z, (y, dead)))) =
      inr
        (inr (z, flush_sink-IsDead (poison_letter v (record { event = e; cause = z })) c (y, dead)))

  pub finish-Lasting :
      (o : Option Error) (l : Letter) (e : Event) (c : Consumer v)
      → p.IsReady c.sink
      → Lasting l e c
      → Lasting l e (finish v o c)
  unfolding finish
  finish-Lasting o l e c r a = elim (Option-cases (flush_sink v c).1) [
    | inl n ↦ IsFinal-Lasting l e (finish v o c) (finish-Final o l e c r n a)
    | inr (x, n) ↦ rw (n, finish) (finish-withheld o l e c x r n a)
  ]

  report-IsReady : (c : Consumer v) → p.IsReady c.sink → p.IsReady (report_poisoned v c).sink
  unfolding report_poisoned
  report-IsReady c r = by_sink v.sink.poison_reporter refl
    where
      by_sink :
          (o : Option (v.SinkState → v.SinkState × List PoisonedEvent))
          → v.sink.poison_reporter ≡ o
          → p.IsReady (
              let c' : Consumer v = elim o [
                | none ↦ c
                | some g ↦ send_poisoned v (g c.sink).1 (record c { sink = (g c.sink).0 })
              ] in
              c'.sink)
      by_sink none i = r
      by_sink (some g) i =
          subst p.IsReady (sym (send_poisoned-sink v p q h (g c.sink).1 _))
            (w.drain_ready g c.sink i r)

  commit-IsReady :
      (o : Option Error) (c : Consumer v) → p.IsReady c.sink → p.IsReady (commit_offsets v o c).sink
  unfolding commit_offsets
  commit-IsReady none c r = r
  commit-IsReady (some x) c r = r

  pub finish-IsReady :
      (o : Option Error) (c : Consumer v) → p.IsReady c.sink → p.IsReady (finish v o c).sink
  unfolding finish
  finish-IsReady o c r = elim (Option-cases (flush_sink v c).1) [
    | inl n ↦
        rw (n, finish)
          (commit-IsReady o (report_poisoned v (flush_sink v c).0)
            (report-IsReady (flush_sink v c).0 (flush_sink-IsReady c r)))
    | inr (x, n) ↦ rw (n, finish) (flush_sink-IsReady c r)
  ]

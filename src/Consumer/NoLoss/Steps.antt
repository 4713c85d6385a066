-- ===== src/Consumer/NoLoss/Steps.antt =====
-- One record at a time: dead-lettering and persisting (internal/consumer/consumer.go).
use sluice_gate_telemetery_i.Base.{
  ℕ, ◌≡◌, ◌≢◌, List, Bool, true, false, Option, none, some, attempts, if◌then◌else◌,
}
use sluice_gate_telemetery_i.Event.{Event, PoisonedEvent, Error}
use sluice_gate_telemetery_i.Retry.{Loop, last_err, retry, retry_keeps}
use sluice_gate_telemetery_i.Broker.{Record}
use sluice_gate_telemetery_i.Sink.{Sink}
use sluice_gate_telemetery_i.Dlq.{Letter, letter_record, send}
use sluice_gate_telemetery_i.Consumer.{
  Env, Consumer, sink_write_error, no_dlq, dlq_failed, persist_failed, say, count_consumed,
  count_dlq, deliver, send_to_dlq, persist_buffered, persist_retried, persist,
}

-- What a sink promises: an event of a `Write` without error is held, a sink that reports poison holds
-- it whatever `Write` returns, and what is held stays held. `IsReady` is the sink's own invariant.
pub record Durable {S : Type 0} (k : Sink S) : Type 1 where
  pub IsReady : S → Type 0
  pub Holds : S → Event → Type 0
  pub write_ready : (e : Event) (s : S) → IsReady s → IsReady (k.write e s).0
  pub write_ok : (e : Event) (s : S) → IsReady s → (k.write e s).1 ≡ none → Holds (k.write e s).0 e
  pub write_buffered :
      (e : Event) (s : S) → IsReady s → k.poison_reporter ≢ none → Holds (k.write e s).0 e
  pub write_keeps : (f e : Event) (s : S) → IsReady s → Holds s e → Holds (k.write f s).0 e

module _ (v : Env) (p : Durable v.sink) where
  abbrev pub IsHeld : Event → Consumer v → Type 0
  IsHeld e c = p.Holds c.sink e

  -- The dead-letter topic has the record, with some cause.
  abbrev pub IsDead : Letter → Consumer v → Type 0
  IsDead l c = (x : Error) × v.broker.Delivered c.dlq (letter_record v.dlq_topic l x)

  abbrev pub Kept : Consumer v → Consumer v → Type 0
  Kept c c' =
      (p.IsReady c.sink → p.IsReady c'.sink)
      × ((e : Event) → p.IsReady c.sink → p.Holds c.sink e → p.Holds c'.sink e)
      × ((r : Record) → v.broker.Delivered c.dlq r → v.broker.Delivered c'.dlq r)

  pub Kept-trans : (c c' c'' : Consumer v) → Kept c c' → Kept c' c'' → Kept c c''
  Kept-trans c c' c'' (a, b, d) (a', b', d') =
      (λ r. a' (a r), λ e r h. b' e (a r) (b e r h), λ r h. d' r (d r h))

  pub Kept-refl : (c : Consumer v) → Kept c c
  Kept-refl c = (λ r. r, λ e r h. h, λ r h. h)

  pub IsDead-Kept : (l : Letter) (c c' : Consumer v) → Kept c c' → IsDead l c → IsDead l c'
  IsDead-Kept l c c' k d = (d.0, k.2 _ d.1)

  deliver-Kept : (l : Letter) (x : Error) (c : Consumer v) → Kept c (deliver v l x c)
  unfolding deliver count_dlq send
  deliver-Kept l x c = by_result (send v.broker v.dlq_topic l x c.dlq).1
    where
      s : v.broker.State
      s = (send v.broker v.dlq_topic l x c.dlq).0

      kept : (r : Record) → v.broker.Delivered c.dlq r → v.broker.Delivered s r
      kept r h = v.broker.produce_keeps _ r c.dlq h

      by_result :
          (o : Option Error)
          → Kept c (elim o [
            | none ↦ count_dlq v (record c { dlq = s })
            | some y ↦ say v (dlq_failed y) (record c { dlq = s })
          ])
      by_result none = (λ r. r, λ e r h. h, kept)
      by_result (some y) = (λ r. r, λ e r h. h, kept)

  pub send_to_dlq-Kept : (l : Letter) (x : Error) (c : Consumer v) → Kept c (send_to_dlq v l x c)
  unfolding send_to_dlq
  send_to_dlq-Kept l x c = by_config v.dlq
    where
      by_config : (b : Bool) → Kept c (if b then deliver v l x c else say v (no_dlq x) c)
      by_config true = deliver-Kept l x c
      by_config false = Kept-refl c

  persist_buffered-Kept : (e : Event) (c : Consumer v) → Kept c (persist_buffered v e c)
  unfolding persist_buffered count_consumed
  persist_buffered-Kept e c = by_result (v.sink.write e c.sink).1
    where
      by_result :
          (o : Option Error)
          → Kept c (
              count_consumed v (elim o [
                | none ↦ record c { sink = (v.sink.write e c.sink).0 }
                | some x ↦
                    say v (sink_write_error x) (record c { sink = (v.sink.write e c.sink).0 })
              ]))
      by_result none = (p.write_ready e c.sink, λ f r h. p.write_keeps e f c.sink r h, λ r h. h)
      by_result (some x) = (p.write_ready e c.sink, λ f r h. p.write_keeps e f c.sink r h, λ r h. h)

  -- A write loop keeps the sink ready, and what it holds.
  loop_keeps :
      (n : ℕ) (e f : Event) (s : v.SinkState)
      → p.IsReady s × p.Holds s f
      → p.IsReady (retry n (v.sink.write e) s none).0
        × p.Holds (retry n (v.sink.write e) s none).0 f
  loop_keeps n e f s h =
      retry_keeps (λ t. p.IsReady t × p.Holds t f) (v.sink.write e)
        (λ t g. (p.write_ready e t g.0, p.write_keeps e f t g.0 g.1)) n s none h

  persist_retried-Kept :
      (l : Letter) (e : Event) (c : Consumer v) → Kept c (persist_retried v l e c)
  unfolding persist_retried count_consumed
  persist_retried-Kept l e c = by_result (last_err r.1)
    where
      n : ℕ
      n = attempts v.max_retries

      r : v.SinkState × Loop
      r = retry n (v.sink.write e) c.sink none

      written : Kept c (record c { sink = r.0 })
      written = (
        retry_keeps p.IsReady (v.sink.write e) (p.write_ready e) n c.sink none,
        λ f g h. (loop_keeps n e f c.sink (g, h)).1,
        λ q h. h,
      )

      by_result :
          (o : Option Error)
          → Kept c (elim o [
            | none ↦ count_consumed v (record c { sink = r.0 })
            | some x ↦
                send_to_dlq v l x (say v (persist_failed v.max_retries x) (record c { sink = r.0 }))
          ])
      by_result none = written
      by_result (some x) =
          let c' : Consumer v = say v (persist_failed v.max_retries x) (record c { sink = r.0 }) in
          Kept-trans c c' (send_to_dlq v l x c') written (send_to_dlq-Kept l x c')

  pub persist-Kept : (l : Letter) (e : Event) (c : Consumer v) → Kept c (persist v l e c)
  unfolding persist
  persist-Kept l e c = by_sink v.sink.poison_reporter
    where
      by_sink :
          (o : Option (v.SinkState → v.SinkState × List PoisonedEvent))
          → Kept c (elim o [ some g ↦ persist_buffered v e c | none ↦ persist_retried v l e c ])
      by_sink none = persist_retried-Kept l e c
      by_sink (some g) = persist_buffered-Kept e c

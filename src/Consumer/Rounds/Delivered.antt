-- ===== src/Consumer/Rounds/Delivered.antt =====
-- What is in the dead-letter topic of internal/consumer/consumer.go stays there behind a round.
use sluice_gate_telemetery_i.Base.{◌≡◌, sym, subst, List, [], ◌∷◌, Option, none, some, arith}
use sluice_gate_telemetery_i.Event.{PoisonedEvent, Error}
use sluice_gate_telemetery_i.Broker.{Record}
use sluice_gate_telemetery_i.Consumer.{Env, Consumer, say, flush_error}
use sluice_gate_telemetery_i.Consumer.NoLoss.{Durable, send_to_dlq-Kept}
use sluice_gate_telemetery_i.Consumer.Rounds.{
  flush_sink, poison_letter, send_poisoned, report_poisoned, commit_offsets, finish,
}

module _ (v : Env) (p : Durable v.sink) where
  pub send_poisoned-Delivered :
      (ps : List PoisonedEvent) (c : Consumer v) (r : Record)
      → v.broker.Delivered c.dlq r
      → v.broker.Delivered (send_poisoned v ps c).dlq r
  unfolding send_poisoned
  send_poisoned-Delivered [] c r k = k
  send_poisoned-Delivered (o ∷ ps) c r k =
      send_poisoned-Delivered ps _ r ((send_to_dlq-Kept v p (poison_letter v o) o.cause c).2 r k)

  pub flush_sink-dlq : (c : Consumer v) → (flush_sink v c).0.dlq ≡ c.dlq
  unfolding flush_sink
  flush_sink-dlq c = ground arith

  report-Delivered :
      (c : Consumer v) (r : Record)
      → v.broker.Delivered c.dlq r
      → v.broker.Delivered (report_poisoned v c).dlq r
  unfolding report_poisoned
  report-Delivered c r k = by_sink v.sink.poison_reporter
    where
      by_sink :
          (o : Option (v.SinkState → v.SinkState × List PoisonedEvent))
          → v.broker.Delivered
              (let c' : Consumer v = elim o [
                | none ↦ c
                | some g ↦ send_poisoned v (g c.sink).1 (record c { sink = (g c.sink).0 })
              ] in
                c'.dlq)
              r
      by_sink none = k
      by_sink (some g) = send_poisoned-Delivered (g c.sink).1 (record c { sink = (g c.sink).0 }) r k

  pub finish-Delivered :
      (o : Option Error) (c : Consumer v) (r : Record)
      → v.broker.Delivered c.dlq r
      → v.broker.Delivered (finish v o c).dlq r
  unfolding finish
  finish-Delivered o c r k = by_flush (flush_sink v c).1
    where
      flushed : v.broker.Delivered (flush_sink v c).0.dlq r
      flushed = subst (λ s. v.broker.Delivered s r) (sym (flush_sink-dlq c)) k

      by_commit :
          (m : Option Error) (c' : Consumer v)
          → v.broker.Delivered c'.dlq r
          → v.broker.Delivered (commit_offsets v m c').dlq r
      by_commit m c' k' = unfold commit_offsets in (by_case m)
        where
          by_case : (m' : Option Error) → v.broker.Delivered (commit_offsets v m' c').dlq r
          by_case none = k'
          by_case (some x) = k'

      by_flush :
          (f : Option Error)
          → v.broker.Delivered
              (let c' : Consumer v = elim f [
                | some x ↦ say v (flush_error x) (flush_sink v c).0
                | none ↦ commit_offsets v o (report_poisoned v (flush_sink v c).0)
              ] in
                c'.dlq)
              r
      by_flush none = by_commit o _ (report-Delivered (flush_sink v c).0 r flushed)
      by_flush (some x) = flushed

-- ===== src/Consumer/Rounds/Redis.antt =====
-- The end of a round of internal/consumer/consumer.go leaves Redis alone.
use sluice_gate_telemetery_i.Base.{
  ◌≡◌, refl, ◌∙◌, inl, inr, List, [], ◌∷◌, Option, none, some, Option-cases, arith,
}
use sluice_gate_telemetery_i.Event.{PoisonedEvent, Error}
use sluice_gate_telemetery_i.Consumer.{Env, Consumer}
use sluice_gate_telemetery_i.Consumer.NoLoss.{send_to_dlq-redis}
use sluice_gate_telemetery_i.Consumer.Rounds.{
  flush_sink, poison_letter, send_poisoned, report_poisoned, commit_offsets, finish,
}

module _ (v : Env) where
  flush_sink-redis : (c : Consumer v) → (flush_sink v c).0.redis ≡ c.redis
  unfolding flush_sink
  flush_sink-redis c = ground arith

  send_poisoned-redis :
      (ps : List PoisonedEvent) (c : Consumer v) → (send_poisoned v ps c).redis ≡ c.redis
  unfolding send_poisoned
  send_poisoned-redis [] c = refl
  send_poisoned-redis (o ∷ ps) c =
      send_poisoned-redis ps _ ∙ send_to_dlq-redis v (poison_letter v o) o.cause c

  report-redis : (c : Consumer v) → (report_poisoned v c).redis ≡ c.redis
  unfolding report_poisoned
  report-redis c = by_sink v.sink.poison_reporter
    where
      by_sink :
          (o : Option (v.SinkState → v.SinkState × List PoisonedEvent))
          → (let c' : Consumer v = elim o [
            | none ↦ c
            | some g ↦ send_poisoned v (g c.sink).1 (record c { sink = (g c.sink).0 })
          ] in
              c'.redis)
            ≡ c.redis
      by_sink none = refl
      by_sink (some g) = send_poisoned-redis (g c.sink).1 (record c { sink = (g c.sink).0 })

  commit-redis : (o : Option Error) (c : Consumer v) → (commit_offsets v o c).redis ≡ c.redis
  unfolding commit_offsets
  commit-redis none c = refl
  commit-redis (some x) c = refl

  pub finish-redis : (o : Option Error) (c : Consumer v) → (finish v o c).redis ≡ c.redis
  unfolding finish
  finish-redis o c = elim (Option-cases (flush_sink v c).1) [
    | inl n ↦
        rw (n, finish)
          (commit-redis o (report_poisoned v (flush_sink v c).0)
            ∙ report-redis (flush_sink v c).0
            ∙ flush_sink-redis c)
    | inr (x, n) ↦ rw (n, finish) (flush_sink-redis c)
  ]

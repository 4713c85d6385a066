-- ===== src/Consumer/NoLoss/Outcome.antt =====
-- Persisting a record ends in the sink or in the dead-letter topic (internal/consumer/consumer.go).
use sluice_gate_telemetery_i.Base.{
  ℕ, suc, pos, ◌≡◌, ◌≢◌, refl, sym, ap, subst, ◌∙◌, ◌⊎◌, inl, inr, List, true, Option, none, some,
  attempts, if◌then◌else◌,
}
use sluice_gate_telemetery_i.Event.{Event, PoisonedEvent, Error}
use sluice_gate_telemetery_i.Retry.{Loop, last_err, retry, retry_finished_inv, retry_no_err}
use sluice_gate_telemetery_i.Broker.{Record}
use sluice_gate_telemetery_i.Dlq.{Letter, letter_record, send}
use sluice_gate_telemetery_i.Consumer.{
  Env, Consumer, sink_write_error, no_dlq, dlq_failed, persist_failed, say, count_consumed,
  count_dlq, deliver, send_to_dlq, persist_buffered, persist_retried, persist,
}
use sluice_gate_telemetery_i.Consumer.NoLoss.Steps.{Durable, IsHeld, IsDead}

-- The conditions under which nothing is given up: there is a dead-letter topic, its broker takes
-- every record, and the retries are not negative.
pub record Reliable (v : Env) : Type 0 where
  pub dlq_on : v.dlq ≡ true
  pub dlq_takes : (r : Record) (s : v.broker.State) → (v.broker.produce_sync r s).1 ≡ none
  pub retries : ℕ
  pub not_negative : v.max_retries ≡ pos retries

module _ (v : Env) (p : Durable v.sink) (h : Reliable v) where
  deliver-IsDead : (l : Letter) (x : Error) (c : Consumer v) → IsDead v p l (deliver v l x c)
  unfolding deliver count_dlq send
  deliver-IsDead l x c = (x, by_result (send v.broker v.dlq_topic l x c.dlq).1)
    where
      s : v.broker.State
      s = (send v.broker v.dlq_topic l x c.dlq).0

      sent : v.broker.Delivered s (letter_record v.dlq_topic l x)
      sent = v.broker.produce_ok _ c.dlq (h.dlq_takes _ c.dlq)

      by_result :
          (o : Option Error)
          → v.broker.Delivered
              (let c' : Consumer v = elim o [
                | none ↦ count_dlq v (record c { dlq = s })
                | some y ↦ say v (dlq_failed y) (record c { dlq = s })
              ] in
                c'.dlq)
              (letter_record v.dlq_topic l x)
      by_result none = sent
      by_result (some y) = sent

  pub send_to_dlq-IsDead :
      (l : Letter) (x : Error) (c : Consumer v) → IsDead v p l (send_to_dlq v l x c)
  unfolding send_to_dlq
  send_to_dlq-IsDead l x c =
      subst (λ b. IsDead v p l (if b then deliver v l x c else say v (no_dlq x) c)) (sym h.dlq_on)
        (deliver-IsDead l x c)

  -- In the sink, or in the dead-letter topic.
  abbrev pub IsPersisted : Letter → Event → Consumer v → Type 0
  IsPersisted l e c = IsHeld v p e c ⊎ IsDead v p l c

  persist_buffered-IsHeld :
      (e : Event) (c : Consumer v)
      → p.IsReady c.sink
      → v.sink.poison_reporter ≢ none
      → IsHeld v p e (persist_buffered v e c)
  unfolding persist_buffered count_consumed
  persist_buffered-IsHeld e c r q = by_result (v.sink.write e c.sink).1
    where
      by_result :
          (o : Option Error)
          → IsHeld v p e (
              count_consumed v (elim o [
                | none ↦ record c { sink = (v.sink.write e c.sink).0 }
                | some x ↦
                    say v (sink_write_error x) (record c { sink = (v.sink.write e c.sink).0 })
              ]))
      by_result none = p.write_buffered e c.sink r q
      by_result (some x) = p.write_buffered e c.sink r q

  persist_retried-IsPersisted :
      (l : Letter) (e : Event) (c : Consumer v)
      → p.IsReady c.sink
      → IsPersisted l e (persist_retried v l e c)
  unfolding persist_retried count_consumed
  persist_retried-IsPersisted l e c r =
      subst persisted (sym (ap attempts h.not_negative)) (by_result _ refl)
    where
      outcome : v.SinkState → Option Error → Consumer v
      outcome s o = elim o [
        | none ↦ count_consumed v (record c { sink = s })
        | some x ↦
            send_to_dlq v l x (say v (persist_failed v.max_retries x) (record c { sink = s }))
      ]

      loop : ℕ → v.SinkState × Loop
      loop n = retry n (v.sink.write e) c.sink none

      persisted : ℕ → Type 0
      persisted n = IsPersisted l e (outcome (loop n).0 (last_err (loop n).1))

      n : ℕ
      n = suc h.retries

      by_result :
          (o : Option Error) → last_err (loop n).1 ≡ o → IsPersisted l e (outcome (loop n).0 o)
      by_result none k = inl (
          retry_finished_inv p.IsReady (λ s. p.Holds s e) (v.sink.write e) (p.write_ready e)
            (p.write_ok e) n c.sink none r (retry_no_err (v.sink.write e) h.retries c.sink k))
      by_result (some x) k = inr (send_to_dlq-IsDead l x _)

  pub persist-IsPersisted :
      (l : Letter) (e : Event) (c : Consumer v)
      → p.IsReady c.sink
      → IsPersisted l e (persist v l e c)
  unfolding persist
  persist-IsPersisted l e c r = by_sink v.sink.poison_reporter refl
    where
      by_sink :
          (o : Option (v.SinkState → v.SinkState × List PoisonedEvent))
          → v.sink.poison_reporter ≡ o
          → IsPersisted l e
              (elim o [ some g ↦ persist_buffered v e c | none ↦ persist_retried v l e c ])
      by_sink none k = persist_retried-IsPersisted l e c r
      by_sink (some g) k =
          inl (persist_buffered-IsHeld e c r (λ q. let w : some g ≡ none = sym k ∙ q in cc))

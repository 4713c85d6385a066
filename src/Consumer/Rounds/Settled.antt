-- ===== src/Consumer/Rounds/Settled.antt =====
-- What a committed round of internal/consumer/consumer.go leaves of its records.
use sluice_gate_telemetery_i.Base.{
  ◌≡◌, refl, sym, subst, ◌∙◌, ◌⊎◌, inl, inr, List, [], ◌∷◌, Option, none, some, In, arith,
}
use sluice_gate_telemetery_i.Event.{Event, PoisonedEvent, Error}
use sluice_gate_telemetery_i.Sink.{Sink}
use sluice_gate_telemetery_i.Dlq.{Letter}
use sluice_gate_telemetery_i.Consumer.{
  Env, Consumer, send_to_dlq, deliver, count_dlq, inc_if, say, flush_error, fetch_error,
}
use sluice_gate_telemetery_i.Consumer.NoLoss.{Durable, Reliable, IsDead, send_to_dlq-IsDead}
use sluice_gate_telemetery_i.Consumer.Rounds.Delivered.{send_poisoned-Delivered}
use sluice_gate_telemetery_i.Consumer.Rounds.{
  log_fetch_errors, flush_sink, poison_letter, send_poisoned, report_poisoned, commit_offsets,
  finish,
}

-- What a durable sink promises of its flush: behind one without error, what was held is stored for
-- good, or among the poisoned events that the sink then hands over. A sink that does not flush has
-- stored what it holds.
pub record Settling {S : Type 0} (k : Sink S) (p : Durable k) : Type 1 where
  pub Stored : S → Event → Type 0
  pub Poisoned : S → Event → Error → Type 0
  pub flush_settles :
      (f : S → S × Option Error) (e : Event) (s : S)
      → k.flusher ≡ some f
      → p.IsReady s
      → p.Holds s e
      → (f s).1 ≡ none
      → Stored (f s).0 e ⊎ ((x : Error) × Poisoned (f s).0 e x)
  pub unflushed_stored : (e : Event) (s : S) → k.flusher ≡ none → p.Holds s e → Stored s e
  pub drain_hands_over :
      (g : S → S × List PoisonedEvent) (e : Event) (x : Error) (s : S)
      → k.poison_reporter ≡ some g
      → Poisoned s e x
      → In (record { event = e; cause = x }) (g s).1
  pub reporter_there : (e : Event) (x : Error) (s : S) → k.poison_reporter ≡ none → ¬ Poisoned s e x
  pub drain_keeps :
      (g : S → S × List PoisonedEvent) (e : Event) (s : S)
      → k.poison_reporter ≡ some g
      → Stored s e
      → Stored (g s).0 e

module _ (v : Env) (p : Durable v.sink) (q : Settling v.sink p) (h : Reliable v) where
  -- The dead-letter topic has the event, marshalled anew.
  abbrev pub IsReported : Event → Consumer v → Type 0
  IsReported e c = (x : Error) × IsDead v p (poison_letter v (record { event = e; cause = x })) c

  send_poisoned-IsReported :
      (ps : List PoisonedEvent) (c : Consumer v) (o : PoisonedEvent)
      → In o ps
      → IsReported o.event (send_poisoned v ps c)
  unfolding send_poisoned
  send_poisoned-IsReported [] c o i = absurd i
  send_poisoned-IsReported (a ∷ ps) c o (inl e) =
      let c' = send_to_dlq v (poison_letter v a) a.cause c in
      let (x, k) = send_to_dlq-IsDead v p h (poison_letter v a) a.cause c in
      subst (λ b. IsReported b.event (send_poisoned v ps c')) (sym e)
        (a.cause, (x, send_poisoned-Delivered v p ps c' _ k))
  send_poisoned-IsReported (a ∷ ps) c o (inr i) = send_poisoned-IsReported ps _ o i

  send_to_dlq-sink : (l : Letter) (x : Error) (c : Consumer v) → (send_to_dlq v l x c).sink ≡ c.sink
  unfolding send_to_dlq deliver count_dlq
  send_to_dlq-sink l x c = ground arith

  pub send_poisoned-sink :
      (ps : List PoisonedEvent) (c : Consumer v) → (send_poisoned v ps c).sink ≡ c.sink
  unfolding send_poisoned
  send_poisoned-sink [] c = refl
  send_poisoned-sink (o ∷ ps) c = send_poisoned-sink ps _ ∙ send_to_dlq-sink _ o.cause c

  -- For good: in the sink's store, or in the dead-letter topic, anew or as the letter that it came as.
  abbrev pub IsFinal : Letter → Event → Consumer v → Type 0
  IsFinal l e c = q.Stored c.sink e ⊎ IsDead v p l c ⊎ IsReported e c

  -- Behind a flush.
  abbrev IsFlushed : Letter → Event → Consumer v → Type 0
  IsFlushed l e c = q.Stored c.sink e ⊎ IsDead v p l c ⊎ ((x : Error) × q.Poisoned c.sink e x)

  abbrev pub IsPersisted' : Letter → Event → Consumer v → Type 0
  IsPersisted' l e c = p.Holds c.sink e ⊎ IsDead v p l c

  flush-IsFlushed :
      (l : Letter) (e : Event) (c : Consumer v)
      → p.IsReady c.sink
      → (flush_sink v c).1 ≡ none
      → IsPersisted' l e c
      → IsFlushed l e (flush_sink v c).0
  unfolding flush_sink
  flush-IsFlushed l e c r k a = by_sink v.sink.flusher refl k
    where
      flushed : Option (v.SinkState → v.SinkState × Option Error) → Consumer v × Option Error
      flushed o = elim o [
        | none ↦ (c, none)
        | some f ↦ (
          record c {
            sink = (f c.sink).0;
            metrics = record (c.metrics) { flushes = inc_if v.metrics c.metrics.flushes };
          },
          (f c.sink).1,
        )
      ]

      by_sink :
          (o : Option (v.SinkState → v.SinkState × Option Error))
          → v.sink.flusher ≡ o
          → (flushed o).1 ≡ none
          → IsFlushed l e (flushed o).0
      by_sink none i n = elim a [
        | inl held ↦ inl (q.unflushed_stored e c.sink i held)
        | inr dead ↦ inr (inl dead)
      ]
      by_sink (some f) i n = elim a [
        | inl held ↦ elim (q.flush_settles f e c.sink i r held n) [
          | inl stored ↦ inl stored
          | inr poisoned ↦ inr (inr poisoned)
        ]
        | inr dead ↦ inr (inl dead)
      ]

  report-IsFinal :
      (l : Letter) (e : Event) (c : Consumer v)
      → IsFlushed l e c
      → IsFinal l e (report_poisoned v c)
  unfolding report_poisoned
  report-IsFinal l e c a = by_sink v.sink.poison_reporter refl
    where
      by_sink :
          (o : Option (v.SinkState → v.SinkState × List PoisonedEvent))
          → v.sink.poison_reporter ≡ o
          → IsFinal l e (elim o [
            | none ↦ c
            | some g ↦ send_poisoned v (g c.sink).1 (record c { sink = (g c.sink).0 })
          ])
      by_sink none i = elim a [
        | inl stored ↦ inl stored
        | inr (inl dead) ↦ inr (inl dead)
        | inr (inr (x, poisoned)) ↦ absurd (q.reporter_there e x c.sink i poisoned)
      ]
      by_sink (some g) i =
          let c' : Consumer v = record c { sink = (g c.sink).0 } in
          let ps = (g c.sink).1 in
          elim a [
            | inl stored ↦ inl (
                subst (λ s. q.Stored s e) (sym (send_poisoned-sink ps c'))
                  (q.drain_keeps g e c.sink i stored))
            | inr (inl (x, dead)) ↦ inr (inl (x, send_poisoned-Delivered v p ps c' _ dead))
            | inr (inr (x, poisoned)) ↦ inr (
                inr (
                  send_poisoned-IsReported ps c' (record { event = e; cause = x })
                    (q.drain_hands_over g e x c.sink i poisoned)))
          ]

  -- What is for good behind the report is so behind the commit, made or refused.
  commit-IsFinal :
      (r : Option Error) (l : Letter) (e : Event) (c : Consumer v)
      → IsFinal l e c
      → IsFinal l e (commit_offsets v r c)
  unfolding commit_offsets
  commit-IsFinal none l e c a = a
  commit-IsFinal (some x) l e c a = a

  pub finish-IsFinal :
      (r : Option Error) (l : Letter) (e : Event) (c : Consumer v)
      → p.IsReady c.sink
      → (flush_sink v c).1 ≡ none
      → IsPersisted' l e c
      → IsFinal l e (finish v r c)
  unfolding finish
  finish-IsFinal r l e c k n a =
      subst by_flush (sym n) (
        commit-IsFinal r l e _
          (report-IsFinal l e (flush_sink v c).0 (flush-IsFlushed l e c k n a)))
    where
      by_flush : Option Error → Type 0
      by_flush o = IsFinal l e (elim o [
        | some x ↦ say v (flush_error x) (flush_sink v c).0
        | none ↦ commit_offsets v r (report_poisoned v (flush_sink v c).0)
      ])

  pub log_fetch_errors-sink :
      (xs : List Error) (c : Consumer v)
      → ((log_fetch_errors v xs c).sink ≡ c.sink) × ((log_fetch_errors v xs c).redis ≡ c.redis)
  unfolding log_fetch_errors
  log_fetch_errors-sink [] c = (refl, refl)
  log_fetch_errors-sink (x ∷ xs) c = log_fetch_errors-sink xs (say v (fetch_error x) c)

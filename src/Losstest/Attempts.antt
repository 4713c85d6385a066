-- ===== src/Losstest/Attempts.antt =====
-- What one attempt of a producer of cmd/losstest/main.go does.
use sluice_gate_telemetery_i.Base.{
  ℕ, zero, suc, ◌+◌, ◌<◌, ◌≡◌, refl, sym, subst, Bytes, [], ◌∷◌, ◌++◌, Option, none, some, arith,
  Bool, true, false, ◌==◌, ==_iff,
}
use sluice_gate_telemetery_i.Event.{Event, Error, Proto}
use sluice_gate_telemetery_i.Broker.{Broker}
use sluice_gate_telemetery_i.Sink.Kafka.{write, write-delivers}
use sluice_gate_telemetery_i.Sink.Kafka.Durable.{InTopic, write_keeps}
use sluice_gate_telemetery_i.Losstest.Producers.{Producer, event_at, Test, attempt}

module _ (float_of : ℕ → ℕ) (p : Proto) (b : Broker) (topic : Bytes) where
  abbrev pub Keeps : b.State → b.State → Type 0
  Keeps s t = (e : Event) → InTopic p b topic s e → InTopic p b topic t e

  -- One attempt: what the topic has, what is left, and the events before `i`.
  pub record Attempt (q : Producer) (t : Test float_of p b topic) (q' : Producer)
      (t' : Test float_of p b topic) : Type 0 where
    pub keeps : Keeps t.log t'.log
    pub same_id : q'.id ≡ q.id
    pub same_share : q'.i + q'.left ≡ q.i + q.left
    pub counted : t'.produced + q'.left ≡ t.produced + q.left
    pub sent :
        ((j : ℕ) → j < q.i → InTopic p b topic t.log (event_at float_of q.id j))
        → (j : ℕ) → j < q'.i
        → InTopic p b topic t'.log (event_at float_of q.id j)

  pub attempt-Attempt :
      (q : Producer) (t : Test float_of p b topic)
      → let a = attempt float_of p b topic q t in Attempt q t a.0 a.1
  unfolding attempt
  attempt-Attempt q t = by_left q.left refl
    where
      e : Event
      e = event_at float_of q.id q.i

      w : b.State × Option Error
      w = write p b topic e t.log

      kept : Keeps t.log w.0
      kept f h = (h.0, write_keeps p b topic e h.0 t.log h.1, h.2, h.3, h.4)

      by_answer :
          (n : ℕ)
          → q.left ≡ suc n
          → (o : Option Error) → w.1 ≡ o
          → let a : Producer × Test float_of p b topic = elim o [
            | none ↦ (
              record q { i = suc q.i; left = n },
              record t { log = w.0; produced = t.produced + 1 },
            )
            | some x ↦ (q, record t { log = w.0; errors = t.errors ++ x ∷ [] })
          ] in
            Attempt q t a.0 a.1
      by_answer n h none answer = record {
        keeps = kept;
        same_id = refl;
        same_share = omega (arith, h);
        counted = omega (arith, h);
        sent = λ before j below. by_last j below before (j == q.i) refl;
      }
        where
          by_last :
              (j : ℕ)
              → j < suc q.i
              → ((j : ℕ) → j < q.i → InTopic p b topic t.log (event_at float_of q.id j))
              → (x : Bool) → (j == q.i) ≡ x
              → InTopic p b topic w.0 (event_at float_of q.id j)
          by_last j below before true same =
              subst (λ k. InTopic p b topic w.0 (event_at float_of q.id k))
                (sym ((==_iff j q.i).0 same)) (write-delivers p b topic e t.log answer)
          by_last j below before false other =
              let l : j < q.i = ground (arith, below, other) in
              kept (event_at float_of q.id j) (before j l)
      by_answer n h (some x) answer = record {
        keeps = kept;
        same_id = refl;
        same_share = refl;
        counted = refl;
        sent = λ before j below. kept (event_at float_of q.id j) (before j below);
      }

      by_left :
          (n : ℕ)
          → q.left ≡ n
          → let a : Producer × Test float_of p b topic = elim n [
            | zero ↦ (q, t)
            | suc n ↦ elim w.1 [
              | none ↦ (
                record q { i = suc q.i; left = n },
                record t { log = w.0; produced = t.produced + 1 },
              )
              | some x ↦ (q, record t { log = w.0; errors = t.errors ++ x ∷ [] })
            ]
          ] in
            Attempt q t a.0 a.1
      by_left zero h = record {
        keeps = λ f i. i;
        same_id = refl;
        same_share = refl;
        counted = refl;
        sent = λ before j below. before j below;
      }
      by_left (suc n) h = by_answer n h w.1 refl

-- ===== src/Losstest/Producers.antt =====
-- cmd/losstest/main.go: the producers, each with its loop over its events and the loop that writes an
-- event until that goes well. The timeout of a write is an error of it; the pause behind an error is not
-- modelled.
use sluice_gate_telemetery_i.Base.{
  ℕ, zero, suc, ◌+◌, ◌%◌, ◌≡◌, pos, Bytes, codes, List, [], ◌∷◌, ◌++◌, none, some,
}
use sluice_gate_telemetery_i.Strconv.{format_nat}
use sluice_gate_telemetery_i.Event.{Event, Error, Proto}
use sluice_gate_telemetery_i.Broker.{Broker}
use sluice_gate_telemetery_i.Sink.Kafka.{write}
use sluice_gate_telemetery_i.Losstest.{share}

-- "loss-%d-%d".
unfoldable pub idempotency_key_of : ℕ → ℕ → Bytes
idempotency_key_of id i = codes "loss-" ++ (format_nat id ++ (codes "-" ++ format_nat i))

-- A goroutine: `i`, and how many times its loop goes on from there.
pub record Producer : Type 0 where
  pub id : ℕ
  pub i : ℕ
  pub left : ℕ

-- The last k goroutines of the loop, from g on.
unfoldable pub producers_from : ℕ → ℕ → ℕ → ℕ → List Producer
producers_from count concurrency g zero = []
producers_from count concurrency g (suc k) =
    record { id = g; i = 0; left = share count concurrency g }
    ∷ producers_from count concurrency (suc g) k

abbrev pub HasReturned : Producer → Type 0
HasReturned q = q.left ≡ 0

-- `float_of` is the conversion of an int to float64.
module _ (float_of : ℕ → ℕ) where
  unfoldable pub event_at : ℕ → ℕ → Event
  unfolding idempotency_key_of
  event_at id i = record {
    device_id = codes "device-" ++ format_nat id;
    idempotency_key = idempotency_key_of id i;
    event_time_unix_nanos = pos 0;
    metric = codes "cpu.util";
    value = float_of (i % 100);
  }

  module _ (p : Proto) (b : Broker) (topic : Bytes) where
    -- `produced` counts to at most the flag's int, below 2^63; `errors` is what is logged.
    pub record Test : Type 0 where
      pub producers : List Producer
      pub log : b.State
      pub produced : ℕ
      pub errors : List Error

    abbrev pub start : ℕ → ℕ → b.State → Test
    start count concurrency s = record {
      producers = producers_from count concurrency 0 concurrency;
      log = s;
      produced = 0;
      errors = [];
    }

    -- One write, with its answer: behind an error the same event is next.
    unfoldable pub attempt : Producer → Test → Producer × Test
    unfolding write
    attempt q t = elim q.left [
      | zero ↦ (q, t)
      | suc n ↦
          let w = write p b topic (event_at q.id q.i) t.log in
          elim w.1 [
            | none ↦ (
              record q { i = suc q.i; left = n },
              record t { log = w.0; produced = t.produced + 1 },
            )
            | some x ↦ (q, record t { log = w.0; errors = t.errors ++ x ∷ [] })
          ]
    ]

    -- An attempt of the producer at that place in the list.
    unfoldable pub attempt_at : ℕ → List Producer → Test → List Producer × Test
    unfolding attempt
    attempt_at k [] t = ([], t)
    attempt_at zero (q ∷ qs) t = let a = attempt q t in (a.0 ∷ qs, a.1)
    attempt_at (suc k) (q ∷ qs) t = let a = attempt_at k qs t in (q ∷ a.0, a.1)

    unfoldable pub step : ℕ → Test → Test
    unfolding attempt_at
    step k t = let a = attempt_at k t.producers t in record a.1 { producers = a.0 }

    -- The attempts in their order, given by the producers that make them.
    unfoldable pub run : List ℕ → Test → Test
    unfolding step
    run [] t = t
    run (k ∷ ks) t = run ks (step k t)

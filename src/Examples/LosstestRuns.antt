-- ===== src/Examples/LosstestRuns.antt =====
-- Runs of the loss test (cmd/losstest).
use sluice_gate_telemetery_i.Base.{
  ℕ, codes, ◌≡◌, refl, List, [], ◌∷◌, ◌++◌, Bool, true, false, Option, none, some, All, length, In,
  inl, In-append_left, In-append_right, arith,
}
use sluice_gate_telemetery_i.Event.{Error}
use sluice_gate_telemetery_i.Broker.{Broker, Record}
use sluice_gate_telemetery_i.Sink.Kafka.{write}
use sluice_gate_telemetery_i.Losstest.{share}
use sluice_gate_telemetery_i.Losstest.Producers.{
  producers_from, attempt, attempt_at, step, run, start, event_at, HasReturned,
}
use sluice_gate_telemetery_i.Losstest.Produced.{Produced, run-Produced}
use sluice_gate_telemetery_i.Losstest.Returns.{run_returns}
use sluice_gate_telemetery_i.Examples.Systems.{proto, broker}

-- A log, and whether its broker is up. The first record that comes to a broker that is down is refused.
abbrev pub Flaky : Type 0
Flaky = Bool × List Record

abbrev pub produce : Record → Flaky → Flaky × Option Error
produce r (true, s) = ((true, s ++ r ∷ []), none)
produce r (false, s) = ((true, s), some (codes "not leader"))

pub produce_ok : (r : Record) (s : Flaky) → (produce r s).1 ≡ none → In r (produce r s).0.1
produce_ok r (true, s) h = In-append_right r s (r ∷ []) (inl refl)
produce_ok r (false, s) h = cc

pub produce_keeps : (r q : Record) (s : Flaky) → In q s.1 → In q (produce r s).0.1
produce_keeps r q (true, s) h = In-append_left q s (r ∷ []) h
produce_keeps r q (false, s) h = h

abbrev pub flaky : Broker
flaky = record {
  State = Flaky;
  produce_sync = produce;
  flush = λ s. (s, none);
  Delivered = λ s r. In r s.1;
  produce_ok = produce_ok;
  produce_keeps = produce_keeps;
  flush_keeps = λ q s h. h;
}

abbrev no_float : ℕ → ℕ
no_float n = 0

-- Three events by two producers; the first attempt fails.
abbrev attempts : List ℕ
attempts = 0 ∷ 1 ∷ 0 ∷ 0 ∷ []

run-Produced_example : Produced no_float proto flaky (codes "losstest") 3 2 (
    run no_float proto flaky
      (codes "losstest")
      attempts
      (start no_float proto flaky (codes "losstest") 3 2 (false, [])))
unfolding producers_from share run step attempt_at attempt write event_at
run-Produced_example =
    run-Produced no_float proto flaky (codes "losstest") 3 2 attempts (false, []) (omega arith)
      (refl, (refl, tt))

failed_once :
    (run no_float proto flaky
      (codes "losstest")
      attempts
      (start no_float proto flaky (codes "losstest") 3 2 (false, []))).errors
    ≡ codes "not leader" ∷ []
unfolding producers_from share run step attempt_at attempt write event_at
failed_once = refl

run_returns_example :
    (ks : List ℕ) × (length ks ≡ 3)
    × All HasReturned
        (run no_float proto broker
          (codes "losstest")
          ks
          (start no_float proto broker (codes "losstest") 3 2 [])).producers
unfolding write
run_returns_example =
    run_returns no_float proto broker (codes "losstest") 3 2 [] (λ e s. refl) (omega arith)

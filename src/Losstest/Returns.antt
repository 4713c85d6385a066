-- ===== src/Losstest/Returns.antt =====
-- The producers of cmd/losstest/main.go return where the topic takes every event.
use sluice_gate_telemetery_i.Base.{
  ℕ, zero, suc, ◌<◌, ◌≡◌, refl, ap, ◌∙◌, Bytes, List, [], ◌∷◌, none, All, length, arith,
}
use sluice_gate_telemetery_i.Event.{Event, Proto}
use sluice_gate_telemetery_i.Broker.{Broker}
use sluice_gate_telemetery_i.Sink.Kafka.{write}
use sluice_gate_telemetery_i.Losstest.{shares, shares-sum}
use sluice_gate_telemetery_i.Losstest.Producers.{
  Producer, HasReturned, event_at, Test, start, attempt, attempt_at, step, run,
}
use sluice_gate_telemetery_i.Losstest.Produced.{remaining, none_remaining, remaining-producers_from}

module _ (float_of : ℕ → ℕ) (p : Proto) (b : Broker) (topic : Bytes) where
  -- No write fails.
  abbrev pub TakesAll : Type 0
  TakesAll = (e : Event) (s : b.State) → (write p b topic e s).1 ≡ none

  attempt_advances :
      (q : Producer) (t : Test float_of p b topic) (n : ℕ)
      → TakesAll
      → q.left ≡ suc n
      → (attempt float_of p b topic q t).0.left ≡ n
  unfolding attempt
  attempt_advances q t n takes h = simp (h, attempt, takes (event_at float_of q.id q.i) t.log) refl

  -- Where something is left, an attempt of some producer makes it one less.
  next_at :
      (qs : List Producer) (m : ℕ)
      → TakesAll
      → remaining qs ≡ suc m
      → (k : ℕ) × ((t : Test float_of p b topic)
          → remaining (attempt_at float_of p b topic k qs t).0 ≡ m)
  unfolding attempt_at
  next_at [] m takes h = let f : 0 ≡ suc m = h in absurd (let g : ⊥ = omega (arith, f) in g)
  next_at (q ∷ qs) m takes h = by_left q.left refl (next_at qs m takes)
    where
      by_left :
          (n : ℕ)
          → q.left ≡ n
          → (remaining qs ≡ suc m
              → (k : ℕ) × ((t : Test float_of p b topic)
                  → remaining (attempt_at float_of p b topic k qs t).0 ≡ m))
          → (k : ℕ) × ((t : Test float_of p b topic)
              → remaining (attempt_at float_of p b topic k (q ∷ qs) t).0 ≡ m)
      by_left zero e later =
          let (k, goes) = later (omega (arith, h, e)) in (suc k, λ t. omega (arith, goes t, e))
      by_left (suc n) e later = (0, λ t. omega (arith, attempt_advances q t n takes e, h, e))

  run-goes :
      (m : ℕ) (t : Test float_of p b topic)
      → TakesAll
      → remaining t.producers ≡ m
      → (ks : List ℕ) × (length ks ≡ m) × All HasReturned (run float_of p b topic ks t).producers
  unfolding run step
  run-goes zero t takes h = ([], refl, none_remaining t.producers h)
  run-goes (suc m) t takes h =
      let (k, goes) = next_at t.producers m takes h in
      let (ks, long, done) = run-goes m (step float_of p b topic k t) takes (goes t) in
      (k ∷ ks, ap suc long, done)

  -- With at least one goroutine and a topic that takes every event, as many attempts as there are events
  -- bring all producers back.
  pub run_returns :
      (count concurrency : ℕ) (s : b.State)
      → TakesAll
      → 0 < concurrency
      → (ks : List ℕ) × (length ks ≡ count)
        × All HasReturned
            (run float_of p b topic ks (start float_of p b topic count concurrency s)).producers
  unfolding shares
  run_returns count concurrency s takes h =
      run-goes count (start float_of p b topic count concurrency s) takes (
        remaining-producers_from count concurrency 0 concurrency
        ∙ (shares-sum count concurrency h).0)

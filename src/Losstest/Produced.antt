-- ===== src/Losstest/Produced.antt =====
-- What the producers of cmd/losstest/main.go have done when they have all returned, and that they do
-- return where the topic takes every event.
use sluice_gate_telemetery_i.Base.{
  ℕ, zero, suc, ◌+◌, ◌<◌, ◌≡◌, refl, sym, ap, subst, ◌∙◌, Bytes, List, [], ◌∷◌, map, All,
  All-append, Distinct, length, sum, arith,
}
use sluice_gate_telemetery_i.Event.{Event, Proto}
use sluice_gate_telemetery_i.Broker.{Broker}
use sluice_gate_telemetery_i.Sink.Kafka.Durable.{InTopic}
use sluice_gate_telemetery_i.Losstest.{share, shares_from, shares, shares-sum}
use sluice_gate_telemetery_i.Losstest.Producers.{
  Producer, producers_from, HasReturned, event_at, Test, start, attempt, attempt_at, step, run,
}
use sluice_gate_telemetery_i.Losstest.Attempts.{Keeps, attempt-Attempt}
use sluice_gate_telemetery_i.Losstest.Keys.{
  keys, events_from, shared_events, length-shared_events, shared_events-Distinct,
}

abbrev pub remaining : List Producer → ℕ
remaining qs = sum (map (λ q. q.left) qs)

pub none_remaining : (qs : List Producer) → remaining qs ≡ 0 → All HasReturned qs
none_remaining [] h = tt
none_remaining (q ∷ qs) h = (omega (arith, h), none_remaining qs (omega (arith, h)))

all_returned : (qs : List Producer) → All HasReturned qs → remaining qs ≡ 0
all_returned [] h = refl
all_returned (q ∷ qs) h = omega (arith, h.0, all_returned qs h.1)

pub remaining-producers_from :
    (count concurrency g k : ℕ)
    → remaining (producers_from count concurrency g k) ≡ sum (shares_from count concurrency g k)
unfolding producers_from shares_from
remaining-producers_from count concurrency g zero = refl
remaining-producers_from count concurrency g (suc k) =
    ap (share count concurrency g +◌) (remaining-producers_from count concurrency (suc g) k)

module _ (float_of : ℕ → ℕ) (p : Proto) (b : Broker) (topic : Bytes) where
  -- One attempt within the list.
  record Attempts (qs : List Producer) (t : Test float_of p b topic) (qs' : List Producer)
      (t' : Test float_of p b topic) : Type 0 where
    keeps : Keeps float_of p b topic t.log t'.log
    counted : t'.produced + remaining qs' ≡ t.produced + remaining qs

  attempt_at-Attempts :
      (k : ℕ) (qs : List Producer) (t : Test float_of p b topic)
      → let a = attempt_at float_of p b topic k qs t in Attempts qs t a.0 a.1
  unfolding attempt_at
  attempt_at-Attempts k [] t = record { keeps = λ e i. i; counted = refl }
  attempt_at-Attempts zero (q ∷ qs) t =
      let a = attempt-Attempt float_of p b topic q t in
      record { keeps = a.keeps; counted = omega (arith, a.counted) }
  attempt_at-Attempts (suc k) (q ∷ qs) t =
      let a = attempt_at-Attempts k qs t in
      record { keeps = a.keeps; counted = omega (arith, a.counted) }

  module _ (count concurrency : ℕ) where
    -- The producer g: what is before `i` is in the topic, and the rest of its share is left.
    record Fit (s : b.State) (g : ℕ) (q : Producer) : Type 0 where
      same_id : q.id ≡ g
      whole : q.i + q.left ≡ share count concurrency g
      sent : (j : ℕ) → j < q.i → InTopic p b topic s (event_at float_of q.id j)

    -- The producers g to g + k.
    abbrev Fits : b.State → ℕ → ℕ → List Producer → Type 0
    Fits s g zero [] = Unit
    Fits s g zero (q ∷ qs) = ⊥
    Fits s g (suc k) [] = ⊥
    Fits s g (suc k) (q ∷ qs) = Fit s g q × Fits s (suc g) k qs

    Fits-keep :
        (s t : b.State) (g k : ℕ) (qs : List Producer)
        → Keeps float_of p b topic s t
        → Fits s g k qs
        → Fits t g k qs
    Fits-keep s t g zero [] more h = tt
    Fits-keep s t g zero (q ∷ qs) more h = absurd h
    Fits-keep s t g (suc k) [] more h = absurd h
    Fits-keep s t g (suc k) (q ∷ qs) more h = (
      record {
        same_id = h.0.same_id;
        whole = h.0.whole;
        sent = λ j l. more (event_at float_of q.id j) (h.0.sent j l);
      },
      Fits-keep s t (suc g) k qs more h.1,
    )

    attempt_at-Fits :
        (i g k : ℕ) (qs : List Producer) (t : Test float_of p b topic)
        → Fits t.log g k qs
        → let a = attempt_at float_of p b topic i qs t in Fits a.1.log g k a.0
    unfolding attempt_at
    attempt_at-Fits i g k [] t h = h
    attempt_at-Fits i g zero (q ∷ qs) t h = absurd h
    attempt_at-Fits zero g (suc k) (q ∷ qs) t h =
        let a = attempt-Attempt float_of p b topic q t in
        (
          record {
            same_id = a.same_id ∙ h.0.same_id;
            whole = a.same_share ∙ h.0.whole;
            sent = λ j l.
                subst
                  (λ n.
                    InTopic p b topic (attempt float_of p b topic q t).1.log
                      (event_at float_of n j))
                  (sym a.same_id) (a.sent h.0.sent j l);
          },
          Fits-keep t.log (attempt float_of p b topic q t).1.log (suc g) k qs a.keeps h.1,
        )
    attempt_at-Fits (suc i) g (suc k) (q ∷ qs) t h = (
      (Fits-keep t.log (attempt_at float_of p b topic i qs t).1.log g 1 (q ∷ [])
          (attempt_at-Attempts i qs t).keeps (h.0, tt)).0,
      attempt_at-Fits i (suc g) k qs t h.1,
    )

    -- What the producers keep up together.
    abbrev IsOnTheWay : Test float_of p b topic → Type 0
    IsOnTheWay t =
        Fits t.log 0 concurrency t.producers × (t.produced + remaining t.producers ≡ count)

    run-IsOnTheWay :
        (ks : List ℕ) (t : Test float_of p b topic)
        → IsOnTheWay t
        → IsOnTheWay (run float_of p b topic ks t)
    unfolding run step
    run-IsOnTheWay [] t h = h
    run-IsOnTheWay (k ∷ ks) t h = run-IsOnTheWay ks (step float_of p b topic k t) (
      attempt_at-Fits k 0 concurrency t.producers t h.0,
      (attempt_at-Attempts k t.producers t).counted ∙ h.1,
    )

    producers_from-Fits :
        (s : b.State) (g k : ℕ) → Fits s g k (producers_from count concurrency g k)
    unfolding producers_from
    producers_from-Fits s g zero = tt
    producers_from-Fits s g (suc k) = (
      record {
        same_id = refl;
        whole = omega arith;
        sent = λ j l. absurd (let f : ⊥ = omega (arith, l) in f);
      },
      producers_from-Fits s (suc g) k,
    )

    start-IsOnTheWay :
        (s : b.State) → 0 < concurrency → IsOnTheWay (start float_of p b topic count concurrency s)
    unfolding shares
    start-IsOnTheWay s h = (
      producers_from-Fits s 0 concurrency,
      omega (
        arith,
        remaining-producers_from count concurrency 0 concurrency,
        (shares-sum count concurrency h).0,
      ),
    )

    events_from-sent :
        (s : b.State) (id i n : ℕ)
        → ((j : ℕ) → j < i + n → InTopic p b topic s (event_at float_of id j))
        → All (InTopic p b topic s) (events_from float_of id i n)
    events_from-sent s id i zero h = tt
    events_from-sent s id i (suc n) h =
        (h i (omega arith), events_from-sent s id (suc i) n (λ j l. h j (omega (arith, l))))

    Fits-sent :
        (s : b.State) (g k : ℕ) (qs : List Producer)
        → All HasReturned qs
        → Fits s g k qs
        → All (InTopic p b topic s) (shared_events float_of count concurrency g k)
    Fits-sent s g zero qs d h = tt
    Fits-sent s g (suc k) [] d h = absurd h
    Fits-sent s g (suc k) (q ∷ qs) d h =
        All-append (InTopic p b topic s) (events_from float_of g 0 (share count concurrency g))
          (shared_events float_of count concurrency (suc g) k)
          (events_from-sent s g 0 (share count concurrency g) (λ j l.
            subst (λ n. InTopic p b topic s (event_at float_of n j)) h.0.same_id
              (h.0.sent j (omega (arith, l, h.0.whole, d.0)))))
          (Fits-sent s (suc g) k qs d.1 h.1)

    abbrev pub all_events : List Event
    all_events = shared_events float_of count concurrency 0 concurrency

    -- What the test has done.
    pub record Produced (t : Test float_of p b topic) : Type 0 where
      pub produced : t.produced ≡ count
      pub as_many : length all_events ≡ count
      pub keys_differ : Distinct (keys float_of all_events)
      pub in_topic : All (InTopic p b topic t.log) all_events

    -- With at least one goroutine, however the attempts of the producers take turns and whichever of them
    -- fail: once all have returned, `produced` is the count asked for, and the topic has a record for each
    -- of that many events with different keys.
    pub run-Produced :
        (ks : List ℕ) (s : b.State)
        → 0 < concurrency
        → let t = run float_of p b topic ks (start float_of p b topic count concurrency s) in
          All HasReturned t.producers → Produced t
    unfolding shares
    run-Produced ks s h d =
        let t = run float_of p b topic ks (start float_of p b topic count concurrency s) in
        let way =
          run-IsOnTheWay ks (start float_of p b topic count concurrency s) (start-IsOnTheWay s h) in
        record {
          produced = omega (arith, way.1, all_returned t.producers d);
          as_many =
              length-shared_events float_of count concurrency 0 concurrency
              ∙ (shares-sum count concurrency h).0;
          keys_differ = shared_events-Distinct float_of count concurrency 0 concurrency;
          in_topic = Fits-sent t.log 0 concurrency t.producers d way.0;
        }

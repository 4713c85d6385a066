-- ===== src/Losstest/Keys.antt =====
-- cmd/losstest/main.go: the events of the loss test and their keys.
use sluice_gate_telemetery_i.Base.{
  ℕ, zero, suc, ◌+◌, ◌≤◌, ◌≡◌, refl, sym, ap, subst, ◌∙◌, Bytes, List, [], ◌∷◌, ◌++◌, map,
  map-append, In, inl, inr, In-split, Distinct, length, length-append, sum, arith, Distinct-append,
}
use sluice_gate_telemetery_i.Strconv.{format_nat, format_nat-injective, format_nat-IsDigit}
use sluice_gate_telemetery_i.Event.{Event}
use sluice_gate_telemetery_i.Loadgen.{digits_dash}
use sluice_gate_telemetery_i.Losstest.{share, shares_from}
use sluice_gate_telemetery_i.Losstest.Producers.{idempotency_key_of, event_at}

-- What stands behind "loss-".
abbrev behind : Bytes → Bytes
behind (l ∷ o ∷ s ∷ t ∷ d ∷ k) = k
behind k = k

idempotency_key_of-injective :
    (i j s t : ℕ) → idempotency_key_of i s ≡ idempotency_key_of j t → (i ≡ j) × (s ≡ t)
unfolding idempotency_key_of
idempotency_key_of-injective i j s t h =
    let q =
      digits_dash (format_nat i) (format_nat j) (format_nat s) (format_nat t) (format_nat-IsDigit i)
        (format_nat-IsDigit j) (ap behind h) in
    (format_nat-injective i j q.0, format_nat-injective s t q.1)

module _ (float_of : ℕ → ℕ) where
  abbrev pub keys : List Event → List Bytes
  keys es = map (λ e. e.idempotency_key) es

  -- The n events of a goroutine from i on.
  abbrev pub events_from : ℕ → ℕ → ℕ → List Event
  events_from id i zero = []
  events_from id i (suc n) = event_at float_of id i ∷ events_from id (suc i) n

  -- The events of the last k goroutines from g on.
  abbrev pub shared_events : ℕ → ℕ → ℕ → ℕ → List Event
  shared_events count concurrency g zero = []
  shared_events count concurrency g (suc k) =
      events_from g 0 (share count concurrency g) ++ shared_events count concurrency (suc g) k

  length-events_from : (id i n : ℕ) → length (events_from id i n) ≡ n
  length-events_from id i zero = refl
  length-events_from id i (suc n) = ap suc (length-events_from id (suc i) n)

  pub length-shared_events :
      (count concurrency g k : ℕ)
      → length (shared_events count concurrency g k) ≡ sum (shares_from count concurrency g k)
  unfolding shares_from
  length-shared_events count concurrency g zero = refl
  length-shared_events count concurrency g (suc k) =
      length-append (events_from g 0 (share count concurrency g))
        (shared_events count concurrency (suc g) k)
      ∙ ap (◌+ length (shared_events count concurrency (suc g) k))
          (length-events_from g 0 (share count concurrency g))
      ∙ ap (share count concurrency g +◌) (length-shared_events count concurrency (suc g) k)

  -- A key among a goroutine's is of it, and not before the first.
  keys-events_from :
      (id i n : ℕ) (k : Bytes)
      → In k (keys (events_from id i n))
      → (j : ℕ) × (i ≤ j) × (k ≡ idempotency_key_of id j)
  unfolding event_at
  keys-events_from id i zero k h = absurd h
  keys-events_from id i (suc n) k (inl e) = (i, omega arith, e)
  keys-events_from id i (suc n) k (inr h) =
      let (j, l, e) = keys-events_from id (suc i) n k h in (j, omega (arith, l), e)

  keys-shared_events :
      (count concurrency g m : ℕ) (k : Bytes)
      → In k (keys (shared_events count concurrency g m))
      → (id : ℕ) × (j : ℕ) × (g ≤ id) × (k ≡ idempotency_key_of id j)
  keys-shared_events count concurrency g zero k h = absurd h
  keys-shared_events count concurrency g (suc m) k h =
      elim (In-split k (keys first) (keys later)
        (subst (In k) (map-append (λ e. e.idempotency_key) first later) h)) [
          | inl i ↦
              let (j, l, e) = keys-events_from g 0 (share count concurrency g) k i in
              (g, j, omega arith, e)
          | inr i ↦
              let (id, j, l, e) = keys-shared_events count concurrency (suc g) m k i in
              (id, j, omega (arith, l), e)
        ]
    where
      first : List Event
      first = events_from g 0 (share count concurrency g)

      later : List Event
      later = shared_events count concurrency (suc g) m

  events_from-Distinct : (id i n : ℕ) → Distinct (keys (events_from id i n))
  unfolding event_at
  events_from-Distinct id i zero = tt
  events_from-Distinct id i (suc n) = (
    (λ h.
        let (j, l, e) = keys-events_from id (suc i) n (idempotency_key_of id i) h in
        let same : i ≡ j = (idempotency_key_of-injective id id i j e).1 in omega (arith, l, same)),
    events_from-Distinct id (suc i) n,
  )

  pub shared_events-Distinct :
      (count concurrency g k : ℕ) → Distinct (keys (shared_events count concurrency g k))
  shared_events-Distinct count concurrency g zero = tt
  shared_events-Distinct count concurrency g (suc k) =
      subst Distinct (sym (map-append (λ e. e.idempotency_key) first later)) (
        Distinct-append (keys first) (keys later)
          (events_from-Distinct g 0 (share count concurrency g))
          (shared_events-Distinct count concurrency (suc g) k)
          (λ a l r.
            let (j, at, e) = keys-events_from g 0 (share count concurrency g) a l in
            let (id, j', more, e') = keys-shared_events count concurrency (suc g) k a r in
            let same : g ≡ id = (idempotency_key_of-injective g id j j' (sym e ∙ e')).0 in
            omega (arith, more, same)))
    where
      first : List Event
      first = events_from g 0 (share count concurrency g)

      later : List Event
      later = shared_events count concurrency (suc g) k

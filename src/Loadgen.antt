-- ===== src/Loadgen.antt =====
-- internal/loadgen/loadgen.go: the requests of a goroutine.
pub mod Hdr
pub mod Tally
use sluice_gate_telemetery_i.Base.{
  ℕ, zero, suc, ◌+◌, ◌*◌, ◌%◌, ◌<◌, ℤ, pos, negsuc, Bytes, codes, ◌≡◌, refl, sym, ap, subst, ◌∙◌,
  List, [], ◌∷◌, ◌++◌, map, add_u64, add_u64_small, u64_mod, length, All, Distinct, arith, In, inl,
  map-append, inr,
}
use sluice_gate_telemetery_i.Strconv.{format_nat, format_nat-injective, format_nat-IsDigit, IsDigit}
use sluice_gate_telemetery_i.Event.{TelemetryEvent}

-- "g%d-%d".
unfoldable pub idempotency_key_of : ℕ → ℕ → Bytes
unfolding format_nat
idempotency_key_of id seq = codes "g" ++ (format_nat id ++ (codes "-" ++ format_nat seq))

-- `uint64(max(cfg.Devices, 1))`.
abbrev pub at_least_one : ℤ → ℕ
at_least_one (pos zero) = 1
at_least_one (pos (suc n)) = suc n
at_least_one (negsuc n) = 1

-- `float_of` is the conversion of a uint64 to float64.
module _ (float_of : ℕ → ℕ) where
  unfoldable pub event_at : ℤ → ℕ → ℤ → ℕ → TelemetryEvent
  unfolding idempotency_key_of format_nat
  event_at devices id now seq = record {
    device_id = codes "device-" ++ format_nat (seq % at_least_one devices);
    idempotency_key = idempotency_key_of id seq;
    event_time_unix_nanos = now;
    metric = codes "cpu.util";
    value = float_of (seq % 100);
  }

  -- The request of `batch_size` events: what `seq` is behind it, and the events.
  unfoldable pub request : ℤ → ℕ → ℤ → ℕ → ℕ → ℕ × List TelemetryEvent
  unfolding event_at
  request devices id now zero seq = (seq, [])
  request devices id now (suc n) seq =
      let next = add_u64 seq 1 in
      let rest = request devices id now n next in (rest.0, event_at devices id now next ∷ rest.1)

  -- The requests that a goroutine makes, each at its own time.
  unfoldable pub requests : ℤ → ℕ → ℕ → List ℤ → ℕ → List TelemetryEvent
  unfolding request
  requests devices id size [] seq = []
  requests devices id size (now ∷ nows) seq =
      let r = request devices id now size seq in r.1 ++ requests devices id size nows r.0

cons_inj : (x y : ℕ) (a b : Bytes) → x ∷ a ≡ y ∷ b → (x ≡ y) × (a ≡ b)
cons_inj x y a b h = (cc, cc)

-- Digits up to a dash are read back.
pub digits_dash :
    (a b c d : Bytes)
    → All IsDigit a
    → All IsDigit b
    → a ++ (b'-' ∷ c) ≡ b ++ (b'-' ∷ d)
    → (a ≡ b) × (c ≡ d)
digits_dash [] [] c d ha hb e = (refl, (cons_inj b'-' b'-' c d e).1)
digits_dash [] (y ∷ b) c d ha hb e =
    let same : b'-' ≡ y = (cons_inj b'-' y c (b ++ (b'-' ∷ d)) e).0 in
    absurd (let f : ⊥ = omega (arith, same, hb.0.0) in f)
digits_dash (x ∷ a) [] c d ha hb e =
    let same : x ≡ b'-' = (cons_inj x b'-' (a ++ (b'-' ∷ c)) d e).0 in
    absurd (let f : ⊥ = omega (arith, same, ha.0.0) in f)
digits_dash (x ∷ a) (y ∷ b) c d ha hb e =
    let q = cons_inj x y (a ++ (b'-' ∷ c)) (b ++ (b'-' ∷ d)) e in
    let r = digits_dash a b c d ha.1 hb.1 q.1 in
    let x_y : x ≡ y = q.0 in let a_b : a ≡ b = r.0 in (cc, r.1)

-- A key tells its goroutine and its number.
pub idempotency_key_of-injective :
    (i j s t : ℕ) → idempotency_key_of i s ≡ idempotency_key_of j t → (i ≡ j) × (s ≡ t)
unfolding idempotency_key_of
idempotency_key_of-injective i j s t h =
    let q =
      digits_dash (format_nat i) (format_nat j) (format_nat s) (format_nat t) (format_nat-IsDigit i)
        (format_nat-IsDigit j) (cons_inj b'g' b'g' _ _ h).1 in
    (format_nat-injective i j q.0, format_nat-injective s t q.1)

-- The n numbers behind seq.
abbrev numbers : ℕ → ℕ → List ℕ
numbers seq zero = []
numbers seq (suc n) = suc seq ∷ numbers (suc seq) n

numbers-append : (seq m n : ℕ) → numbers seq m ++ numbers (seq + m) n ≡ numbers seq (m + n)
numbers-append seq zero n = ap (λ k. numbers k n) (omega arith) ∙ ap (numbers seq) (omega arith)
numbers-append seq (suc m) n =
    ap (λ k. suc seq ∷ (numbers (suc seq) m ++ numbers k n))
      (let e : seq + suc m ≡ suc seq + m = omega arith in e)
    ∙ ap (suc seq ∷◌) (numbers-append (suc seq) m n)
    ∙ ap (numbers seq) (let e : suc (m + n) ≡ suc m + n = omega arith in e)

abbrev keys_at : ℕ → List ℕ → List Bytes
keys_at id ns = map (idempotency_key_of id) ns

keys_at-In :
    (i j n seq s : ℕ)
    → In (idempotency_key_of i s) (keys_at j (numbers seq n))
    → (i ≡ j) × (seq < s)
keys_at-In i j zero seq s h = absurd h
keys_at-In i j (suc n) seq s (inl e) =
    let q = idempotency_key_of-injective i j s (suc seq) e in (q.0, omega (arith, q.1))
keys_at-In i j (suc n) seq s (inr h) =
    let q = keys_at-In i j n (suc seq) s h in (q.0, omega (arith, q.1))

keys_at-Distinct : (id n seq : ℕ) → Distinct (keys_at id (numbers seq n))
keys_at-Distinct id zero seq = tt
keys_at-Distinct id (suc n) seq = (
  (λ h. let q = (keys_at-In id id n (suc seq) (suc seq) h).1 in omega (arith, q)),
  keys_at-Distinct id n (suc seq),
)

-- A key in both lists.
keys_at_apart :
    (i j m n seq seq' : ℕ) (k : Bytes)
    → In k (keys_at i (numbers seq m))
    → In k (keys_at j (numbers seq' n))
    → i ≡ j
keys_at_apart i j zero n seq seq' k h l = absurd h
keys_at_apart i j (suc m) n seq seq' k (inl e) l =
    (keys_at-In i j n seq' (suc seq) (subst (λ x. In x (keys_at j (numbers seq' n))) e l)).0
keys_at_apart i j (suc m) n seq seq' k (inr h) l = keys_at_apart i j m n (suc seq) seq' k h l

module _ (float_of : ℕ → ℕ) where
  abbrev pub keys : List TelemetryEvent → List Bytes
  keys ms = map (λ m. m.idempotency_key) ms

  -- The numbers of one request run on from `seq`.
  request-numbers :
      (devices : ℤ) (id : ℕ) (now : ℤ) (n seq : ℕ)
      → seq + n < u64_mod
      → ((request float_of devices id now n seq).0 ≡ seq + n)
        × (keys (request float_of devices id now n seq).1 ≡ keys_at id (numbers seq n))
  unfolding request event_at
  request-numbers devices id now zero seq h = (omega arith, refl)
  request-numbers devices id now (suc n) seq h =
      let next : add_u64 seq 1 ≡ suc seq = add_u64_small seq 1 (omega (arith, h)) ∙ omega arith in
      let ih = request-numbers devices id now n (add_u64 seq 1) (omega (arith, h, next)) in
      (
        ih.0 ∙ omega (arith, next),
        ap (idempotency_key_of id (add_u64 seq 1) ∷◌) ih.1
            ∙ ap (λ k. idempotency_key_of id k ∷ keys_at id (numbers k n)) next,
      )

  requests-numbers :
      (devices : ℤ) (id size : ℕ) (nows : List ℤ) (seq : ℕ)
      → seq + length nows * size < u64_mod
      → keys (requests float_of devices id size nows seq)
        ≡ keys_at id (numbers seq (length nows * size))
  unfolding requests
  requests-numbers devices id size [] seq h =
      ap (λ n. keys_at id (numbers seq n)) (let e : 0 ≡ 0 * size = omega arith in e)
  requests-numbers devices id size (now ∷ nows) seq h =
      let grows : suc (length nows) * size ≡ size + length nows * size = omega arith in
      let first = request-numbers devices id now size seq (omega (arith, h, grows)) in
      let r = request float_of devices id now size seq in
      let rest = requests-numbers devices id size nows r.0 (omega (arith, h, grows, first.0)) in
      map-append (λ m. m.idempotency_key) r.1 (requests float_of devices id size nows r.0)
      ∙ ap (◌++ keys (requests float_of devices id size nows r.0)) first.1
      ∙ ap (keys_at id (numbers seq size) ++◌)
          (rest ∙ ap (λ k. keys_at id (numbers k (length nows * size))) first.0)
      ∙ sym (
          map-append (idempotency_key_of id) (numbers seq size)
            (numbers (seq + size) (length nows * size)))
      ∙ ap (keys_at id)
          (numbers-append seq size (length nows * size) ∙ ap (numbers seq) (sym grows))

  -- While a goroutine makes fewer than 2^64 events, it uses no idempotency key twice; and no two
  -- goroutines share a key.
  pub requests-Distinct :
      (devices : ℤ) (i j size : ℕ) (nows nows' : List ℤ)
      → length nows * size < u64_mod
      → length nows' * size < u64_mod
      → Distinct (keys (requests float_of devices i size nows 0))
        × ((k : Bytes)
            → In k (keys (requests float_of devices i size nows 0))
            → In k (keys (requests float_of devices j size nows' 0))
            → i ≡ j)
  requests-Distinct devices i j size nows nows' h h' = (
    subst Distinct (sym of_i) (keys_at-Distinct i (length nows * size) 0),
    λ k a b.
        keys_at_apart i j (length nows * size) (length nows' * size) 0 0 k (subst (In k) of_i a)
          (subst (In k) of_j b),
  )
    where
      of_i :
          keys (requests float_of devices i size nows 0)
          ≡ keys_at i (numbers 0 (length nows * size))
      of_i = requests-numbers devices i size nows 0 (omega (arith, h))

      of_j :
          keys (requests float_of devices j size nows' 0)
          ≡ keys_at j (numbers 0 (length nows' * size))
      of_j = requests-numbers devices j size nows' 0 (omega (arith, h'))

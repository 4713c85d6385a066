-- ===== src/Consumer/Unseen.antt =====
-- The records of a batch that the check of internal/dedup/redis.go does not mark as seen.
use sluice_gate_telemetery_i.Base.{
  ◌≡◌, refl, sym, subst, List, [], ◌∷◌, Bool, true, false, Bytes, beq, beq_eq, beq_refl, ◌⊎◌, arith,
  In, inl, inr, Distinct, Bool-cases,
}
use sluice_gate_telemetery_i.Dedup.{also}
use sluice_gate_telemetery_i.Dedup.Replay.{repeats}
use sluice_gate_telemetery_i.Consumer.{Env, DecodedRecord, keys_of}

module _ (v : Env) where
  -- The records that are not marked as seen.
  abbrev pub unseen : List DecodedRecord → List Bool → List DecodedRecord
  unseen [] seen = []
  unseen (d ∷ ds) [] = d ∷ unseen ds []
  unseen (d ∷ ds) (true ∷ seen) = unseen ds seen
  unseen (d ∷ ds) (false ∷ seen) = d ∷ unseen ds seen

  pub repeats_absent :
      (has : Bytes → Bool) (ds : List DecodedRecord) (k : Bytes)
      → In k (keys_of v (unseen ds (repeats has (keys_of v ds))))
      → has k ≡ false
  repeats_absent has [] k i = absurd i
  repeats_absent has (d ∷ ds) k i =
      by_test (has d.event.idempotency_key) refl
        (repeats_absent (also has d.event.idempotency_key) ds k) i
    where
      by_test :
          (b : Bool)
          → has d.event.idempotency_key ≡ b
          → (In k
                (keys_of v (unseen ds (repeats (also has d.event.idempotency_key) (keys_of v ds))))
              → also has d.event.idempotency_key k ≡ false)
          → In k (
              keys_of v
                (unseen (d ∷ ds) (b ∷ repeats (also has d.event.idempotency_key) (keys_of v ds))))
          → has k ≡ false
      by_test true h rest j = ground (arith, rest j)
      by_test false h rest (inl e) = subst (λ q. has q ≡ false) (sym e) h
      by_test false h rest (inr j) = ground (arith, rest j)

  pub repeats-Distinct :
      (has : Bytes → Bool) (ds : List DecodedRecord)
      → Distinct (keys_of v (unseen ds (repeats has (keys_of v ds))))
  repeats-Distinct has [] = tt
  repeats-Distinct has (d ∷ ds) =
      by_test (has d.event.idempotency_key) (repeats-Distinct (also has d.event.idempotency_key) ds)
    where
      key : Bytes
      key = d.event.idempotency_key

      new : ¬ In key (keys_of v (unseen ds (repeats (also has key) (keys_of v ds))))
      new i =
          let absent : also has key key ≡ false = repeats_absent (also has key) ds key i in
          ground (arith, absent, beq_refl key)

      by_test :
          (b : Bool)
          → Distinct (keys_of v (unseen ds (repeats (also has key) (keys_of v ds))))
          → Distinct (keys_of v (unseen (d ∷ ds) (b ∷ repeats (also has key) (keys_of v ds))))
      by_test true rest = rest
      by_test false rest = (new, rest)

  pub unseen-In :
      (ds : List DecodedRecord) (seen : List Bool) (o : DecodedRecord)
      → In o (unseen ds seen)
      → In o ds
  unseen-In [] seen o i = absurd i
  unseen-In (d ∷ ds) [] o (inl e) = inl e
  unseen-In (d ∷ ds) [] o (inr i) = inr (unseen-In ds [] o i)
  unseen-In (d ∷ ds) (true ∷ seen) o i = inr (unseen-In ds seen o i)
  unseen-In (d ∷ ds) (false ∷ seen) o (inl e) = inl e
  unseen-In (d ∷ ds) (false ∷ seen) o (inr i) = inr (unseen-In ds seen o i)

  -- A key that is asked for was held, or is the key of a record that is not marked.
  pub repeats_cover :
      (has : Bytes → Bool) (ds : List DecodedRecord) (k : Bytes)
      → In k (keys_of v ds)
      → (has k ≡ true) ⊎ In k (keys_of v (unseen ds (repeats has (keys_of v ds))))
  repeats_cover has [] k i = absurd i
  repeats_cover has (d ∷ ds) k i =
      by_test (has d.event.idempotency_key) refl
        (repeats_cover (also has d.event.idempotency_key) ds k) i
    where
      key : Bytes
      key = d.event.idempotency_key

      marks : List Bool
      marks = repeats (also has key) (keys_of v ds)

      by_test :
          (b : Bool)
          → has key ≡ b
          → (In k (keys_of v ds) → (also has key k ≡ true) ⊎ In k (keys_of v (unseen ds marks)))
          → In k (keys_of v (d ∷ ds))
          → (has k ≡ true) ⊎ In k (keys_of v (unseen (d ∷ ds) (b ∷ marks)))
      by_test true h rest (inl e) = inl (subst (λ q. has q ≡ true) (sym e) h)
      by_test false h rest (inl e) = inr (inl e)
      by_test true h rest (inr j) = elim (rest j) [
        | inr m ↦ inr m
        | inl t ↦ elim (Bool-cases (beq k key)) [
          | inl e ↦ inl (subst (λ q. has q ≡ true) (sym (beq_eq k key e)) h)
          | inr n ↦ inl (ground (arith, t, n))
        ]
      ]
      by_test false h rest (inr j) = elim (rest j) [
        | inr m ↦ inr (inr m)
        | inl t ↦ elim (Bool-cases (beq k key)) [
          | inl e ↦ inr (inl (beq_eq k key e))
          | inr n ↦ inl (ground (arith, t, n))
        ]
      ]

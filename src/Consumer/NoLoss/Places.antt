-- ===== src/Consumer/NoLoss/Places.antt =====
-- Where a decoded record of a batch ends up (internal/consumer/consumer.go).
use sluice_gate_telemetery_i.Base.{
  ◌≡◌, refl, sym, subst, ◌∙◌, inl, inr, List, [], ◌∷◌, Bool, true, false, ◌||◌, Bytes, beq, beq_eq,
  In, Bool-cases,
}
use sluice_gate_telemetery_i.Dedup.{also}
use sluice_gate_telemetery_i.Dedup.Replay.{repeats}
use sluice_gate_telemetery_i.Consumer.{
  Env, Consumer, DecodedRecord, count_deduped, persist, keys_of, persist_all,
}
use sluice_gate_telemetery_i.Consumer.NoLoss.Steps.{
  Durable, Kept, Kept-trans, Kept-refl, IsDead-Kept, persist-Kept,
}
use sluice_gate_telemetery_i.Consumer.NoLoss.Outcome.{Reliable, IsPersisted, persist-IsPersisted}

module _ (v : Env) (p : Durable v.sink) (h : Reliable v) where
  pub IsPersisted-Kept :
      (d : DecodedRecord) (c c' : Consumer v)
      → p.IsReady c.sink
      → Kept v p c c'
      → IsPersisted v p h d.record_ d.event c
      → IsPersisted v p h d.record_ d.event c'
  IsPersisted-Kept d c c' r k (inl held) = inl (k.1 d.event r held)
  IsPersisted-Kept d c c' r k (inr dead) = inr (IsDead-Kept v p d.record_ c c' k dead)

  pub persist_all-Kept :
      (ds : List DecodedRecord) (seen : List Bool) (c : Consumer v)
      → Kept v p c (persist_all v ds seen c)
  unfolding persist_all count_deduped
  persist_all-Kept [] seen c = Kept-refl v p c
  persist_all-Kept (d ∷ ds) [] c =
      let c' = persist v d.record_ d.event c in
      Kept-trans v p c c' (persist_all v ds [] c') (persist-Kept v p d.record_ d.event c)
        (persist_all-Kept ds [] c')
  persist_all-Kept (d ∷ ds) (true ∷ seen) c = persist_all-Kept ds seen (count_deduped v c)
  persist_all-Kept (d ∷ ds) (false ∷ seen) c =
      let c' = persist v d.record_ d.event c in
      Kept-trans v p c c' (persist_all v ds seen c') (persist-Kept v p d.record_ d.event c)
        (persist_all-Kept ds seen c')

  -- A decoded record of the batch ds: persisted, or a repeat of a key that was there before the batch
  -- or of a record of the batch that is persisted.
  pub data Placed (has : Bytes → Bool) (ds : List DecodedRecord) (c : Consumer v)
      (d : DecodedRecord) : Type 0 where
    persisted : IsPersisted v p h d.record_ d.event c → Placed has ds c d
    repeats_before : has d.event.idempotency_key ≡ true → Placed has ds c d
    repeats_other :
        (o : DecodedRecord)
        → In o ds
        → o.event.idempotency_key ≡ d.event.idempotency_key
        → IsPersisted v p h o.record_ o.event c
        → Placed has ds c d

  -- The head of the batch, seen from its tail.
  pub Placed-cons :
      (has : Bytes → Bool) (d o : DecodedRecord) (ds : List DecodedRecord) (c : Consumer v)
      → Placed has (d ∷ ds) c d
      → Placed (also has d.event.idempotency_key) ds c o
      → Placed has (d ∷ ds) c o
  Placed-cons has d o ds c a (persisted k) = persisted k
  Placed-cons has d o ds c a (repeats_other q i e k) = repeats_other q (inr i) e k
  Placed-cons has d o ds c a (repeats_before k) =
      by_key (has o.event.idempotency_key) refl
        (beq o.event.idempotency_key d.event.idempotency_key) refl
    where
      same :
          d.event.idempotency_key ≡ o.event.idempotency_key
          → Placed has (d ∷ ds) c d
          → Placed has (d ∷ ds) c o
      same e (persisted x) = repeats_other d (inl refl) e x
      same e (repeats_before x) = repeats_before (subst (λ j. has j ≡ true) e x)
      same e (repeats_other q i f x) = repeats_other q i (f ∙ e) x

      by_key :
          (b : Bool)
          → has o.event.idempotency_key ≡ b
          → (b' : Bool) → beq o.event.idempotency_key d.event.idempotency_key ≡ b'
          → Placed has (d ∷ ds) c o
      by_key true e b' e' = repeats_before e
      by_key false e true e' = same (sym (beq_eq _ _ e')) a
      by_key false e false e' = let w : (false || false) ≡ true = rw (e, e') at k in cc

  pub Placed-In :
      (has : Bytes → Bool) (d : DecodedRecord) (ds : List DecodedRecord) (c : Consumer v)
      (o : DecodedRecord)
      → Placed has (d ∷ ds) c d
      → (In o ds → Placed (also has d.event.idempotency_key) ds c o)
      → In o (d ∷ ds)
      → Placed has (d ∷ ds) c o
  Placed-In has d ds c o a b (inl e) = subst (Placed has (d ∷ ds) c) (sym e) a
  Placed-In has d ds c o a b (inr i) = Placed-cons has d o ds c a (b i)

  pub persist_all-Placed :
      (has : Bytes → Bool) (ds : List DecodedRecord) (c : Consumer v) (o : DecodedRecord)
      → p.IsReady c.sink
      → In o ds
      → Placed has ds (persist_all v ds (repeats has (keys_of v ds)) c) o
  unfolding persist_all count_deduped
  persist_all-Placed has [] c o r i = absurd i
  persist_all-Placed has (d ∷ ds) c o r i = elim (Bool-cases (has k)) [
    | inl old ↦ subst result (sym old) (
        Placed-In has d ds _ o (repeats_before old)
          (persist_all-Placed (also has k) ds (count_deduped v c) o r) i)
    | inr new ↦ subst result (sym new) (
        Placed-In has d ds _ o
          (persisted (
            IsPersisted-Kept d c' (persist_all v ds rest c') r' (persist_all-Kept ds rest c')
              (persist-IsPersisted v p h d.record_ d.event c r)))
          (persist_all-Placed (also has k) ds c' o r') i)
  ]
    where
      k : Bytes
      k = d.event.idempotency_key

      rest : List Bool
      rest = repeats (also has k) (keys_of v ds)

      result : Bool → Type 0
      result b = Placed has (d ∷ ds) (persist_all v (d ∷ ds) (b ∷ rest) c) o

      c' : Consumer v
      c' = persist v d.record_ d.event c

      r' : p.IsReady c'.sink
      r' = (persist-Kept v p d.record_ d.event c).0 r

  pub persist_all-none :
      (ds : List DecodedRecord) (c : Consumer v) (o : DecodedRecord)
      → p.IsReady c.sink
      → In o ds
      → IsPersisted v p h o.record_ o.event (persist_all v ds [] c)
  unfolding persist_all
  persist_all-none [] c o r i = absurd i
  persist_all-none (d ∷ ds) c o r (inl e) =
      let c' = persist v d.record_ d.event c in
      let now = persist-IsPersisted v p h d.record_ d.event c r in
      subst (λ q. IsPersisted v p h q.record_ q.event (persist_all v ds [] c')) (sym e)
        (IsPersisted-Kept d c' (persist_all v ds [] c') ((persist-Kept v p d.record_ d.event c).0 r)
          (persist_all-Kept ds [] c') now)
  persist_all-none (d ∷ ds) c o r (inr i) =
      persist_all-none ds (persist v d.record_ d.event c) o
        ((persist-Kept v p d.record_ d.event c).0 r) i

-- ===== src/Consumer/Rounds/Standing.antt =====
-- How the records polled by internal/consumer/consumer.go can stand between its rounds.
use sluice_gate_telemetery_i.Base.{
  ◌≡◌, refl, sym, ap, ◌∙◌, ◌⊎◌, inl, inr, List, [], ◌∷◌, ◌++◌, Bool, true, Bytes, In,
}
use sluice_gate_telemetery_i.Event.{Event, Error, Result, ok, err, Result-cases, decode_record}
use sluice_gate_telemetery_i.Dlq.{Letter}
use sluice_gate_telemetery_i.Consumer.{Env, Consumer, DecodedRecord, keys_of}
use sluice_gate_telemetery_i.Consumer.NoLoss.{Durable, IsDead, decoded}

pub decoded-append :
    (v : Env) (ls ms : List Letter) → decoded v (ls ++ ms) ≡ decoded v ls ++ decoded v ms
unfolding decoded
decoded-append v [] ms = refl
decoded-append v (l ∷ ls) ms = elim (Result-cases (decode_record v.proto l.value)) [
  | inl (e, k) ↦
      rw (k, decoded) (ap (◌∷◌ (record { record_ = l; event = e })) (decoded-append v ls ms))
  | inr (x, k) ↦ rw (k, decoded) (decoded-append v ls ms)
]

-- How a record that was polled can stand.
pub data Standing (v : Env) (p : Durable v.sink) (before : Bytes → Bool)
    (P : Letter → Event → Consumer v → Type 0) (ls : List Letter) (c : Consumer v) (l : Letter)
    : Type 0 where
  undecodable :
      (x : Error)
      → decode_record v.proto l.value ≡ err x
      → IsDead v p l c
      → Standing v p before P ls c l
  stands :
      (e : Event) → decode_record v.proto l.value ≡ ok e → P l e c → Standing v p before P ls c l
  repeats_old :
      (e : Event)
      → decode_record v.proto l.value ≡ ok e
      → before e.idempotency_key ≡ true
      → Standing v p before P ls c l
  repeats_twin :
      (e : Event) (o : DecodedRecord)
      → decode_record v.proto l.value ≡ ok e
      → In o (decoded v ls)
      → o.event.idempotency_key ≡ e.idempotency_key
      → P o.record_ o.event c
      → Standing v p before P ls c l

pub ok_inj : (e f : Event) → ok e ≡ ok f → e ≡ f
ok_inj e f h = cc

-- A decoded record is one of the batch, with its event.
pub decoded-In :
    (v : Env) (ls : List Letter) (o : DecodedRecord)
    → In o (decoded v ls)
    → In o.record_ ls × (decode_record v.proto o.record_.value ≡ ok o.event)
unfolding decoded
decoded-In v [] o i = absurd i
decoded-In v (l ∷ ls) o i = by_result (decoded-In v ls o) (decode_record v.proto l.value) refl i
  where
    by_result :
        (In o (decoded v ls)
          → In o.record_ ls × (decode_record v.proto o.record_.value ≡ ok o.event))
        → (x : Result Event) → decode_record v.proto l.value ≡ x
        → In o (elim x [
          | ok e ↦ record { record_ = l; event = e } ∷ decoded v ls
          | err y ↦ decoded v ls
        ])
        → In o.record_ (l ∷ ls) × (decode_record v.proto o.record_.value ≡ ok o.event)
    by_result ih (ok e) m (inl same) = (
      inl (ap (λ r. r.record_) same),
      ap (λ r. decode_record v.proto r.record_.value) same ∙ m ∙ ap (λ r. ok r.event) (sym same),
    )
    by_result ih (ok e) m (inr j) = let r = ih j in (inr r.0, r.1)
    by_result ih (err y) m j = let r = ih j in (inr r.0, r.1)

pub keys-In :
    (v : Env) (ds : List DecodedRecord) (k : Bytes)
    → In k (keys_of v ds)
    → (o : DecodedRecord) × In o ds × (o.event.idempotency_key ≡ k)
keys-In v [] k i = absurd i
keys-In v (d ∷ ds) k (inl e) = (d, inl refl, sym e)
keys-In v (d ∷ ds) k (inr i) = let (o, j, e) = keys-In v ds k i in (o, inr j, e)

module _ (v : Env) (p : Durable v.sink) (before : Bytes → Bool) where
  pub Standing-map :
      (P Q : Letter → Event → Consumer v → Type 0) (ls ms : List Letter) (c d : Consumer v)
      (l : Letter)
      → (IsDead v p l c → IsDead v p l d)
      → ((o : DecodedRecord) → In o (decoded v ls) → In o (decoded v ms))
      → ((k : Letter) (e : Event) → P k e c → Q k e d)
      → Standing v p before P ls c l
      → Standing v p before Q ms d l
  Standing-map P Q ls ms c d l dead more on (undecodable x m a) = undecodable x m (dead a)
  Standing-map P Q ls ms c d l dead more on (stands e m a) = stands e m (on l e a)
  Standing-map P Q ls ms c d l dead more on (repeats_old e m b) = repeats_old e m b
  Standing-map P Q ls ms c d l dead more on (repeats_twin e o m i k a) =
      repeats_twin e o m (more o i) k (on o.record_ o.event a)

  -- A key that Redis did not hold before the first round is that of a record that was polled since.
  abbrev pub Traced :
      (Letter → Event → Consumer v → Type 0) → List Letter → Consumer v → Bytes → Type 0
  Traced P ls c k =
      (before k ≡ true)
      ⊎ ((o : DecodedRecord) × In o (decoded v ls)
          × (o.event.idempotency_key ≡ k)
          × P o.record_ o.event c)

  pub Traced-map :
      (P Q : Letter → Event → Consumer v → Type 0) (ls ms : List Letter) (c d : Consumer v)
      (k : Bytes)
      → ((o : DecodedRecord) → In o (decoded v ls) → In o (decoded v ms))
      → ((k : Letter) (e : Event) → P k e c → Q k e d)
      → Traced P ls c k
      → Traced Q ms d k
  Traced-map P Q ls ms c d k more on (inl b) = inl b
  Traced-map P Q ls ms c d k more on (inr (o, i, e, a)) =
      inr (o, more o i, e, on o.record_ o.event a)

-- ===== src/Consumer/Rounds/Batch.antt =====
-- What has become of the records polled so far, through a batch of internal/consumer/consumer.go.
use sluice_gate_telemetery_i.Base.{
  ◌≡◌, refl, sym, ap, subst, ◌∙◌, ◌⊎◌, inl, inr, List, ◌++◌, Bool, true, Bytes, In, In-append_left,
  In-append_right, In-split, Bool-cases,
}
use sluice_gate_telemetery_i.Event.{Event, ok, err, decode_record}
use sluice_gate_telemetery_i.Dlq.{Letter}
use sluice_gate_telemetery_i.Dedup.{seen_batch-only}
use sluice_gate_telemetery_i.Consumer.{Env, Consumer, DecodedRecord, keys_of, handle_batch}
use sluice_gate_telemetery_i.Consumer.Keys.{handle_batch-redis, handle_batch-unchecked}
use sluice_gate_telemetery_i.Consumer.NoLoss.{
  Durable, Reliable, IsDead, IsDead-Kept, IsPersisted, decoded, persisted, repeats_before,
  repeats_other, Fate, handle_batch-Kept, handle_batch-Fate,
}
use sluice_gate_telemetery_i.Consumer.Rounds.Settled.{Settling}
use sluice_gate_telemetery_i.Consumer.Rounds.Steady.{Steady, Lasting, handle_batch-Lasting}
use sluice_gate_telemetery_i.Consumer.Rounds.Standing.{
  decoded-append, decoded-In, keys-In, ok_inj, Standing, undecodable, stands, repeats_old,
  repeats_twin, Standing-map, Traced, Traced-map,
}

module _ (v : Env) (p : Durable v.sink) (q : Settling v.sink p) (h : Reliable v)
    (w : Steady v.sink p q) (before : Bytes → Bool) where
  abbrev pub Lasts : Letter → Event → Consumer v → Type 0
  Lasts = Lasting v p q h w

  -- What holds of the records polled so far.
  pub record History (ls : List Letter) (c : Consumer v) : Type 0 where
    pub ready : p.IsReady c.sink
    pub each : (l : Letter) → In l ls → Standing v p before Lasts ls c l
    pub traced : (k : Bytes) → v.redis.has c.redis k ≡ true → Traced v p before Lasts ls c k

  -- A change that Redis does not see.
  pub History-map :
      (ls : List Letter) (c d : Consumer v)
      → p.IsReady d.sink
      → d.redis ≡ c.redis
      → ((l : Letter) → IsDead v p l c → IsDead v p l d)
      → ((k : Letter) (e : Event) → Lasts k e c → Lasts k e d)
      → History ls c
      → History ls d
  History-map ls c d r same dead on a = record {
    ready = r;
    each =
        λ l i. Standing-map v p before Lasts Lasts ls ls c d l (dead l) (λ o j. j) on (a.each l i);
    traced = λ k t.
        Traced-map v p before Lasts Lasts ls ls c d k (λ o j. j) on
          (a.traced k (subst (λ s. v.redis.has s k ≡ true) same t));
  }

  -- A batch more.
  module _ (old new : List Letter) (c : Consumer v) (a : History old c) where
    end : Consumer v
    end = handle_batch v new c

    more_old : (o : DecodedRecord) → In o (decoded v old) → In o (decoded v (old ++ new))
    more_old o i =
        subst (In o) (sym (decoded-append v old new)) (In-append_left o _ (decoded v new) i)

    more_new : (o : DecodedRecord) → In o (decoded v new) → In o (decoded v (old ++ new))
    more_new o i =
        subst (In o) (sym (decoded-append v old new)) (In-append_right o (decoded v old) _ i)

    persisted-Lasting : (l : Letter) (e : Event) → IsPersisted v p h l e end → Lasts l e end
    persisted-Lasting l e (inl held) = inl held
    persisted-Lasting l e (inr dead) = inr (inl dead)

    held_before :
        (k : Bytes) → v.redis.has c.redis k ≡ true → Traced v p before Lasts (old ++ new) end k
    unfolding end
    held_before k t =
        Traced-map v p before Lasts Lasts old (old ++ new) c end k more_old
          (λ l e b. handle_batch-Lasting v p q h w new l e c a.ready b) (a.traced k t)

    by_trace :
        (l : Letter) (e : Event)
        → decode_record v.proto l.value ≡ ok e
        → Traced v p before Lasts (old ++ new) end e.idempotency_key
        → Standing v p before Lasts (old ++ new) end l
    by_trace l e m (inl b) = repeats_old e m b
    by_trace l e m (inr (o, i, k, b)) = repeats_twin e o m i k b

    new-Standing : (l : Letter) → In l new → Standing v p before Lasts (old ++ new) end l
    unfolding end
    new-Standing l i = by_fate (handle_batch-Fate v p h new c l a.ready i)
      where
        by_fate : Fate v p h new c end l → Standing v p before Lasts (old ++ new) end l
        by_fate (Fate.undecodable x m d) = undecodable x m d
        by_fate (Fate.decodes e m (persisted b)) = stands e m (persisted-Lasting l e b)
        by_fate (Fate.decodes e m (repeats_before b)) =
            by_trace l e m (held_before e.idempotency_key b)
        by_fate (Fate.decodes e m (repeats_other o j k b)) =
            repeats_twin e o m (more_new o j) k (persisted-Lasting o.record_ o.event b)

    old-Standing : (l : Letter) → In l old → Standing v p before Lasts (old ++ new) end l
    unfolding end
    old-Standing l i =
        Standing-map v p before Lasts Lasts old (old ++ new) c end l
          (IsDead-Kept v p l c end (handle_batch-Kept v p h new c)) more_old
          (λ k e b. handle_batch-Lasting v p q h w new k e c a.ready b) (a.each l i)

    -- A key that the batch has asked for.
    key-Traced :
        (o : DecodedRecord)
        → In o (decoded v new)
        → Traced v p before Lasts (old ++ new) end o.event.idempotency_key
    key-Traced o i = let (j, m) = decoded-In v new o i in by_standing m (new-Standing o.record_ j)
      where
        by_standing :
            decode_record v.proto o.record_.value ≡ ok o.event
            → Standing v p before Lasts (old ++ new) end o.record_
            → Traced v p before Lasts (old ++ new) end o.event.idempotency_key
        by_standing m (undecodable x n d) = let f : err x ≡ ok o.event = sym n ∙ m in cc
        by_standing m (stands e n b) =
            let same : e ≡ o.event = ok_inj e o.event (sym n ∙ m) in
            inr (o, more_new o i, refl, subst (λ f. Lasts o.record_ f end) same b)
        by_standing m (repeats_old e n b) =
            let same : e ≡ o.event = ok_inj e o.event (sym n ∙ m) in
            inl (subst (λ f. before f.idempotency_key ≡ true) same b)
        by_standing m (repeats_twin e r n j k b) =
            let same : e ≡ o.event = ok_inj e o.event (sym n ∙ m) in
            inr (r, j, k ∙ ap (λ f. f.idempotency_key) same, b)

    end-Traced :
        (k : Bytes) → v.redis.has end.redis k ≡ true → Traced v p before Lasts (old ++ new) end k
    unfolding end
    end-Traced k t = elim (Bool-cases v.dedup) [
      | inl on ↦ by_answer (
          seen_batch-only v.redis (keys_of v (decoded v new)) c.redis k
            (subst (λ s. v.redis.has s k ≡ true) (handle_batch-redis v new c on) t))
      | inr off ↦
          held_before k (subst (λ s. v.redis.has s k ≡ true) (handle_batch-unchecked v new c off) t)
    ]
      where
        by_answer :
            (v.redis.has c.redis k ≡ true) ⊎ In k (keys_of v (decoded v new))
            → Traced v p before Lasts (old ++ new) end k
        by_answer (inl b) = held_before k b
        by_answer (inr i) =
            let (o, j, e) = keys-In v (decoded v new) k i in
            subst (Traced v p before Lasts (old ++ new) end) e (key-Traced o j)

    pub handle_batch-History : History (old ++ new) (handle_batch v new c)
    unfolding end
    handle_batch-History = record {
      ready = (handle_batch-Kept v p h new c).0 a.ready;
      each = λ l i. elim (In-split l old new i) [
        | inl j ↦ old-Standing l j
        | inr j ↦ new-Standing l j
      ];
      traced = end-Traced;
    }

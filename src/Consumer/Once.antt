-- ===== src/Consumer/Once.antt =====
-- With dedup on, internal/consumer/consumer.go passes no idempotency key to the sink twice.
use mathlib.Core.Path.{ap₂}
use sluice_gate_telemetery_i.Base.{
  ◌≡◌, refl, sym, ap, subst, ◌∙◌, List, [], ◌∷◌, Bool, true, false, Bytes, ◌⊎◌, Option, none, some,
  if◌then◌else◌, attempts, In, Distinct,
}
use sluice_gate_telemetery_i.Event.{Event, PoisonedEvent, Error, Result, ok}
use sluice_gate_telemetery_i.Retry.{last_err, retry}
use sluice_gate_telemetery_i.Dedup.{seen_batch}
use sluice_gate_telemetery_i.Dedup.Replay.{repeats, seen_batch-repeats}
use sluice_gate_telemetery_i.Dlq.{Letter}
use sluice_gate_telemetery_i.Consumer.{
  Env, Consumer, DecodedRecord, sink_write_error, persist_failed, say, count_consumed,
  count_deduped, send_to_dlq, persist_buffered, persist_retried, persist, decode_all, keys_of,
  check_seen, note_seen, persist_all, handle_decoded, handle_batch,
}
use sluice_gate_telemetery_i.Consumer.NoLoss.{decoded, decode_all-decoded}
use sluice_gate_telemetery_i.Consumer.Keys.{answer}
use sluice_gate_telemetery_i.Consumer.Replay.{
  Untouched, send_to_dlq-Untouched, decode_all-Untouched,
}
use sluice_gate_telemetery_i.Consumer.Unseen.{
  unseen, unseen-In, repeats_absent, repeats-Distinct, repeats_cover,
}

module _ (v : Env) where
  -- What persisting an event does to the sink: one write, or the loop of them.
  abbrev pub written : Event → v.SinkState → v.SinkState
  written e s = elim v.sink.poison_reporter [
    | some g ↦ (v.sink.write e s).0
    | none ↦ (retry (attempts v.max_retries) (v.sink.write e) s none).0
  ]

  -- One event after the other.
  abbrev pub all_written : List DecodedRecord → v.SinkState → v.SinkState
  all_written [] s = s
  all_written (d ∷ ds) s = all_written ds (written d.event s)

  persist-written :
      (l : Letter) (e : Event) (c : Consumer v) → (persist v l e c).sink ≡ written e c.sink
  unfolding persist persist_buffered persist_retried count_consumed
  persist-written l e c = by_sink v.sink.poison_reporter
    where
      by_write :
          (s : v.SinkState) (o : Option Error)
          → (let c' : Consumer v = elim o [
            | none ↦ record c { sink = s }
            | some x ↦ say v (sink_write_error x) (record c { sink = s })
          ] in
              c'.sink)
            ≡ s
      by_write s none = refl
      by_write s (some x) = refl

      by_loop :
          (s : v.SinkState) (o : Option Error)
          → (let c' : Consumer v = elim o [
            | none ↦ count_consumed v (record c { sink = s })
            | some x ↦
                send_to_dlq v l x (say v (persist_failed v.max_retries x) (record c { sink = s }))
          ] in
              c'.sink)
            ≡ s
      by_loop s none = refl
      by_loop s (some x) =
          (send_to_dlq-Untouched v l x
            (say v (persist_failed v.max_retries x) (record c { sink = s }))).0

      by_sink :
          (o : Option (v.SinkState → v.SinkState × List PoisonedEvent))
          → (let c' : Consumer v = elim o [
            | some g ↦ persist_buffered v e c
            | none ↦ persist_retried v l e c
          ] in
              c'.sink)
            ≡ elim o [
              | some g ↦ (v.sink.write e c.sink).0
              | none ↦ (retry (attempts v.max_retries) (v.sink.write e) c.sink none).0
            ]
      by_sink (some g) = by_write _ (v.sink.write e c.sink).1
      by_sink none =
          by_loop _ (last_err (retry (attempts v.max_retries) (v.sink.write e) c.sink none).1)

  persist_all-written :
      (ds : List DecodedRecord) (seen : List Bool) (c : Consumer v)
      → (persist_all v ds seen c).sink ≡ all_written (unseen v ds seen) c.sink
  unfolding persist_all count_deduped
  persist_all-written [] seen c = refl
  persist_all-written (d ∷ ds) [] c =
      persist_all-written ds [] (persist v d.record_ d.event c)
      ∙ ap (all_written (unseen v ds [])) (persist-written d.record_ d.event c)
  persist_all-written (d ∷ ds) (true ∷ seen) c = persist_all-written ds seen (count_deduped v c)
  persist_all-written (d ∷ ds) (false ∷ seen) c =
      persist_all-written ds seen (persist v d.record_ d.event c)
      ∙ ap (all_written (unseen v ds seen)) (persist-written d.record_ d.event c)

  handle_decoded-written :
      (ds : List DecodedRecord) (c : Consumer v) (seen : List Bool)
      → v.dedup ≡ true
      → (seen_batch v.redis (keys_of v ds) c.redis).1 ≡ ok seen
      → (handle_decoded v ds c).sink ≡ all_written (unseen v ds seen) c.sink
  unfolding handle_decoded check_seen note_seen
  handle_decoded-written [] c seen on a = refl
  handle_decoded-written (d ∷ ds) c seen on a =
      subst by_config (sym on) (subst by_answer (sym a) (persist_all-written (d ∷ ds) seen checked))
    where
      reply : v.redis.State × Result (List Bool)
      reply = seen_batch v.redis (keys_of v (d ∷ ds)) c.redis

      checked : Consumer v
      checked = record c { redis = reply.0 }

      IsWritten : Consumer v × List Bool → Type 0
      IsWritten q =
          (persist_all v (d ∷ ds) q.1 q.0).sink ≡ all_written (unseen v (d ∷ ds) seen) c.sink

      by_answer : Result (List Bool) → Type 0
      by_answer r = IsWritten (note_seen v r checked)

      by_config : Bool → Type 0
      by_config b =
          IsWritten
            (if◌then◌else◌ {A = Consumer v × List Bool} b (note_seen v reply.1 checked) (c, []))

  -- What a batch has done to the sink.
  pub record Once (ls : List Letter) (c : Consumer v) : Type 0 where
    pub records : List DecodedRecord
    pub sink_has : (handle_batch v ls c).sink ≡ all_written records c.sink
    pub of_batch : (o : DecodedRecord) → In o records → In o (decoded v ls)
    pub keys_differ : Distinct (keys_of v records)
    pub keys_new : (k : Bytes) → In k (keys_of v records) → v.redis.has c.redis k ≡ false
    pub all_new :
        (k : Bytes)
        → In k (keys_of v (decoded v ls))
        → (v.redis.has c.redis k ≡ true) ⊎ In k (keys_of v records)

  -- With dedup on and a Redis that answers without an error, a batch writes records of
  -- it to the sink, one after the other: exactly one for each key that Redis did not hold.
  pub handle_batch-Once :
      (ls : List Letter) (c : Consumer v) (bs : List Bool)
      → v.dedup ≡ true
      → (answer v ls c.redis).1 ≡ ok bs
      → Once ls c
  unfolding handle_batch
  handle_batch-Once ls c bs on a = record {
    records = unseen v ds (repeats (v.redis.has c.redis) (keys_of v ds));
    sink_has =
        handle_decoded-written ds d bs on checked
        ∙ ap₂ (λ seen s. all_written (unseen v ds seen) s) marks untouched.0.0;
    keys_differ = repeats-Distinct v (v.redis.has c.redis) ds;
    of_batch = λ o i. subst (In o) same (unseen-In v ds _ o i);
    keys_new = repeats_absent v (v.redis.has c.redis) ds;
    all_new = λ k i.
        repeats_cover v (v.redis.has c.redis) ds k (subst (λ os. In k (keys_of v os)) (sym same) i);
  }
    where
      d : Consumer v
      d = (decode_all v ls c).0

      ds : List DecodedRecord
      ds = (decode_all v ls c).1

      untouched : Untouched v c d × (d.redis ≡ c.redis)
      untouched = decode_all-Untouched v ls c

      same : ds ≡ decoded v ls
      same = decode_all-decoded v ls c

      checked : (seen_batch v.redis (keys_of v ds) d.redis).1 ≡ ok bs
      checked = ap₂ (λ os s. (seen_batch v.redis (keys_of v os) s).1) same untouched.1 ∙ a

      marks : bs ≡ repeats (v.redis.has c.redis) (keys_of v ds)
      marks =
          subst (λ os. bs ≡ repeats (v.redis.has c.redis) (keys_of v os)) (sym same)
            (seen_batch-repeats v.redis (keys_of v (decoded v ls)) c.redis bs a).0
